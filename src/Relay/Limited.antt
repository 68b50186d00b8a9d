-- ===== src/Relay/Limited.antt =====
-- src/relay/limited.rs: the limiter of simultaneous submissions. A call is admitted before its one
-- `await`; its permits are dropped when it ends, well, badly or cancelled.
pub mod Bounds
use electrum_private_relay.Prelude.{
  ℕ, ◌+◌, ◌^◌, ◌≡◌, ◌<◌, Option, none, some, List, [], ◌∷◌, ◌++◌, Str, len, ltb, if◌then◌else◌,
  Result, ok, err, ok_or,
}
use electrum_private_relay.Relay.{RelayError, failed}
use electrum_private_relay.Tokio.{Semaphore}

-- `u32::try_from`
abbrev pub u32_try_from : ℕ → Option ℕ
u32_try_from n = if ltb n (2 ^ 32) then some n else none

module _ (semaphore : Semaphore) where
  open semaphore use {State, new, try_acquire_many, drop_permits}

  pub record LimitedRelay : Type 0 where
    pub requests : State
    pub payload_bytes : State

  unfoldable pub with_payload_budget : ℕ → ℕ → LimitedRelay
  with_payload_budget limit payload_budget = record {
    requests = new limit;
    payload_bytes = new payload_budget;
  }

  -- The second permit; without it the first is dropped.
  unfoldable pub acquire_payload :
      ℕ → LimitedRelay → Option State → Result RelayError (Unit {0}) × LimitedRelay
  acquire_payload permits relay none =
      (err failed, record relay { requests = drop_permits 1 relay.requests })
  acquire_payload permits relay (some payload) = (ok tt, record relay { payload_bytes = payload })

  unfoldable pub acquire_request :
      ℕ → LimitedRelay → Option State → Result RelayError (Unit {0}) × LimitedRelay
  acquire_request permits relay none = (err failed, relay)
  acquire_request permits relay (some requests) =
      acquire_payload permits (record relay { requests = requests })
        (try_acquire_many permits relay.payload_bytes)

  unfoldable pub acquire_permits :
      Option ℕ → LimitedRelay → Result RelayError (Unit {0}) × LimitedRelay
  acquire_permits none relay = (err failed, relay)
  acquire_permits (some permits) relay =
      acquire_request permits relay (try_acquire_many 1 relay.requests)

  -- `broadcast` up to the call of the inner relay: `ok` means that the inner relay is called.
  unfoldable pub admit : Str → LimitedRelay → Result RelayError (Unit {0}) × LimitedRelay
  admit raw_transaction relay = acquire_permits (u32_try_from (len raw_transaction)) relay

  -- The end of `broadcast`: `_payload` and `_request` are dropped.
  unfoldable pub finish : Str → LimitedRelay → LimitedRelay
  finish raw_transaction relay = record {
    payload_bytes = drop_permits (len raw_transaction) relay.payload_bytes;
    requests = drop_permits 1 relay.requests;
  }

  -- The limiter with the calls of the inner relay that run.
  pub record Limiter : Type 0 where
    pub relay : LimitedRelay
    pub running : List Str

  unfoldable pub start : ℕ → ℕ → Limiter
  start limit payload_budget = record {
    relay = with_payload_budget limit payload_budget;
    running = [];
  }

  unfoldable pub on_admission :
      Str → Limiter → Result RelayError (Unit {0}) × LimitedRelay → Limiter
  on_admission raw s (ok _, relay) = record { relay = relay; running = raw ∷ s.running }
  on_admission raw s (err e, relay) = record s { relay = relay }

  -- A task calls `broadcast`; a running call ends.
  pub data Step (s : Limiter) : Limiter → Type 0 where
    calls : (raw : Str) → Step s (on_admission raw s (admit raw s.relay))
    ends :
        (before after : List Str) (raw : Str)
        → s.running ≡ before ++ raw ∷ after
        → Step s (record { relay = finish raw s.relay; running = before ++ after })

  pub data Reach (s : Limiter) : Limiter → Type 0 where
    here : Reach s s
    next : {t u : Limiter} → Reach s t → Step t u → Reach s u
