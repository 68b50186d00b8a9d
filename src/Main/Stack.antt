-- ===== src/Main/Stack.antt =====
-- The relay stack that `run` of src/main.rs builds, as one object: the draining relay around the
-- limiter. The runtime has several threads, so each critical section of the one and each attempt at
-- a semaphore of the other is a step of its own, and other calls may come between any two.
pub mod Calls
pub mod Gate
use electrum_private_relay.Prelude.{
  ℕ, Bool, true, false, Option, none, some, List, [], ◌∷◌, ◌++◌, ◌≡◌, Str, len, Result, ok, err,
}
use electrum_private_relay.Tokio.{Semaphore}
use electrum_private_relay.Config.{Config, max_configurable_in_flight_broadcast_bytes}
use electrum_private_relay.Relay.{RelayError}
use electrum_private_relay.Relay.Limited.{LimitedRelay, with_payload_budget, u32_try_from}
use electrum_private_relay.Relay.Draining.{DrainState, enter, leave, stop_accepting}

-- Where a call of the stack stands: counted as active; with a request permit; in the inner relay,
-- with its payload permits too; with the request permit still to drop; or with the count of active
-- calls still to lower.
pub data Call : Type 0 where
  entered slotted calling returning : Str → Call
  leaving : Call

module _ (semaphore : Semaphore) where
  open semaphore use {State, try_acquire_many, drop_permits}

  -- The states of both relays, and the calls between them.
  pub record Stack : Type 0 where
    pub drain : DrainState
    pub limited : LimitedRelay semaphore
    pub calls : List Call

  -- `LimitedRelay::new(..)` and `DrainingRelay::new(..)`
  unfoldable pub new : Config → Stack
  new config = record {
    drain = record { accepting = true; active = 0 };
    limited =
        with_payload_budget semaphore config.max_concurrent_broadcasts.get
          max_configurable_in_flight_broadcast_bytes;
    calls = [];
  }

  unfoldable pub on_entered :
      Str → Stack → Result RelayError DrainState → Result RelayError (Unit {0}) × Stack
  on_entered raw s (err error) = (err error, s)
  on_entered raw s (ok drain) = (ok tt, record s { drain = drain; calls = entered raw ∷ s.calls })

  -- `broadcast` of the draining relay up to the limiter.
  unfoldable pub submit : Str → Stack → Result RelayError (Unit {0}) × Stack
  submit raw s = on_entered raw s (enter s.drain)

  -- The call between `before` and `after` goes on to `call`.
  abbrev pub move : List Call → Call → List Call → Stack → Stack
  move before call after s = record s { calls = before ++ call ∷ after }

  unfoldable pub on_slot : List Call → Str → List Call → Stack → Option State → Stack
  on_slot before raw after s none = move before leaving after s
  on_slot before raw after s (some requests) =
      move before (slotted raw) after
        (record s { limited = record s.limited { requests = requests } })

  unfoldable pub on_permits : List Call → Str → List Call → Stack → Option ℕ → Stack
  on_permits before raw after s none = move before leaving after s
  on_permits before raw after s (some permits) =
      on_slot before raw after s (try_acquire_many 1 s.limited.requests)

  -- The limiter converts the length and tries the request permit.
  unfoldable pub take_slot : List Call → Str → List Call → Stack → Stack
  take_slot before raw after s = on_permits before raw after s (u32_try_from (len raw))

  unfoldable pub on_payload : List Call → Str → List Call → Stack → Option State → Stack
  on_payload before raw after s none = move before (returning raw) after s
  on_payload before raw after s (some payload) =
      move before (calling raw) after
        (record s { limited = record s.limited { payload_bytes = payload } })

  -- The limiter tries the payload permits; with them the inner relay is called.
  unfoldable pub take_payload : List Call → Str → List Call → Stack → Stack
  take_payload before raw after s =
      on_payload before raw after s (try_acquire_many (len raw) s.limited.payload_bytes)

  -- The inner relay has returned, well or badly, or the call is cancelled: `_payload` is dropped.
  unfoldable pub end_call : List Call → Str → List Call → Stack → Stack
  end_call before raw after s = move before (returning raw) after (record s {
    limited = record s.limited { payload_bytes = drop_permits (len raw) s.limited.payload_bytes };
  })

  -- `_request` is dropped.
  unfoldable pub drop_slot : List Call → List Call → Stack → Stack
  drop_slot before after s =
      move before leaving after
        (record s { limited = record s.limited { requests = drop_permits 1 s.limited.requests } })

  -- The active call is dropped.
  unfoldable pub leave_call : List Call → List Call → Stack → Stack
  leave_call before after s = record s { drain = leave s.drain; calls = before ++ after }

  -- `begin_shutdown`
  unfoldable pub begin_shutdown : Stack → Stack
  begin_shutdown s = record s { drain = stop_accepting s.drain }

  -- What a call that was admitted by the drain does, up to its end.
  pub data Move (s : Stack) : Stack → Type 0 where
    takes_slot :
        (before after : List Call) (raw : Str)
        → s.calls ≡ before ++ entered raw ∷ after
        → Move s (take_slot before raw after s)
    takes_payload :
        (before after : List Call) (raw : Str)
        → s.calls ≡ before ++ slotted raw ∷ after
        → Move s (take_payload before raw after s)
    ends_call :
        (before after : List Call) (raw : Str)
        → s.calls ≡ before ++ calling raw ∷ after
        → Move s (end_call before raw after s)
    drops_slot :
        (before after : List Call) (raw : Str)
        → s.calls ≡ before ++ returning raw ∷ after
        → Move s (drop_slot before after s)
    leaves_call :
        (before after : List Call)
        → s.calls ≡ before ++ leaving ∷ after
        → Move s (leave_call before after s)

  pub data Step (s : Stack) : Stack → Type 0 where
    submits : (raw : Str) → Step s (submit raw s).1
    moves : {t : Stack} → Move s t → Step s t
    shuts_down : Step s (begin_shutdown s)

  pub data Reach (s : Stack) : Stack → Type 0 where
    here : Reach s s
    next : {t u : Stack} → Reach s t → Step t u → Reach s u
