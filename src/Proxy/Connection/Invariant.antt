-- ===== src/Proxy/Connection/Invariant.antt =====
-- What every interleaving of a connection's tasks keeps.
use electrum_private_relay.Prelude.{
  ℕ, ◌≤◌, ◌≡◌, ◌≢◌, inl, inr, subst, Option, none, some, List, [], ◌∷◌, Bytes, Str, str_eq, length,
  All, All-append, if◌then◌else◌, ok,
}
use electrum_private_relay.Wire.{SerdeJson, Value}
use electrum_private_relay.Protocol.{
  passthrough, classify, invalid_frame_response, pending_request_limit_response,
}
use electrum_private_relay.Protocol.Payload.{IsHexPayload}
use electrum_private_relay.Proxy.Pending.{PendingRequest, PendingRequests, get, reserve_request}
use electrum_private_relay.Proxy.Pending.Laws.{
  IsWellFormed, reserve_request-IsWellFormed, reserve_request_outcomes,
}
use electrum_private_relay.Proxy.Framing.Laws.{NoNewline, line}
use electrum_private_relay.Proxy.State.{ConnectionLimits, Connection, ClientTask, relaying}
use electrum_private_relay.Proxy.Connection.{
  request_id_key, reject, write_upstream, call_relay, on_reservation,
}

-- `key` alone, if it is one, holds a broadcast in the table.
abbrev pub HoldsBroadcast : Option Str → PendingRequests → Type 0
HoldsBroadcast none p = (k : Str) → get k p ≢ some PendingRequest.broadcast
HoldsBroadcast (some key) p =
    (get key p ≡ some PendingRequest.broadcast)
    × ((k : Str) → get k p ≡ some PendingRequest.broadcast → k ≡ key)

-- One line with its newline, of at most `max` bytes.
abbrev pub IsFrame : ℕ → Bytes → Type 0
IsFrame max frame = (body : Bytes) × NoNewline body × (frame ≡ line body) × (length frame ≤ max)

module _ (j : SerdeJson) where
  -- The table holds a broadcast exactly for a client task that waits for the relay.
  abbrev pub IsSlotted : ClientTask j.Number → PendingRequests → Type 0
  IsSlotted (relaying id key raw) p = (key ≡ request_id_key j id) × HoldsBroadcast key p
  IsSlotted (ClientTask.finished end) p = Unit
  IsSlotted _ p = HoldsBroadcast none p

  -- A frame that the client may send upstream: one line, and no broadcast.
  pub record IsQueryFrame (limits : ConnectionLimits) (frame : Bytes) : Type 0 where
    pub id : Option (Value j.Number)
    pub classified : classify j frame ≡ ok (passthrough id)
    pub framed : IsFrame limits.max_frame_bytes frame

  -- What does not depend on where the tasks stand.
  pub record IsSoundState (limits : ConnectionLimits) (table : PendingRequests) (sent : List Bytes)
      (relayed : List Str) : Type 0 where
    pub pending : IsWellFormed limits.max_pending_requests table
    pub writes : All (IsQueryFrame limits) sent
    pub calls : All IsHexPayload relayed

  abbrev pub IsSound : ConnectionLimits → Connection j.Number → Type 0
  IsSound limits c = IsSoundState limits c.pending c.upstream_writes c.relay_calls

  pub record Inv (limits : ConnectionLimits) (c : Connection j.Number) : Type 0 where
    pub sound : IsSound limits c
    pub slot : IsSlotted c.client c.pending

  module _ (limits : ConnectionLimits) where
    pub reject-Inv :
        (frame : Option Bytes) (c : Connection j.Number)
        → IsSound limits c
        → HoldsBroadcast none c.pending
        → Inv limits (reject j frame c)
    unfolding reject
    reject-Inv none c s h = record { sound = s; slot = tt }
    reject-Inv (some frame) c s h = record { sound = s; slot = h }

    pub write_upstream-Inv :
        (frame : Bytes) (c : Connection j.Number)
        → IsQueryFrame limits frame
        → IsSound limits c
        → HoldsBroadcast none c.pending
        → Inv limits (write_upstream j frame c)
    unfolding write_upstream
    write_upstream-Inv frame c q s h = record {
      sound = record {
        pending = s.pending;
        writes = All-append (IsQueryFrame limits) c.upstream_writes (frame ∷ []) s.writes (q, tt);
        calls = s.calls;
      };
      slot = h;
    }

    pub call_relay-Inv :
        (id : Value j.Number) (key : Option Str) (raw : Str) (c : Connection j.Number)
        → IsHexPayload raw
        → IsSound limits c
        → key ≡ request_id_key j id
        → HoldsBroadcast key c.pending
        → Inv limits (call_relay j id key raw c)
    unfolding call_relay
    call_relay-Inv id key raw c p s e h = record {
      sound = record {
        pending = s.pending;
        writes = s.writes;
        calls = All-append IsHexPayload c.relay_calls (raw ∷ []) s.calls (p, tt);
      };
      slot = (e, h);
    }

    -- A reservation: on each outcome but the first the wallet is refused.
    pub on_reservation-Inv :
        (id : Value j.Number) (go : Connection j.Number → Connection j.Number) (key : Str)
        (request : PendingRequest) (c : Connection j.Number)
        → IsSound limits c
        → HoldsBroadcast none c.pending
        → ((q : PendingRequests)
            → IsSound limits (record c { pending = q })
            → ((k : Str) → get k q ≡ (if str_eq key k then some request else get k c.pending))
            → Inv limits (go (record c { pending = q })))
        → Inv limits (
            on_reservation j id go
              (reserve_request c.pending key request limits.max_pending_requests)
              c)
    unfolding on_reservation
    on_reservation-Inv id go key request c s h made =
        elim (reserve_request_outcomes limits.max_pending_requests c.pending key request) [
          | inl (taken, e) ↦ rw e (reject-Inv (invalid_frame_response j) c s h)
          | inr (inl (free, full, e)) ↦
              rw e (reject-Inv (pending_request_limit_response j id) c s h)
          | inr (inr (q, free, room, e, within, gets, removes)) ↦ rw e (
              made q
                (record {
                  pending =
                      subst (λ r. IsWellFormed limits.max_pending_requests r.1) e
                        (reserve_request-IsWellFormed limits.max_pending_requests c.pending key
                          request s.pending);
                  writes = s.writes;
                  calls = s.calls;
                })
                gets)
        ]
