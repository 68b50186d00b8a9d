-- ===== src/Proxy/Connection/Preservation.antt =====
-- Each handler of a connection keeps the invariant, and so does every interleaving.
use electrum_private_relay.Prelude.{
  ◌≡◌, inl, inr, refl, sym, subst, ap, Option, none, some, Bytes, Str, str_eq, str_eq_iff,
  str_eq_refl, if◌then◌else◌, Option-cases, Bool-cases, Result, ok, err, arith,
}
use electrum_private_relay.Wire.{SerdeJson, Value}
use electrum_private_relay.Protocol.{
  ClientFrame, broadcast, passthrough, ProtocolError, classify, invalid_frame_response, response,
}
use electrum_private_relay.Protocol.Payload.{IsHexPayload}
use electrum_private_relay.Protocol.Classify.{classify-broadcast_iff}
use electrum_private_relay.Proxy.Pending.{PendingRequest, PendingRequests, get, remove}
use electrum_private_relay.Proxy.Pending.Laws.{get-remove}
use electrum_private_relay.Proxy.Framing.{IoErrorKind, invalid_data, other, Input, read_frame}
use electrum_private_relay.Proxy.Framing.Laws.{read_frame_sound}
use electrum_private_relay.Proxy.State.{
  ConnectionLimits, Connection, ClientTask, writing, relaying, replying, rejecting, release,
}
use electrum_private_relay.Proxy.Connection.{
  request_id_key, write_upstream, call_relay, on_passthrough, on_broadcast, on_classified,
  on_client_read, client_read,
}
use electrum_private_relay.Proxy.Connection.Invariant.{
  HoldsBroadcast, IsFrame, IsSlotted, IsQueryFrame, IsSound, Inv, reject-Inv, write_upstream-Inv,
  call_relay-Inv, on_reservation-Inv,
}

HoldsBroadcast-insert_upstream :
    (key : Str) (p q : PendingRequests)
    → ((k : Str) → get k q ≡ (if str_eq key k then some PendingRequest.upstream else get k p))
    → HoldsBroadcast none p
    → HoldsBroadcast none q
HoldsBroadcast-insert_upstream key p q gets h k e = ground (arith, gets k, h k)

HoldsBroadcast-insert_broadcast :
    (key : Str) (p q : PendingRequests)
    → ((k : Str) → get k q ≡ (if str_eq key k then some PendingRequest.broadcast else get k p))
    → HoldsBroadcast none p
    → HoldsBroadcast (some key) q
HoldsBroadcast-insert_broadcast key p q gets h = (
  ground (arith, gets key, str_eq_refl key),
  λ k e. elim (Bool-cases (str_eq key k)) [
    | inl same ↦ sym ((str_eq_iff key k).0 same)
    | inr differ ↦ absurd (ground (arith, gets k, h k))
  ],
)

-- The broadcast's slot is gone once its key is released.
pub HoldsBroadcast-release :
    (key : Option Str) (p : PendingRequests)
    → HoldsBroadcast key p
    → HoldsBroadcast none (release key p)
unfolding release
HoldsBroadcast-release none p h = λ k e. h k e
HoldsBroadcast-release (some key) p h =
    λ k e. ground (arith, get-remove k key p, h.1 k, str_eq_iff key k)

-- Releasing another request's key leaves the broadcast's slot.
HoldsBroadcast-remove :
    (slot : Option Str) (key : Str) (p : PendingRequests)
    → get key p ≡ some PendingRequest.upstream
    → HoldsBroadcast slot p
    → HoldsBroadcast slot (remove key p)
HoldsBroadcast-remove none key p e h = λ k q. ground (arith, get-remove k key p, h k)
HoldsBroadcast-remove (some s) key p e h = (
  ground (arith, get-remove s key p, h.0, str_eq_iff key s, λ (q : key ≡ s). ap (λ k. get k p) q),
  λ k q. h.1 k (ground (arith, get-remove k key p)),
)

module _ (j : SerdeJson) (limits : ConnectionLimits) where
  open j use {Number, envelope_from_slice}

  pub IsSlotted-remove :
      (task : ClientTask Number) (key : Str) (p : PendingRequests)
      → get key p ≡ some PendingRequest.upstream
      → IsSlotted j task p
      → IsSlotted j task (remove key p)
  IsSlotted-remove ClientTask.reading key p e h = HoldsBroadcast-remove none key p e h
  IsSlotted-remove (writing frame) key p e h = HoldsBroadcast-remove none key p e h
  IsSlotted-remove (relaying id slot raw) key p e h = (h.0, HoldsBroadcast-remove slot key p e h.1)
  IsSlotted-remove (replying frame) key p e h = HoldsBroadcast-remove none key p e h
  IsSlotted-remove (rejecting frame) key p e h = HoldsBroadcast-remove none key p e h
  IsSlotted-remove (ClientTask.finished end) key p e h = tt

  on_passthrough-Inv :
      (frame : Bytes) (id : Option (Value Number)) (c : Connection Number)
      → IsQueryFrame j limits frame
      → IsSound j limits c
      → HoldsBroadcast none c.pending
      → Inv j limits (on_passthrough j limits frame id c)
  unfolding on_passthrough
  on_passthrough-Inv frame none c q s h = write_upstream-Inv j limits frame c q s h
  on_passthrough-Inv frame (some id) c q s h = elim (Option-cases (request_id_key j id)) [
    | inl e ↦ rw (e, on_passthrough) (record { sound = s; slot = tt })
    | inr (key, e) ↦
        rw (e, on_passthrough)
          (on_reservation-Inv j limits id (write_upstream j frame) key PendingRequest.upstream c s h
            λ p s' gets.
              write_upstream-Inv j limits frame (record c { pending = p }) q s'
                (HoldsBroadcast-insert_upstream key c.pending p gets h))
  ]

  on_broadcast-Inv :
      (id : Value Number) (raw : Str) (c : Connection Number)
      → IsHexPayload raw
      → IsSound j limits c
      → HoldsBroadcast none c.pending
      → Inv j limits (on_broadcast j limits id raw c)
  unfolding on_broadcast
  on_broadcast-Inv id raw c p s h = elim (Option-cases (request_id_key j id)) [
    | inl e ↦ rw (e, on_broadcast) (call_relay-Inv j limits id none raw c p s (sym e) h)
    | inr (key, e) ↦
        rw (e, on_broadcast)
          (on_reservation-Inv j limits id (call_relay j id (some key) raw) key
            PendingRequest.broadcast c s h
            λ q s' gets.
              call_relay-Inv j limits id (some key) raw (record c { pending = q }) p s' (sym e)
                (HoldsBroadcast-insert_broadcast key c.pending q gets h))
  ]

  on_classified-Inv :
      (frame : Bytes) (r : Result (ProtocolError Number) (ClientFrame Number))
      (c : Connection Number)
      → classify j frame ≡ r
      → IsFrame limits.max_frame_bytes frame
      → IsSound j limits c
      → HoldsBroadcast none c.pending
      → Inv j limits (on_classified j limits frame r c)
  unfolding on_classified
  on_classified-Inv frame (ok (passthrough id)) c e f s h =
      on_passthrough-Inv frame id c (record { id = id; classified = e; framed = f }) s h
  on_classified-Inv frame (ok (broadcast id raw)) c e f s h =
      on_broadcast-Inv id raw c ((classify-broadcast_iff j frame id raw).0 e).2.payload s h
  on_classified-Inv frame (err error) c e f s h = reject-Inv j limits (response j error) c s h

  -- The client task's rounds.
  pub client_read-Inv :
      (c : Connection Number)
      → c.client ≡ ClientTask.reading
      → Inv j limits c
      → Inv j limits (client_read j limits c)
  unfolding client_read on_client_read
  client_read-Inv c at v = go (read_frame limits.max_frame_bytes c.client_input) refl
    where
      s : IsSound j limits c
      s = v.sound

      h : HoldsBroadcast none c.pending
      h = subst (λ t. IsSlotted j t c.pending) at v.slot

      go :
          (r : Result IoErrorKind (Option Bytes × Input))
          → read_frame limits.max_frame_bytes c.client_input ≡ r
          → Inv j limits (on_client_read j limits r c)
      go (ok (none, rest)) e = record { sound = s; slot = tt }
      go (ok (some frame, rest)) e =
          let (body, plain, same, fits, split, ending) =
            read_frame_sound limits.max_frame_bytes c.client_input rest frame e in
          on_classified-Inv frame (classify j frame) (record c { client_input = rest }) refl
            (body, plain, same, fits) s h
      go (err invalid_data) e = reject-Inv j limits (invalid_frame_response j) c s h
      go (err other) e = record { sound = s; slot = tt }
