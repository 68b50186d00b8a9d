-- ===== src/Proxy/Connection/Safety.antt =====
-- What no interleaving of a connection's tasks can do: leak a broadcast, relay anything but one
-- transaction in hexadecimal, or outgrow the table of pending requests.
use electrum_private_relay.Prelude.{
  ◌≡◌, ◌≢◌, subst, none, some, List, [], ◌∷◌, Bytes, Str, All, arith,
}
use electrum_private_relay.Wire.{SerdeJson, Value, Request, UpstreamEnvelope}
use electrum_private_relay.Protocol.{broadcast_method}
use electrum_private_relay.Protocol.Payload.{IsHexPayload}
use electrum_private_relay.Protocol.Classify.{classify-passthrough_iff}
use electrum_private_relay.Proxy.Pending.{PendingRequest, get}
use electrum_private_relay.Proxy.Pending.Laws.{IsWellFormed}
use electrum_private_relay.Proxy.Framing.{Input}
use electrum_private_relay.Proxy.State.{ConnectionLimits, Connection, ClientTask, relaying}
use electrum_private_relay.Proxy.Connection.{
  request_id_key, on_correlated, on_response_key, on_envelope, on_upstream_frame,
  proxy_streams_until,
}
use electrum_private_relay.Proxy.Connection.Invariant.{IsFrame, IsSlotted, IsQueryFrame}
use electrum_private_relay.Proxy.Connection.Reachable.{Reach-Inv}
use electrum_private_relay.Proxy.Connection.Steps.{Reach}

-- A frame that the upstream may see: one line within the limit, in which serde reads a request
-- with another method than the broadcast.
pub record IsPublic (j : SerdeJson) (limits : ConnectionLimits) (frame : Bytes) : Type 0 where
  pub request : Request j.Number
  pub parsed : j.request_from_slice frame ≡ some request
  pub method : request.method ≢ broadcast_method
  pub framed : IsFrame limits.max_frame_bytes frame

IsQueryFrame-IsPublic :
    (j : SerdeJson) (limits : ConnectionLimits) (frame : Bytes)
    → IsQueryFrame j limits frame
    → IsPublic j limits frame
IsQueryFrame-IsPublic j limits frame q =
    let (request, parsed, query) = (classify-passthrough_iff j frame q.id).0 q.classified in
    record { request = request; parsed = parsed; method = query.method; framed = q.framed }

All-IsPublic :
    (j : SerdeJson) (limits : ConnectionLimits) (frames : List Bytes)
    → All (IsQueryFrame j limits) frames
    → All (IsPublic j limits) frames
All-IsPublic j limits [] h = tt
All-IsPublic j limits (frame ∷ frames) h =
    (IsQueryFrame-IsPublic j limits frame h.0, All-IsPublic j limits frames h.1)

module _ (j : SerdeJson) (limits : ConnectionLimits) (client upstream : Input)
    (c : Connection j.Number) (r : Reach j limits (proxy_streams_until j client upstream) c) where
  open j use {Number, envelope_from_slice}

  -- In every reachable state of a connection, each frame that was handed to the upstream writer is
  -- one line within the frame limit that parses as a request whose method is not the broadcast.
  pub upstream_writes-IsPublic : All (IsPublic j limits) c.upstream_writes
  upstream_writes-IsPublic =
      All-IsPublic j limits c.upstream_writes (Reach-Inv j limits client upstream r).sound.writes

  -- In every reachable state each transaction that was handed to the relay is a nonempty text of
  -- hexadecimal digits of even length.
  relay_calls-IsHexPayload : All IsHexPayload c.relay_calls
  relay_calls-IsHexPayload = (Reach-Inv j limits client upstream r).sound.calls

  -- In every reachable state the table of pending requests has distinct keys and at most
  -- `max_pending_requests` entries, and holds no broadcast while the client task reads.
  pub pending_bounds :
      IsWellFormed limits.max_pending_requests c.pending
      × (c.client ≡ ClientTask.reading
          → (key : Str) → get key c.pending ≢ some PendingRequest.broadcast)
  pending_bounds =
      let v = Reach-Inv j limits client upstream r in
      (v.sound.pending, λ at. subst (λ t. IsSlotted j t c.pending) at v.slot)

  -- While a broadcast waits for the relay, a response of the upstream under the same ID changes
  -- nothing: it is dropped, and the broadcast keeps its entry.
  pub colliding_response_dropped :
      (id other : Value Number) (raw key frame : Str) (envelope : UpstreamEnvelope Number)
      → c.client ≡ relaying id (some key) raw
      → envelope.id ≡ some other
      → envelope.method ≡ none
      → request_id_key j other ≡ some key
      → (on_upstream_frame j frame (some envelope) c ≡ c)
        × (get key c.pending ≡ some PendingRequest.broadcast)
  unfolding on_upstream_frame on_envelope on_response_key on_correlated
  colliding_response_dropped id other raw key frame envelope at has_id no_method same =
      let slot =
        subst (λ t. IsSlotted j t c.pending) at (Reach-Inv j limits client upstream r).slot in
      let held : get key c.pending ≡ some PendingRequest.broadcast = slot.1.0 in
      (ground (arith, held, has_id, no_method, same), held)
