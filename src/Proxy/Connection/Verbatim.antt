-- ===== src/Proxy/Connection/Verbatim.antt =====
-- What src/proxy.rs writes upstream is what the wallet sent: whole frames, unchanged and in order.
pub mod Kept
pub mod Held
pub mod Answers
use electrum_private_relay.Prelude.{
  ◌≡◌, ◌⊎◌, inl, inr, refl, sym, ◌∙◌, ap, subst, true, false, Option, none, some, List, [], ◌∷◌,
  ◌++◌, All, All-append, Bytes, Str, Option-cases, Result, ok, err,
}
use mathlib.Core.List.{append-nil, append_assoc}
use electrum_private_relay.Wire.{SerdeJson, Value, UpstreamEnvelope}
use electrum_private_relay.Protocol.{
  ProtocolError, ClientFrame, passthrough, broadcast, classify, response, invalid_frame_response,
  pending_request_limit_response,
}
use electrum_private_relay.Proxy.Pending.{
  PendingRequest, PendingRequests, Reservation, reserved, duplicate, limit_exceeded, get,
}
use electrum_private_relay.Proxy.Framing.{IoErrorKind, invalid_data, other, Input, read_frame}
use electrum_private_relay.Proxy.Framing.Laws.{read_frame_sound}
use electrum_private_relay.Proxy.Framing.Taken.{read_frame_end}
use electrum_private_relay.Proxy.State.{
  ConnectionLimits, Connection, send, writer_task, upstream_task, client_task,
}
use electrum_private_relay.Proxy.Writer.{
  writer_received, writer_drained, writer_wrote, writer_closed, abort_task,
}
use electrum_private_relay.Proxy.Connection.{
  request_id_key, reject, write_upstream, call_relay, on_reservation, on_passthrough, on_broadcast,
  on_classified, on_client_read, client_read, client_shutdown, client_written, relay_response,
  on_relay_response, relay_returned, client_replied, client_rejected, on_correlated,
  on_response_key, on_envelope, on_upstream_frame, on_upstream_read, upstream_read, upstream_sent,
  proxy_streams_until,
}
use electrum_private_relay.Proxy.Connection.Invariant.{IsFrame}
use electrum_private_relay.Proxy.Connection.Steps.{
  Step, client_reads, client_stops, client_writes, relay_answers, client_replies, client_rejects,
  upstream_reads, upstream_sends, writer_receives, writer_drains, writer_writes, writer_closes,
  is_aborted, turns, Reach, here, next,
}

-- Some of the frames, in their order; both lists grow at their end.
pub data IsSubsequence : List Bytes → List Bytes → Type 0 where
  nothing : IsSubsequence [] []
  keeps :
      {some all : List Bytes} (frame : Bytes)
      → IsSubsequence some all
      → IsSubsequence (some ++ frame ∷ []) (all ++ frame ∷ [])
  skips :
      {some all : List Bytes} (frame : Bytes)
      → IsSubsequence some all
      → IsSubsequence some (all ++ frame ∷ [])

abbrev pub concat : List Bytes → Bytes
concat [] = []
concat (frame ∷ frames) = frame ++ concat frames

pub concat-append : (l : List Bytes) (frame : Bytes) → concat (l ++ frame ∷ []) ≡ concat l ++ frame
concat-append [] frame = append-nil frame
concat-append (x ∷ l) frame =
    ap (λ t. x ++ t) (concat-append l frame) ∙ sym (append_assoc x (concat l) frame)

module _ (j : SerdeJson) (limits : ConnectionLimits) where
  open j use {Number, envelope_from_slice}

  -- The frame that was read is written, or nothing is.
  pub record MayWrite (frame : Bytes) (c d : Connection Number) : Type 0 where
    pub input : d.client_input ≡ c.client_input
    pub writes :
        (d.upstream_writes ≡ c.upstream_writes ++ frame ∷ [])
        ⊎ (d.upstream_writes ≡ c.upstream_writes)

  reject-MayWrite :
      (frame : Bytes) (answer : Option Bytes) (c : Connection Number)
      → MayWrite frame c (reject j answer c)
  unfolding reject
  reject-MayWrite frame none c = record { input = refl; writes = inr refl }
  reject-MayWrite frame (some answer) c = record { input = refl; writes = inr refl }

  write_upstream-MayWrite :
      (frame : Bytes) (q : PendingRequests) (c : Connection Number)
      → MayWrite frame c (write_upstream j frame (record c { pending = q }))
  unfolding write_upstream
  write_upstream-MayWrite frame q c = record { input = refl; writes = inl refl }

  call_relay-MayWrite :
      (frame : Bytes) (id : Value Number) (key : Option Str) (raw : Str) (q : PendingRequests)
      (c : Connection Number)
      → MayWrite frame c (call_relay j id key raw (record c { pending = q }))
  unfolding call_relay
  call_relay-MayWrite frame id key raw q c = record { input = refl; writes = inr refl }

  on_reservation-MayWrite :
      (frame : Bytes) (id : Value Number) (go : Connection Number → Connection Number)
      (r : Reservation × PendingRequests) (c : Connection Number)
      → ((q : PendingRequests) → MayWrite frame c (go (record c { pending = q })))
      → MayWrite frame c (on_reservation j id go r c)
  unfolding on_reservation
  on_reservation-MayWrite frame id go (reserved, q) c h = h q
  on_reservation-MayWrite frame id go (duplicate, q) c h =
      let m = reject-MayWrite frame (invalid_frame_response j) (record c { pending = q }) in
      record { input = m.input; writes = m.writes }
  on_reservation-MayWrite frame id go (limit_exceeded, q) c h =
      let m =
        reject-MayWrite frame (pending_request_limit_response j id) (record c { pending = q }) in
      record { input = m.input; writes = m.writes }

  pub on_classified-MayWrite :
      (frame : Bytes) (r : Result (ProtocolError Number) (ClientFrame Number))
      (c : Connection Number)
      → MayWrite frame c (on_classified j limits frame r c)
  unfolding on_classified on_passthrough on_broadcast
  on_classified-MayWrite frame (ok (passthrough none)) c = write_upstream-MayWrite frame c.pending c
  on_classified-MayWrite frame (ok (passthrough (some id))) c =
      elim (Option-cases (request_id_key j id)) [
        | inl e ↦ rw (e, on_passthrough) (record { input = refl; writes = inr refl })
        | inr (key, e) ↦
            rw (e, on_passthrough)
              (on_reservation-MayWrite frame id (write_upstream j frame) _ c
                (λ q. write_upstream-MayWrite frame q c))
      ]
  on_classified-MayWrite frame (ok (broadcast id raw)) c =
      elim (Option-cases (request_id_key j id)) [
        | inl e ↦ rw (e, on_broadcast) (call_relay-MayWrite frame id none raw c.pending c)
        | inr (key, e) ↦
            rw (e, on_broadcast)
              (on_reservation-MayWrite frame id (call_relay j id (some key) raw) _ c
                (λ q. call_relay-MayWrite frame id (some key) raw q c))
      ]
  on_classified-MayWrite frame (err error) c = reject-MayWrite frame (response j error) c
