-- ===== src/Proxy/Connection/Panics.antt =====
-- The `expect`s of src/proxy.rs and src/protocol.rs never fail in a connection.
use electrum_private_relay.Prelude.{
  ◌≡◌, ◌≢◌, inl, inr, subst, sym, ◌∙◌, refl, Bool, true, false, Option, none, some, Bytes, Str,
  Option-cases, Result, ok, err, arith,
}
use electrum_private_relay.Wire.{SerdeJson, Value, UpstreamEnvelope}
use electrum_private_relay.Protocol.{
  ClientFrame, broadcast, passthrough, ProtocolError, classify, is_valid_request_id,
  encode_response, response, invalid_frame_response, pending_request_limit_response,
  success_response, relay_error_response,
}
use electrum_private_relay.Protocol.Classify.{
  IsCorrelatable, AllCorrelatable, is_valid_request_id_iff, classify-passthrough_iff,
}
use electrum_private_relay.Relay.{RelayResult, is_disabled, disabled_kind, failed_kind}
use electrum_private_relay.Proxy.Pending.{
  PendingRequest, PendingRequests, Reservation, reserved, duplicate, limit_exceeded, get,
}
use electrum_private_relay.Proxy.Framing.{IoErrorKind, invalid_data, other, Input}
use electrum_private_relay.Proxy.State.{
  ConnectionLimits, Connection, panicked, ClientTask, writing, relaying, replying, rejecting,
  abort_client, send, writer_task, upstream_task, client_task, FinishedTask,
}
use electrum_private_relay.Proxy.Writer.{
  abort_task, writer_received, writer_drained, writer_wrote, writer_closed,
}
use electrum_private_relay.Proxy.Connection.{
  request_id_key, reject, write_upstream, call_relay, on_reservation, on_passthrough, on_broadcast,
  on_classified, on_client_read, client_read, client_shutdown, client_written, relay_response,
  on_relay_response, relay_returned, client_replied, client_rejected, on_correlated,
  on_response_key, on_envelope, on_upstream_frame, on_upstream_read, upstream_read, upstream_sent,
  proxy_streams_until,
}
use electrum_private_relay.Proxy.Connection.Steps.{
  Step, client_reads, client_stops, client_writes, relay_answers, client_replies, client_rejects,
  upstream_reads, upstream_sends, writer_receives, writer_drains, writer_writes, writer_closes,
  is_aborted, turns, Reach, here, next,
}

abbrev pub IsSafe : {N : Type 0} → Connection N → Type 0
IsSafe c = c.client ≢ ClientTask.finished panicked

-- serde_json prints every value that the program builds: its maps have texts for keys.
pub record PrintsAll (j : SerdeJson) : Type 0 where
  pub to_vec : (value : Value j.Number) → j.to_vec value ≢ none
  pub to_string : (value : Value j.Number) → j.to_string value ≢ none

aborted_safe :
    {N : Type 0} (task : ClientTask N)
    → task ≢ ClientTask.finished panicked
    → abort_client task ≢ ClientTask.finished panicked
aborted_safe (ClientTask.finished end) h = h
aborted_safe ClientTask.reading h = λ q. absurd cc
aborted_safe (writing frame) h = λ q. absurd cc
aborted_safe (relaying id key raw) h = λ q. absurd cc
aborted_safe (replying frame) h = λ q. absurd cc
aborted_safe (rejecting frame) h = λ q. absurd cc

module _ (j : SerdeJson) (limits : ConnectionLimits) (prints : PrintsAll j) where
  open j use {Number}

  encode_response-ne-none : (value : Value Number) → encode_response j value ≢ none
  unfolding encode_response
  encode_response-ne-none value h = ground (arith, prints.to_vec value)

  reject-IsSafe :
      (frame : Option Bytes) (c : Connection Number) → frame ≢ none → IsSafe (reject j frame c)
  unfolding reject
  reject-IsSafe none c h q = h refl
  reject-IsSafe (some frame) c h q = absurd cc

  invalid_frame-IsSafe : (c : Connection Number) → IsSafe (reject j (invalid_frame_response j) c)
  unfolding invalid_frame_response response
  invalid_frame-IsSafe c = reject-IsSafe _ c (encode_response-ne-none _)

  on_reservation-IsSafe :
      (id : Value Number) (go : Connection Number → Connection Number)
      (r : Reservation × PendingRequests) (c : Connection Number)
      → ((d : Connection Number) → IsSafe (go d))
      → IsSafe (on_reservation j id go r c)
  unfolding on_reservation pending_request_limit_response
  on_reservation-IsSafe id go (reserved, p) c h = h _
  on_reservation-IsSafe id go (duplicate, p) c h = invalid_frame-IsSafe _
  on_reservation-IsSafe id go (limit_exceeded, p) c h =
      reject-IsSafe _ _ (encode_response-ne-none _)

  write_upstream-IsSafe :
      (frame : Bytes) (c : Connection Number) → IsSafe (write_upstream j frame c)
  unfolding write_upstream
  write_upstream-IsSafe frame c q = absurd cc

  call_relay-IsSafe :
      (id : Value Number) (key : Option Str) (raw : Str) (c : Connection Number)
      → IsSafe (call_relay j id key raw c)
  unfolding call_relay
  call_relay-IsSafe id key raw c q = absurd cc

  request_id_key-ne-none :
      (id : Value Number) → is_valid_request_id j id ≡ true → request_id_key j id ≢ none
  unfolding request_id_key
  request_id_key-ne-none id valid h = ground (arith, prints.to_string id)

  on_passthrough-IsSafe :
      (frame : Bytes) (id : Option (Value Number)) (c : Connection Number)
      → ((v : Value Number) → id ≡ some v → request_id_key j v ≢ none)
      → IsSafe (on_passthrough j limits frame id c)
  unfolding on_passthrough
  on_passthrough-IsSafe frame none c h = write_upstream-IsSafe frame c
  on_passthrough-IsSafe frame (some id) c h = elim (Option-cases (request_id_key j id)) [
    | inl q ↦ absurd (h id refl q)
    | inr (key, q) ↦
        rw (q, on_passthrough) (on_reservation-IsSafe id _ _ c (write_upstream-IsSafe frame))
  ]

  on_broadcast-IsSafe :
      (id : Value Number) (raw : Str) (c : Connection Number)
      → IsSafe (on_broadcast j limits id raw c)
  unfolding on_broadcast
  on_broadcast-IsSafe id raw c = elim (Option-cases (request_id_key j id)) [
    | inl q ↦ rw (q, on_broadcast) (call_relay-IsSafe id none raw c)
    | inr (key, q) ↦
        rw (q, on_broadcast) (on_reservation-IsSafe id _ _ c (call_relay-IsSafe id (some key) raw))
  ]

  on_classified-IsSafe :
      (frame : Bytes) (r : Result (ProtocolError Number) (ClientFrame Number))
      (c : Connection Number)
      → classify j frame ≡ r
      → IsSafe (on_classified j limits frame r c)
  unfolding on_classified response
  on_classified-IsSafe frame (ok (passthrough id)) c e =
      let (request, _, query) = (classify-passthrough_iff j frame id).0 e in
      on_passthrough-IsSafe frame id c (λ v q.
        request_id_key-ne-none v
          ((is_valid_request_id_iff j v).1 (correlatable id v q query.correlatable)))
    where
      correlatable :
          (id : Option (Value Number)) (v : Value Number)
          → id ≡ some v
          → AllCorrelatable j id
          → IsCorrelatable j v
      correlatable none v q h = absurd cc
      correlatable (some w) v q h = subst (IsCorrelatable j) (ground arith) h
  on_classified-IsSafe frame (ok (broadcast id raw)) c e = on_broadcast-IsSafe id raw c
  on_classified-IsSafe frame (err error) c e = reject-IsSafe _ c (encode_response-ne-none _)

  on_client_read-IsSafe :
      (r : Result IoErrorKind (Option Bytes × Input)) (c : Connection Number)
      → IsSafe (on_client_read j limits r c)
  unfolding on_client_read
  on_client_read-IsSafe (ok (none, rest)) c = λ q. absurd cc
  on_client_read-IsSafe (ok (some frame, rest)) c = on_classified-IsSafe frame _ _ refl
  on_client_read-IsSafe (err invalid_data) c = invalid_frame-IsSafe c
  on_client_read-IsSafe (err other) c = λ q. absurd cc

  relay_returned-IsSafe :
      (id : Value Number) (key : Option Str) (result : RelayResult) (c : Connection Number)
      → IsSafe (relay_returned j id key result c)
  unfolding relay_returned on_relay_response relay_response success_response relay_error_response
  relay_returned-IsSafe id key result c = answered (relay_response j id result) (printed result)
    where
      printed : (result : RelayResult) → relay_response j id result ≢ none
      printed (ok id') = encode_response-ne-none _
      printed (err e) =
          elim e.kind
            as (λ k. relay_error_response j id (is_disabled (record { kind = k })) ≢ none) [
              | disabled_kind ↦ encode_response-ne-none _
              | failed_kind ↦ encode_response-ne-none _
            ]

      answered : (o : Option Bytes) → o ≢ none → IsSafe (on_relay_response j key o c)
      answered none h = absurd (h refl)
      answered (some frame) h = λ q. absurd cc

  abort_task-IsSafe :
      (task : FinishedTask) (c : Connection Number) → IsSafe c → IsSafe (abort_task task c)
  unfolding abort_task
  abort_task-IsSafe writer_task c h = h
  abort_task-IsSafe upstream_task c h = h
  abort_task-IsSafe client_task c h = aborted_safe c.client h

  on_response_key-client :
      (frame : Bytes) (key : Option Str) (c : Connection Number)
      → (on_response_key j frame key c).client ≡ c.client
  unfolding on_response_key
  on_response_key-client frame none c = refl
  on_response_key-client frame (some key) c = correlated (get key c.pending)
    where
      correlated :
          (found : Option PendingRequest) → (on_correlated j frame key found c).client ≡ c.client
      correlated none = unfold on_correlated in refl
      correlated (some PendingRequest.upstream) = unfold on_correlated in refl
      correlated (some PendingRequest.broadcast) = unfold on_correlated in refl

  on_envelope-client :
      (frame : Bytes) (id : Option (Value Number)) (method : Option Str) (c : Connection Number)
      → (on_envelope j frame id method c).client ≡ c.client
  unfolding on_envelope
  on_envelope-client frame (some id) none c = on_response_key-client frame (request_id_key j id) c
  on_envelope-client frame none (some method) c = refl
  on_envelope-client frame none none c = refl
  on_envelope-client frame (some id) (some method) c = refl

  on_upstream_frame-client :
      (frame : Bytes) (envelope : Option (UpstreamEnvelope Number)) (c : Connection Number)
      → (on_upstream_frame j frame envelope c).client ≡ c.client
  unfolding on_upstream_frame
  on_upstream_frame-client frame none c = refl
  on_upstream_frame-client frame (some e) c = on_envelope-client frame e.id e.method c

  on_upstream_read-client :
      (r : Result IoErrorKind (Option Bytes × Input)) (c : Connection Number)
      → (on_upstream_read j r c).client ≡ c.client
  unfolding on_upstream_read
  on_upstream_read-client (ok (none, rest)) c = refl
  on_upstream_read-client (ok (some frame, rest)) c = on_upstream_frame-client frame _ _
  on_upstream_read-client (err e) c = refl

  Step-IsSafe : {c d : Connection Number} → Step j limits c d → IsSafe c → IsSafe d
  unfolding client_read client_shutdown client_replied client_rejected upstream_read upstream_sent
      send writer_received writer_drained writer_wrote writer_closed
  Step-IsSafe {c} (client_reads at) h = on_client_read-IsSafe _ c
  Step-IsSafe {c} (client_stops at) h = λ q. absurd cc
  Step-IsSafe {c} (client_writes frame good at) h = written good
    where
      written : (good : Bool) → IsSafe (client_written j good c)
      written true = unfold client_written in λ q. absurd cc
      written false = unfold client_written in λ q. absurd cc
  Step-IsSafe {c} (relay_answers id key raw result at) h = relay_returned-IsSafe id key result c
  Step-IsSafe {c} (client_replies frame at room) h = λ q. ground arith
  Step-IsSafe {c} (client_rejects frame at room) h = λ q. absurd cc
  Step-IsSafe {c} (upstream_reads at) h = λ q. h (sym (on_upstream_read-client _ c) ∙ q)
  Step-IsSafe {c} (upstream_sends frame at room) h = h
  Step-IsSafe {c} (writer_receives frame rest at queued) h = h
  Step-IsSafe {c} (writer_drains at empty client upstream) h = h
  Step-IsSafe {c} (writer_writes frame true at) h = h
  Step-IsSafe {c} (writer_writes frame false at) h = h
  Step-IsSafe {c} (writer_closes true at) h = h
  Step-IsSafe {c} (writer_closes false at) h = h
  Step-IsSafe {c} (is_aborted task told alive) h = abort_task-IsSafe task c h
  Step-IsSafe {c} (turns turn) h = h

  -- If serde_json prints every value, no `expect` on a response or on a key fails: whatever the
  -- wallet, the upstream and the relay send, and in whatever order the tasks run, the task that
  -- reads the wallet never panics.
  pub client_never_panics :
      (client upstream : Input) (c : Connection Number)
      → Reach j limits (proxy_streams_until j client upstream) c
      → c.client ≢ ClientTask.finished panicked
  unfolding proxy_streams_until
  client_never_panics client upstream c here = λ q. absurd cc
  client_never_panics client upstream c (next r step) =
      Step-IsSafe step (client_never_panics client upstream _ r)
