-- ===== src/Proxy/Connection/Queries/Bounded.antt =====
-- The upstream server of src/proxy.rs cannot answer more than it was asked.
use electrum_private_relay.Prelude.{
  ◌+◌, ◌≤◌, ◌≡◌, inl, inr, refl, ap, Bool, true, false, Option, none, some, List, [], ◌∷◌, ◌++◌,
  Bytes, Str, length, if◌then◌else◌, Bool-cases, Result, ok, err, arith,
}
use electrum_private_relay.Wire.{SerdeJson, Value, UpstreamEnvelope}
use electrum_private_relay.Proxy.Pending.{PendingRequest, get}
use electrum_private_relay.Proxy.Framing.{IoErrorKind, Input, read_frame}
use electrum_private_relay.Proxy.State.{
  ConnectionLimits, TaskEnd, UpstreamTask, forwarding, Output, from_proxy, from_upstream,
  Connection, is_open, send, abort_upstream, writer_task, upstream_task, client_task,
}
use electrum_private_relay.Proxy.Writer.{
  writer_received, writer_drained, writer_wrote, writer_closed, abort_task,
}
use electrum_private_relay.Proxy.Connection.{
  request_id_key, client_shutdown, client_written, relay_response, on_relay_response,
  relay_returned, client_replied, client_rejected, on_correlated, on_response_key, on_envelope,
  on_upstream_frame, on_upstream_read, upstream_read, upstream_sent, proxy_streams_until,
}
use electrum_private_relay.Proxy.Connection.Queries.{
  open_queries, has_answer, is_answer_envelope, one_if_answer, answers, answer_in_hand, IsBalanced,
}
use electrum_private_relay.Proxy.Connection.Queries.Table.{
  open_queries-remove-lt, open_queries-release-le, client_read-WritesQueries,
}
use electrum_private_relay.Proxy.Connection.Steps.{
  Step, client_reads, client_stops, client_writes, relay_answers, client_replies, client_rejects,
  upstream_reads, upstream_sends, writer_receives, writer_drains, writer_writes, writer_closes,
  is_aborted, turns, Reach, here, next,
}

module _ (j : SerdeJson) (limits : ConnectionLimits) where
  open j use {Number, envelope_from_slice}

  answers-append :
      (l : List Output) (output : Output)
      → answers j (l ++ output ∷ []) ≡ answers j l + answers j (output ∷ [])
  answers-append [] output = omega arith
  answers-append (from_proxy frame ∷ l) output = answers-append l output
  answers-append (from_upstream frame ∷ l) output = omega (arith, answers-append l output)

  one_if_answer-le : (frame : Bytes) → one_if_answer j frame ≤ 1
  one_if_answer-le frame = elim (Bool-cases (is_answer_envelope (envelope_from_slice frame))) [
    | inl is_one ↦ ground (arith, is_one)
    | inr is_none ↦ ground (arith, is_none)
  ]

  -- Only a query in the table lets an answer through, and it is consumed.
  on_correlated-IsBalanced :
      (frame : Bytes) (key : Str) (found : Option PendingRequest) (c : Connection Number)
      → get key c.pending ≡ found
      → c.upstream ≡ UpstreamTask.reading
      → IsBalanced j c
      → IsBalanced j (on_correlated j frame key found c)
  unfolding on_correlated
  on_correlated-IsBalanced frame key none c e at v = v
  on_correlated-IsBalanced frame key (some PendingRequest.broadcast) c e at v = v
  on_correlated-IsBalanced frame key (some PendingRequest.upstream) c e at v = omega (
    arith,
    v,
    ap (answer_in_hand j) at,
    one_if_answer-le frame,
    open_queries-remove-lt key c.pending e,
  )

  -- The upstream task has stopped, or holds a notification.
  idle-IsBalanced :
      (task : UpstreamTask) (c : Connection Number)
      → answer_in_hand j task ≡ 0
      → IsBalanced j c
      → IsBalanced j (record c { upstream = task })
  idle-IsBalanced task c h v = omega (arith, h, v)

  on_envelope-IsBalanced :
      (frame : Bytes) (id : Option (Value Number)) (method : Option Str) (c : Connection Number)
      → is_answer_envelope (envelope_from_slice frame) ≡ has_answer id method
      → c.upstream ≡ UpstreamTask.reading
      → IsBalanced j c
      → IsBalanced j (on_envelope j frame id method c)
  unfolding on_envelope
  on_envelope-IsBalanced frame (some id) none c e at v = keyed (request_id_key j id)
    where
      keyed : (key : Option Str) → IsBalanced j (on_response_key j frame key c)
      keyed none =
          unfold on_response_key in
          idle-IsBalanced (UpstreamTask.finished TaskEnd.io_error) c refl v
      keyed (some key) =
          unfold on_response_key in
          on_correlated-IsBalanced frame key (get key c.pending) c refl at v
  on_envelope-IsBalanced frame none (some method) c e at v =
      idle-IsBalanced (forwarding frame) c (ground (arith, e)) v
  on_envelope-IsBalanced frame none none c e at v =
      idle-IsBalanced (UpstreamTask.finished TaskEnd.io_error) c refl v
  on_envelope-IsBalanced frame (some id) (some method) c e at v =
      idle-IsBalanced (UpstreamTask.finished TaskEnd.io_error) c refl v

  on_upstream_frame-IsBalanced :
      (frame : Bytes) (envelope : Option (UpstreamEnvelope Number)) (c : Connection Number)
      → envelope_from_slice frame ≡ envelope
      → c.upstream ≡ UpstreamTask.reading
      → IsBalanced j c
      → IsBalanced j (on_upstream_frame j frame envelope c)
  unfolding on_upstream_frame
  on_upstream_frame-IsBalanced frame none c e at v =
      idle-IsBalanced (UpstreamTask.finished TaskEnd.io_error) c refl v
  on_upstream_frame-IsBalanced frame (some envelope) c e at v =
      on_envelope-IsBalanced frame envelope.id envelope.method c (ap is_answer_envelope e) at v

  on_upstream_read-IsBalanced :
      (r : Result IoErrorKind (Option Bytes × Input)) (c : Connection Number)
      → c.upstream ≡ UpstreamTask.reading
      → IsBalanced j c
      → IsBalanced j (on_upstream_read j r c)
  unfolding on_upstream_read
  on_upstream_read-IsBalanced (ok (none, rest)) c at v =
      idle-IsBalanced (UpstreamTask.finished TaskEnd.returned) c refl v
  on_upstream_read-IsBalanced (ok (some frame, rest)) c at v =
      on_upstream_frame-IsBalanced frame (envelope_from_slice frame)
        (record c { upstream_input = rest }) refl at v
  on_upstream_read-IsBalanced (err error) c at v =
      idle-IsBalanced (UpstreamTask.finished TaskEnd.io_error) c refl v

  -- What the channel takes, when it takes it.
  send-answers :
      (output : Output) (c : Connection Number)
      → answers j (send output c).client_output
        ≤ answers j c.client_output + answers j (output ∷ [])
  unfolding send
  send-answers output c = elim (Bool-cases (is_open c.writer)) [
    | inl open_one ↦ ground (arith, open_one, answers-append c.client_output output)
    | inr shut ↦ ground (arith, shut)
  ]

  abort_upstream-idle : (task : UpstreamTask) → answer_in_hand j (abort_upstream task) ≡ 0
  abort_upstream-idle UpstreamTask.reading = refl
  abort_upstream-idle (forwarding frame) = refl
  abort_upstream-idle (UpstreamTask.finished end) = refl

  after_send-idle :
      (alive : Bool)
      → answer_in_hand j
          (if alive then UpstreamTask.reading else UpstreamTask.finished TaskEnd.returned)
        ≡ 0
  after_send-idle true = refl
  after_send-idle false = refl

  on_relay_response-IsBalanced :
      (key : Option Str) (frame : Option Bytes) (c : Connection Number)
      → IsBalanced j c
      → IsBalanced j (on_relay_response j key frame c)
  unfolding on_relay_response
  on_relay_response-IsBalanced key none c v = v
  on_relay_response-IsBalanced key (some frame) c v =
      omega (arith, v, open_queries-release-le key c.pending)

  Step-IsBalanced : {c d : Connection Number} → Step j limits c d → IsBalanced j c → IsBalanced j d
  unfolding client_shutdown client_written relay_returned client_replied client_rejected
      upstream_read upstream_sent writer_received writer_drained writer_wrote writer_closed
      abort_task send
  Step-IsBalanced {c} (client_reads at) v =
      let m = client_read-WritesQueries j limits c in
      omega (arith, v, ap (answers j) m.output, ap (answer_in_hand j) m.upstream, m.queries)
  Step-IsBalanced (client_stops at) v = v
  Step-IsBalanced (client_writes frame true at) v = v
  Step-IsBalanced (client_writes frame false at) v = v
  Step-IsBalanced {c} (relay_answers id key raw result at) v =
      on_relay_response-IsBalanced key (relay_response j id result) c v
  Step-IsBalanced {c} (client_replies frame at room) v =
      omega (arith, v, send-answers (from_proxy frame) c)
  Step-IsBalanced {c} (client_rejects frame at room) v =
      omega (arith, v, send-answers (from_proxy frame) c)
  Step-IsBalanced {c} (upstream_reads at) v =
      on_upstream_read-IsBalanced (read_frame limits.max_frame_bytes c.upstream_input) c at v
  Step-IsBalanced {c} (upstream_sends frame at room) v = omega (
    arith,
    v,
    send-answers (from_upstream frame) c,
    ap (answer_in_hand j) at,
    after_send-idle (is_open c.writer),
  )
  Step-IsBalanced (writer_receives frame rest at queued) v = v
  Step-IsBalanced (writer_drains at empty client upstream) v = v
  Step-IsBalanced (writer_writes frame true at) v = v
  Step-IsBalanced (writer_writes frame false at) v = v
  Step-IsBalanced (writer_closes true at) v = v
  Step-IsBalanced (writer_closes false at) v = v
  Step-IsBalanced (is_aborted writer_task told alive) v = v
  Step-IsBalanced {c} (is_aborted upstream_task told alive) v =
      omega (arith, v, abort_upstream-idle c.upstream)
  Step-IsBalanced (is_aborted client_task told alive) v = v
  Step-IsBalanced (turns turn) v = v

  -- Whatever the upstream server sends, the answers that the channel to the wallet has taken from
  -- it, the answer that is about to be sent, and the queries that still wait in the table are
  -- together never more than the queries that were written to it.
  pub answers_bounded :
      (client upstream : Input) (c : Connection Number)
      → Reach j limits (proxy_streams_until j client upstream) c
      → answers j c.client_output + answer_in_hand j c.upstream + open_queries c.pending
        ≤ length c.upstream_writes
  unfolding proxy_streams_until
  answers_bounded client upstream c here = omega arith
  answers_bounded client upstream c (next r step) =
      Step-IsBalanced step (answers_bounded client upstream _ r)
