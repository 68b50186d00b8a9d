-- ===== src/Proxy/Connection/Ending.antt =====
-- A connection of src/proxy.rs ends: its runs are bounded, and it is stuck only when
-- `proxy_streams_until` has returned and its three tasks have ended.
use electrum_private_relay.Prelude.{
  ℕ, ◌+◌, ◌*◌, ◌≤◌, ◌<◌, ◌≢◌, inl, inr, refl, ap, Bool, true, false, [], ◌∷◌, length, length-append,
  if◌then◌else◌, Bool-cases, arith,
}
use electrum_private_relay.Wire.{SerdeJson}
use electrum_private_relay.Proxy.Framing.{Input}
use electrum_private_relay.Proxy.State.{
  ConnectionLimits, TaskEnd, ClientTask, writing, relaying, replying, rejecting, UpstreamTask,
  forwarding, WriterTask, receiving, delivering, closing, Supervisor, selecting, awaiting, flushing,
  cutting_off, ended, dropped, FinishedTask, Output, frame_of, from_proxy, from_upstream,
  Connection, is_open, send, abort_client, abort_upstream, abort_writer, writer_task, upstream_task,
  client_task,
}
use electrum_private_relay.Proxy.Writer.{
  writer_received, writer_drained, writer_wrote, writer_closed, abort_task, on_finished,
  tasks_joined, finish_or_abort,
}
use electrum_private_relay.Proxy.Connection.{
  client_shutdown, client_written, client_replied, client_rejected, upstream_sent,
  proxy_streams_until,
}
use electrum_private_relay.Proxy.Connection.Measure.{
  client_rank, upstream_rank, writer_rank, supervisor_rank, measure,
}
use electrum_private_relay.Proxy.Connection.Measure.Client.{
  client_read-LowersClient, relay_returned-LowersClient,
}
use electrum_private_relay.Proxy.Connection.Measure.Upstream.{upstream_read-LowersUpstream}
use electrum_private_relay.Proxy.Connection.Steps.{
  Step, client_reads, client_stops, client_writes, relay_answers, client_replies, client_rejects,
  upstream_reads, upstream_sends, writer_receives, writer_drains, writer_writes, writer_closes,
  is_aborted, turns, Turn, task_ends, joins, flush_ends, grace_ends, cut_ends, is_dropped, Run,
  none_yet, one_more,
}

abort_client_rank :
    {N : Type 0} (task : ClientTask N)
    → ((end : TaskEnd) → task ≢ ClientTask.finished end)
    → client_rank (abort_client task) < client_rank task
abort_client_rank ClientTask.reading h = omega arith
abort_client_rank (writing frame) h = omega arith
abort_client_rank (relaying id key raw) h = omega arith
abort_client_rank (replying frame) h = omega arith
abort_client_rank (rejecting frame) h = omega arith
abort_client_rank (ClientTask.finished end) h = absurd (h end refl)

abort_upstream_rank :
    (task : UpstreamTask)
    → ((end : TaskEnd) → task ≢ UpstreamTask.finished end)
    → upstream_rank (abort_upstream task) < upstream_rank task
abort_upstream_rank UpstreamTask.reading h = omega arith
abort_upstream_rank (forwarding frame) h = omega arith
abort_upstream_rank (UpstreamTask.finished end) h = absurd (h end refl)

abort_writer_rank :
    (task : WriterTask)
    → ((end : TaskEnd) → task ≢ WriterTask.finished end)
    → writer_rank (abort_writer task) < writer_rank task
abort_writer_rank receiving h = omega arith
abort_writer_rank (delivering frame) h = omega arith
abort_writer_rank closing h = omega arith
abort_writer_rank (WriterTask.finished end) h = absurd (h end refl)

supervisor_pos : (s : Supervisor) → s ≢ ended → s ≢ dropped → 0 < supervisor_rank s
supervisor_pos selecting h g = omega arith
supervisor_pos (awaiting task) h g = omega arith
supervisor_pos flushing h g = omega arith
supervisor_pos cutting_off h g = omega arith
supervisor_pos ended h g = absurd (h refl)
supervisor_pos dropped h g = absurd (g refl)

joined_rank : (task : FinishedTask) → supervisor_rank (tasks_joined task) < 3
unfolding tasks_joined
joined_rank writer_task = omega arith
joined_rank upstream_task = omega arith
joined_rank client_task = omega arith

Turn-rank :
    {N : Type 0} (c : Connection N) {s : Supervisor}
    → Turn c s
    → supervisor_rank s < supervisor_rank c.supervisor
unfolding on_finished finish_or_abort
Turn-rank c (task_ends task at over) = omega (arith, ap supervisor_rank at)
Turn-rank c (joins task at over) = omega (arith, ap supervisor_rank at, joined_rank task)
Turn-rank c (flush_ends at over) = omega (arith, ap supervisor_rank at)
Turn-rank c (grace_ends at) = omega (arith, ap supervisor_rank at)
Turn-rank c (cut_ends at over) = omega (arith, ap supervisor_rank at)
Turn-rank c (is_dropped going alive) = supervisor_pos c.supervisor going alive

-- A `send` adds one frame to the channel at most.
queue-send :
    {N : Type 0} (output : Output) (c : Connection N)
    → length (send output c).queue ≤ length c.queue + 1
unfolding send
queue-send output c = elim (Bool-cases (is_open c.writer)) [
  | inl e ↦ rw e (omega (arith, length-append c.queue (frame_of output ∷ [])))
  | inr e ↦ rw e (omega arith)
]

module _ (j : SerdeJson) (limits : ConnectionLimits) where
  open j use {Number}

  next_client_rank :
      (alive : Bool)
      → client_rank {N = Number}
          (if alive then ClientTask.reading else ClientTask.finished TaskEnd.returned)
        ≤ 5
  next_client_rank alive = ground arith

  next_upstream_rank :
      (alive : Bool)
      → upstream_rank
          (if alive then UpstreamTask.reading else UpstreamTask.finished TaskEnd.returned)
        ≤ 1
  next_upstream_rank alive = ground arith

  pub Step-measure : {c d : Connection Number} → Step j limits c d → measure d < measure c
  unfolding client_shutdown client_written client_replied client_rejected upstream_sent
      writer_received writer_drained writer_wrote writer_closed abort_task send
  Step-measure {c} (client_reads at) = (client_read-LowersClient j limits c at).lower
  Step-measure (client_stops at) = omega (arith, ap client_rank at)
  Step-measure (client_writes frame true at) = omega (arith, ap client_rank at)
  Step-measure (client_writes frame false at) = omega (arith, ap client_rank at)
  Step-measure {c} (relay_answers id key raw result at) =
      (relay_returned-LowersClient j limits id key raw result c at).lower
  Step-measure {c} (client_replies frame at room) = omega (
    arith,
    ap client_rank at,
    queue-send (from_proxy frame) c,
    next_client_rank (is_open c.writer),
  )
  Step-measure {c} (client_rejects frame at room) =
      omega (arith, ap client_rank at, queue-send (from_proxy frame) c)
  Step-measure {c} (upstream_reads at) = (upstream_read-LowersUpstream j limits c at).lower
  Step-measure {c} (upstream_sends frame at room) = omega (
    arith,
    ap upstream_rank at,
    queue-send (from_upstream frame) c,
    next_upstream_rank (is_open c.writer),
  )
  Step-measure (writer_receives frame rest at queued) =
      omega (arith, ap writer_rank at, ap length queued)
  Step-measure (writer_drains at empty client upstream) = omega (arith, ap writer_rank at)
  Step-measure (writer_writes frame true at) = omega (arith, ap writer_rank at)
  Step-measure (writer_writes frame false at) = omega (arith, ap writer_rank at)
  Step-measure (writer_closes true at) = omega (arith, ap writer_rank at)
  Step-measure (writer_closes false at) = omega (arith, ap writer_rank at)
  Step-measure {c} (is_aborted writer_task told alive) =
      omega (arith, abort_writer_rank c.writer (λ end e. alive (end, e)))
  Step-measure {c} (is_aborted upstream_task told alive) =
      omega (arith, abort_upstream_rank c.upstream (λ end e. alive (end, e)))
  Step-measure {c} (is_aborted client_task told alive) =
      omega (arith, abort_client_rank c.client (λ end e. alive (end, e)))
  Step-measure {c} (turns turn) = omega (arith, Turn-rank c turn)

  Run-measure :
      {start : Connection Number} {n : ℕ} {c : Connection Number}
      → Run j limits start n c
      → n + measure c ≤ measure start
  Run-measure none_yet = omega arith
  Run-measure (one_more r step) = omega (arith, Step-measure step, Run-measure r)

  -- Every run of a connection is finite: it has at most eight steps for each byte that the two peers
  -- send, and twelve more, in whatever order the tasks run and whatever the relay answers.
  pub run_is_bounded :
      (client upstream : Input) (n : ℕ) (c : Connection Number)
      → Run j limits (proxy_streams_until j client upstream) n c
      → n ≤ 8 * (length client.unread + length upstream.unread) + 12
  unfolding proxy_streams_until
  run_is_bounded client upstream n c r = omega (arith, Run-measure r)
