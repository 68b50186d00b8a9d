-- ===== src/Proxy/Connection/Supervision.antt =====
-- The tasks that `proxy_streams_until` of src/proxy.rs has waited for have ended.
use electrum_private_relay.Prelude.{◌≡◌, ◌≢◌, refl, sym, ◌∙◌, ap, Bool, true, false, arith}
use electrum_private_relay.Wire.{SerdeJson}
use electrum_private_relay.Proxy.Framing.{Input}
use electrum_private_relay.Proxy.State.{
  ConnectionLimits, TaskEnd, ClientTask, UpstreamTask, WriterTask, Supervisor, selecting, awaiting,
  flushing, cutting_off, ended, dropped, FinishedTask, Connection, send, writer_task, upstream_task,
  client_task,
}
use electrum_private_relay.Proxy.Writer.{
  writer_received, writer_drained, writer_wrote, writer_closed, abort_task, on_finished,
  tasks_joined, finish_or_abort,
}
use electrum_private_relay.Proxy.Connection.{
  client_shutdown, client_written, client_replied, client_rejected, upstream_sent,
  proxy_streams_until,
}
use electrum_private_relay.Proxy.Connection.Measure.Client.{
  client_read-LowersClient, relay_returned-LowersClient,
}
use electrum_private_relay.Proxy.Connection.Measure.Upstream.{upstream_read-LowersUpstream}
use electrum_private_relay.Proxy.Connection.Steps.{
  ClientEnded, UpstreamEnded, WriterEnded, Step, client_reads, client_stops, client_writes,
  relay_answers, client_replies, client_rejects, upstream_reads, upstream_sends, writer_receives,
  writer_drains, writer_writes, writer_closes, is_aborted, turns, HasEnded, Turn, task_ends, joins,
  flush_ends, grace_ends, cut_ends, is_dropped, Reach, here, next,
}

-- The two tasks that read have been awaited.
abbrev pub has_joined : Supervisor → Bool
has_joined selecting = false
has_joined (awaiting task) = false
has_joined flushing = true
has_joined cutting_off = true
has_joined ended = true
has_joined dropped = false

module _ {N : Type 0} where
  -- What the supervisor has waited for has ended.
  pub record IsSupervised (c : Connection N) : Type 0 where
    pub awaited : (task : FinishedTask) → c.supervisor ≡ awaiting task → HasEnded c task
    pub joined : has_joined c.supervisor ≡ true → ClientEnded c × UpstreamEnded c
    pub over : c.supervisor ≡ ended → WriterEnded c

  -- A step of the wallet task, which had not ended, leaves the other tasks as they are.
  client_move :
      (c d : Connection N)
      → ((end : TaskEnd) → c.client ≢ ClientTask.finished end)
      → d.supervisor ≡ c.supervisor
      → d.upstream ≡ c.upstream
      → d.writer ≡ c.writer
      → IsSupervised c
      → IsSupervised d
  client_move c d alive s u w v = record {
    awaited = awaited;
    joined = λ h. let ((end, e), _) = v.joined (sym (ap has_joined s) ∙ h) in absurd (alive end e);
    over = λ h. let (end, e) = v.over (sym s ∙ h) in (end, w ∙ e);
  }
    where
      awaited : (task : FinishedTask) → d.supervisor ≡ awaiting task → HasEnded d task
      awaited writer_task p = let (end, e) = v.awaited writer_task (sym s ∙ p) in (end, w ∙ e)
      awaited upstream_task p = let (end, e) = v.awaited upstream_task (sym s ∙ p) in (end, u ∙ e)
      awaited client_task p =
          let (end, e) = v.awaited client_task (sym s ∙ p) in absurd (alive end e)

  upstream_move :
      (c d : Connection N)
      → ((end : TaskEnd) → c.upstream ≢ UpstreamTask.finished end)
      → d.supervisor ≡ c.supervisor
      → d.client ≡ c.client
      → d.writer ≡ c.writer
      → IsSupervised c
      → IsSupervised d
  upstream_move c d alive s cl w v = record {
    awaited = awaited;
    joined = λ h. let (_, (end, e)) = v.joined (sym (ap has_joined s) ∙ h) in absurd (alive end e);
    over = λ h. let (end, e) = v.over (sym s ∙ h) in (end, w ∙ e);
  }
    where
      awaited : (task : FinishedTask) → d.supervisor ≡ awaiting task → HasEnded d task
      awaited writer_task p = let (end, e) = v.awaited writer_task (sym s ∙ p) in (end, w ∙ e)
      awaited client_task p = let (end, e) = v.awaited client_task (sym s ∙ p) in (end, cl ∙ e)
      awaited upstream_task p =
          let (end, e) = v.awaited upstream_task (sym s ∙ p) in absurd (alive end e)

  writer_move :
      (c d : Connection N)
      → ((end : TaskEnd) → c.writer ≢ WriterTask.finished end)
      → d.supervisor ≡ c.supervisor
      → d.client ≡ c.client
      → d.upstream ≡ c.upstream
      → IsSupervised c
      → IsSupervised d
  writer_move c d alive s cl u v = record {
    awaited = awaited;
    joined = λ h.
        let ((end, e), (end1, e1)) = v.joined (sym (ap has_joined s) ∙ h) in
        ((end, cl ∙ e), (end1, u ∙ e1));
    over = λ h. let (end, e) = v.over (sym s ∙ h) in absurd (alive end e);
  }
    where
      awaited : (task : FinishedTask) → d.supervisor ≡ awaiting task → HasEnded d task
      awaited client_task p = let (end, e) = v.awaited client_task (sym s ∙ p) in (end, cl ∙ e)
      awaited upstream_task p = let (end, e) = v.awaited upstream_task (sym s ∙ p) in (end, u ∙ e)
      awaited writer_task p =
          let (end, e) = v.awaited writer_task (sym s ∙ p) in absurd (alive end e)

  -- The supervisor has waited for tasks, and then its turn comes.
  finished_only :
      (c : Connection N) (task other : FinishedTask)
      → HasEnded c task
      → Path Supervisor (awaiting task) (awaiting other)
      → HasEnded (record c { supervisor = awaiting task }) other
  finished_only c writer_task writer_task h p = h
  finished_only c upstream_task upstream_task h p = h
  finished_only c client_task client_task h p = h
  finished_only c writer_task upstream_task h p = absurd cc
  finished_only c writer_task client_task h p = absurd cc
  finished_only c upstream_task writer_task h p = absurd cc
  finished_only c upstream_task client_task h p = absurd cc
  finished_only c client_task writer_task h p = absurd cc
  finished_only c client_task upstream_task h p = absurd cc

  Turn-IsSupervised :
      (c : Connection N) {s : Supervisor}
      → Turn c s
      → IsSupervised c
      → IsSupervised (record c { supervisor = s })
  unfolding on_finished tasks_joined finish_or_abort
  Turn-IsSupervised c (task_ends task at over) v = record {
    awaited = λ other p. finished_only c task other over p;
    joined = λ h. absurd cc;
    over = λ h. absurd cc;
  }
  Turn-IsSupervised c (joins writer_task at (upstream_over, client_over)) v = record {
    awaited = λ other p. absurd cc;
    joined = λ h. (client_over, upstream_over);
    over = λ h. v.awaited writer_task at;
  }
  Turn-IsSupervised c (joins upstream_task at client_over) v = record {
    awaited = λ other p. absurd cc;
    joined = λ h. (client_over, v.awaited upstream_task at);
    over = λ h. absurd cc;
  }
  Turn-IsSupervised c (joins client_task at upstream_over) v = record {
    awaited = λ other p. absurd cc;
    joined = λ h. (v.awaited client_task at, upstream_over);
    over = λ h. absurd cc;
  }
  Turn-IsSupervised c (flush_ends at over) v = record {
    awaited = λ other p. absurd cc;
    joined = λ h. v.joined (ap has_joined at);
    over = λ h. over;
  }
  Turn-IsSupervised c (grace_ends at) v = record {
    awaited = λ other p. absurd cc;
    joined = λ h. v.joined (ap has_joined at);
    over = λ h. absurd cc;
  }
  Turn-IsSupervised c (cut_ends at over) v = record {
    awaited = λ other p. absurd cc;
    joined = λ h. v.joined (ap has_joined at);
    over = λ h. over;
  }
  Turn-IsSupervised c (is_dropped going alive) v = record {
    awaited = λ other p. absurd cc;
    joined = λ h. absurd cc;
    over = λ h. absurd cc;
  }

module _ (j : SerdeJson) (limits : ConnectionLimits) where
  open j use {Number}

  Step-IsSupervised :
      {c d : Connection Number} → Step j limits c d → IsSupervised c → IsSupervised d
  unfolding client_shutdown client_written client_replied client_rejected upstream_sent
      writer_received writer_drained writer_wrote writer_closed abort_task send
  Step-IsSupervised {c} (client_reads at) v =
      let e = client_read-LowersClient j limits c at in
      client_move c _ (λ end e. ground (arith, at, e)) (ap (λ s. s.supervisor) e.channel) e.upstream
        (ap (λ s. s.writer) e.channel) v
  Step-IsSupervised {c} (client_stops at) v =
      client_move c _ (λ end e. ground (arith, at, e)) refl refl refl v
  Step-IsSupervised {c} (client_writes frame true at) v =
      client_move c _ (λ end e. ground (arith, at, e)) refl refl refl v
  Step-IsSupervised {c} (client_writes frame false at) v =
      client_move c _ (λ end e. ground (arith, at, e)) refl refl refl v
  Step-IsSupervised {c} (relay_answers id key raw result at) v =
      let e = relay_returned-LowersClient j limits id key raw result c at in
      client_move c _ (λ end e. ground (arith, at, e)) (ap (λ s. s.supervisor) e.channel) e.upstream
        (ap (λ s. s.writer) e.channel) v
  Step-IsSupervised {c} (client_replies frame at room) v =
      client_move c _ (λ end e. ground (arith, at, e)) refl refl refl v
  Step-IsSupervised {c} (client_rejects frame at room) v =
      client_move c _ (λ end e. ground (arith, at, e)) refl refl refl v
  Step-IsSupervised {c} (upstream_reads at) v =
      let e = upstream_read-LowersUpstream j limits c at in
      upstream_move c _ (λ end e. ground (arith, at, e)) (ap (λ s. s.supervisor) e.channel) e.client
        (ap (λ s. s.writer) e.channel) v
  Step-IsSupervised {c} (upstream_sends frame at room) v =
      upstream_move c _ (λ end e. ground (arith, at, e)) refl refl refl v
  Step-IsSupervised {c} (writer_receives frame rest at queued) v =
      writer_move c _ (λ end e. ground (arith, at, e)) refl refl refl v
  Step-IsSupervised {c} (writer_drains at empty client upstream) v =
      writer_move c _ (λ end e. ground (arith, at, e)) refl refl refl v
  Step-IsSupervised {c} (writer_writes frame true at) v =
      writer_move c _ (λ end e. ground (arith, at, e)) refl refl refl v
  Step-IsSupervised {c} (writer_writes frame false at) v =
      writer_move c _ (λ end e. ground (arith, at, e)) refl refl refl v
  Step-IsSupervised {c} (writer_closes true at) v =
      writer_move c _ (λ end e. ground (arith, at, e)) refl refl refl v
  Step-IsSupervised {c} (writer_closes false at) v =
      writer_move c _ (λ end e. ground (arith, at, e)) refl refl refl v
  Step-IsSupervised {c} (is_aborted writer_task told alive) v =
      writer_move c _ (λ end e. alive (end, e)) refl refl refl v
  Step-IsSupervised {c} (is_aborted upstream_task told alive) v =
      upstream_move c _ (λ end e. alive (end, e)) refl refl refl v
  Step-IsSupervised {c} (is_aborted client_task told alive) v =
      client_move c _ (λ end e. alive (end, e)) refl refl refl v
  Step-IsSupervised {c} (turns turn) v = Turn-IsSupervised c turn v

  pub Reach-IsSupervised :
      (client upstream : Input) {c : Connection Number}
      → Reach j limits (proxy_streams_until j client upstream) c
      → IsSupervised c
  unfolding proxy_streams_until
  Reach-IsSupervised client upstream here = record {
    awaited = λ task p. absurd cc;
    joined = λ h. absurd cc;
    over = λ h. absurd cc;
  }
  Reach-IsSupervised client upstream (next r step) =
      Step-IsSupervised step (Reach-IsSupervised client upstream r)
