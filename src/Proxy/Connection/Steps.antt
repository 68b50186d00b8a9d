-- ===== src/Proxy/Connection/Steps.antt =====
-- The interleavings of one connection's tasks: each step runs one task from the `await` at which it
-- stands to the next. The environment chooses the order, the relay's answers, the outcome of each
-- write, and the moment of shutdown.
use electrum_private_relay.Prelude.{
  ℕ, suc, Bool, true, false, ◌≡◌, ◌≢◌, ◌<◌, ◌⊎◌, Option, List, [], ◌∷◌, Bytes, Str, length,
}
use electrum_private_relay.Wire.{SerdeJson, Value}
use electrum_private_relay.Relay.{RelayResult}
use electrum_private_relay.Proxy.State.{
  ConnectionLimits, output_capacity, TaskEnd, ClientTask, writing, relaying, replying, rejecting,
  UpstreamTask, forwarding, WriterTask, receiving, delivering, closing, Supervisor, selecting,
  awaiting, flushing, cutting_off, ended, dropped, Connection, is_open, FinishedTask, writer_task,
  upstream_task, client_task,
}
use electrum_private_relay.Proxy.Writer.{
  writer_received, writer_drained, writer_wrote, writer_closed, abort_task, on_finished,
  tasks_joined, finish_or_abort, told_to_abort,
}
use electrum_private_relay.Proxy.Connection.{
  client_read, client_shutdown, client_written, relay_returned, client_replied, client_rejected,
  upstream_read, upstream_sent,
}

module _ {N : Type 0} (c : Connection N) where
  -- A `send` goes on: the channel has room, or its receiver is gone.
  abbrev pub CanSend : Type 0
  CanSend = (length c.queue < output_capacity) ⊎ (is_open c.writer ≡ false)

  abbrev pub ClientEnded : Type 0
  ClientEnded = (end : TaskEnd) × (c.client ≡ ClientTask.finished end)

  abbrev pub UpstreamEnded : Type 0
  UpstreamEnded = (end : TaskEnd) × (c.upstream ≡ UpstreamTask.finished end)

  abbrev pub WriterEnded : Type 0
  WriterEnded = (end : TaskEnd) × (c.writer ≡ WriterTask.finished end)

  -- The task has ended.
  abbrev pub HasEnded : FinishedTask → Type 0
  HasEnded writer_task = WriterEnded
  HasEnded upstream_task = UpstreamEnded
  HasEnded client_task = ClientEnded

  -- The tasks that are awaited when this one has ended are at their ends.
  abbrev pub HasJoined : FinishedTask → Type 0
  HasJoined writer_task = UpstreamEnded × ClientEnded
  HasJoined upstream_task = ClientEnded
  HasJoined client_task = UpstreamEnded

-- `proxy_streams_until` goes on by itself.
pub data Turn {N : Type 0} (c : Connection N) : Supervisor → Type 0 where
  task_ends :
      (task : FinishedTask) → c.supervisor ≡ selecting → HasEnded c task → Turn c (on_finished task)
  joins :
      (task : FinishedTask)
      → c.supervisor ≡ awaiting task
      → HasJoined c task
      → Turn c (tasks_joined task)
  flush_ends : c.supervisor ≡ flushing → WriterEnded c → Turn c (finish_or_abort true)
  grace_ends : c.supervisor ≡ flushing → Turn c (finish_or_abort false)
  cut_ends : c.supervisor ≡ cutting_off → WriterEnded c → Turn c ended
  is_dropped : c.supervisor ≢ ended → c.supervisor ≢ dropped → Turn c dropped

pub data Step (j : SerdeJson) (limits : ConnectionLimits) (c : Connection j.Number)
    : Connection j.Number → Type 0 where
  client_reads : c.client ≡ ClientTask.reading → Step j limits c (client_read j limits c)
  client_stops : c.client ≡ ClientTask.reading → Step j limits c (client_shutdown j c)
  client_writes :
      (frame : Bytes) (good : Bool)
      → c.client ≡ writing frame
      → Step j limits c (client_written j good c)
  relay_answers :
      (id : Value j.Number) (key : Option Str) (raw : Str) (result : RelayResult)
      → c.client ≡ relaying id key raw
      → Step j limits c (relay_returned j id key result c)
  client_replies :
      (frame : Bytes)
      → c.client ≡ replying frame
      → CanSend c
      → Step j limits c (client_replied j frame c)
  client_rejects :
      (frame : Bytes)
      → c.client ≡ rejecting frame
      → CanSend c
      → Step j limits c (client_rejected j frame c)
  upstream_reads : c.upstream ≡ UpstreamTask.reading → Step j limits c (upstream_read j limits c)
  upstream_sends :
      (frame : Bytes)
      → c.upstream ≡ forwarding frame
      → CanSend c
      → Step j limits c (upstream_sent j frame c)
  writer_receives :
      (frame : Bytes) (rest : List Bytes)
      → c.writer ≡ receiving
      → c.queue ≡ frame ∷ rest
      → Step j limits c (writer_received frame rest c)
  writer_drains :
      c.writer ≡ receiving
      → c.queue ≡ []
      → ClientEnded c
      → UpstreamEnded c
      → Step j limits c (writer_drained c)
  writer_writes :
      (frame : Bytes) (good : Bool)
      → c.writer ≡ delivering frame
      → Step j limits c (writer_wrote frame good c)
  writer_closes : (good : Bool) → c.writer ≡ closing → Step j limits c (writer_closed good c)
  is_aborted :
      (task : FinishedTask)
      → told_to_abort c.supervisor task ≡ true
      → ¬ HasEnded c task
      → Step j limits c (abort_task task c)
  turns : {s : Supervisor} → Turn c s → Step j limits c (record c { supervisor = s })

pub data Reach (j : SerdeJson) (limits : ConnectionLimits) (start : Connection j.Number)
    : Connection j.Number → Type 0 where
  here : Reach j limits start start
  next :
      {c d : Connection j.Number}
      → Reach j limits start c
      → Step j limits c d
      → Reach j limits start d

-- A run of so many steps.
pub data Run (j : SerdeJson) (limits : ConnectionLimits) (start : Connection j.Number)
    : ℕ → Connection j.Number → Type 0 where
  none_yet : Run j limits start 0 start
  one_more :
      {n : ℕ} {c d : Connection j.Number}
      → Run j limits start n c
      → Step j limits c d
      → Run j limits start (suc n) d
