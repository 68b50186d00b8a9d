-- ===== src/Proxy/Writer.antt =====
-- `write_client_output` of src/proxy.rs, and the supervision of the three tasks of a connection by
-- `proxy_streams_until`.
use electrum_private_relay.Prelude.{Bool, true, false, [], ◌∷◌, ◌++◌, List, Bytes}
use electrum_private_relay.Proxy.State.{
  returned, io_error, WriterTask, receiving, delivering, closing, Supervisor, selecting, awaiting,
  flushing, cutting_off, ended, dropped, Connection, abort_client, abort_upstream, abort_writer,
  FinishedTask, writer_task, upstream_task, client_task,
}

module _ {N : Type 0} where
  -- `output.recv().await` has given `frame`, and `rest` is left in the channel.
  unfoldable pub writer_received : Bytes → List Bytes → Connection N → Connection N
  writer_received frame rest c = record c { queue = rest; writer = delivering frame }

  -- It has given `None`.
  unfoldable pub writer_drained : Connection N → Connection N
  writer_drained c = record c { writer = closing }

  -- `writer.write_all(&frame).await?` has ended, well or not.
  unfoldable pub writer_wrote : Bytes → Bool → Connection N → Connection N
  writer_wrote frame true c = record c { writer = receiving; delivered = c.delivered ++ frame ∷ [] }
  writer_wrote frame false c = record c { writer = WriterTask.finished io_error }

  -- `writer.shutdown().await` has ended.
  unfoldable pub writer_closed : Bool → Connection N → Connection N
  writer_closed true c = record c { writer = WriterTask.finished returned }
  writer_closed false c = record c { writer = WriterTask.finished io_error }

  -- An abort has reached the task.
  unfoldable pub abort_task : FinishedTask → Connection N → Connection N
  abort_task writer_task c = record c { writer = abort_writer c.writer }
  abort_task upstream_task c = record c { upstream = abort_upstream c.upstream }
  abort_task client_task c = record c { client = abort_client c.client }

-- The `match finished` of `proxy_streams_until`, up to its first `await`.
unfoldable pub on_finished : FinishedTask → Supervisor
on_finished task = awaiting task

-- The tasks that were told to abort have been awaited.
unfoldable pub tasks_joined : FinishedTask → Supervisor
tasks_joined writer_task = ended
tasks_joined upstream_task = flushing
tasks_joined client_task = flushing

-- `finish_or_abort`: the writer has ended in time, or is told to abort.
unfoldable pub finish_or_abort : Bool → Supervisor
finish_or_abort true = ended
finish_or_abort false = cutting_off

-- The tasks whose handles were told to `abort`: those that the `match finished` names, the writer
-- after its grace, and all three when the future of `proxy_streams_until` is dropped.
unfoldable pub told_to_abort : Supervisor → FinishedTask → Bool
told_to_abort selecting task = false
told_to_abort (awaiting writer_task) writer_task = false
told_to_abort (awaiting writer_task) upstream_task = true
told_to_abort (awaiting writer_task) client_task = true
told_to_abort (awaiting upstream_task) writer_task = false
told_to_abort (awaiting upstream_task) upstream_task = false
told_to_abort (awaiting upstream_task) client_task = true
told_to_abort (awaiting client_task) writer_task = false
told_to_abort (awaiting client_task) upstream_task = true
told_to_abort (awaiting client_task) client_task = false
told_to_abort flushing task = false
told_to_abort cutting_off writer_task = true
told_to_abort cutting_off upstream_task = false
told_to_abort cutting_off client_task = false
told_to_abort ended task = false
told_to_abort dropped task = true
