-- ===== src/Proxy/State.antt =====
-- The state of one wallet connection of src/proxy.rs: where its tasks stand, the table and the
-- channel that they share, and what has passed through it. A task's state says at which `await` it
-- stands.
use electrum_private_relay.Prelude.{
  ℕ, Bool, true, false, Option, none, some, List, [], ◌∷◌, ◌++◌, Bytes, Str, if◌then◌else◌,
}
use electrum_private_relay.Wire.{Value}
use electrum_private_relay.Proxy.Pending.{PendingRequests, remove}
use electrum_private_relay.Proxy.Framing.{Input}

pub record ConnectionLimits : Type 0 where
  pub max_frame_bytes : ℕ
  pub max_pending_requests : ℕ

-- The capacity of the channel to the wallet.
abbrev pub output_capacity : ℕ
output_capacity = 32

-- How a task ended: `Ok(())`, `Err`, a failed `expect`, or `abort`.
pub data TaskEnd : Type 0 where
  returned io_error panicked aborted : TaskEnd

-- Where `handle_client_frames` stands: at the `select!`, in `upstream_writer.write_all`, in
-- `relay.broadcast`, in the `send` of a relay's response, or in the `send` before it returns.
pub data ClientTask (N : Type 0) : Type 0 where
  reading : ClientTask N
  writing : Bytes → ClientTask N
  relaying : Value N → Option Str → Str → ClientTask N
  replying : Bytes → ClientTask N
  rejecting : Bytes → ClientTask N
  finished : TaskEnd → ClientTask N

-- Where `forward_upstream_frames` stands: in `read_frame`, or in `client_output.send`.
pub data UpstreamTask : Type 0 where
  reading : UpstreamTask
  forwarding : Bytes → UpstreamTask
  finished : TaskEnd → UpstreamTask

-- Where `write_client_output` stands: in `output.recv`, in `writer.write_all`, or in
-- `writer.shutdown`.
pub data WriterTask : Type 0 where
  receiving : WriterTask
  delivering : Bytes → WriterTask
  closing : WriterTask
  finished : TaskEnd → WriterTask

pub data FinishedTask : Type 0 where
  writer_task upstream_task client_task : FinishedTask

-- Where `proxy_streams_until` stands: at its `select!`; at the handles of the tasks that it told to
-- abort when this one had ended; in `finish_or_abort`, before and after the abort; at its end; or
-- its future was dropped.
pub data Supervisor : Type 0 where
  selecting : Supervisor
  awaiting : FinishedTask → Supervisor
  flushing cutting_off ended dropped : Supervisor

-- A frame that was put into the channel to the wallet, with the task that sent it.
pub data Output : Type 0 where
  from_proxy from_upstream : Bytes → Output

abbrev pub frame_of : Output → Bytes
frame_of (from_proxy frame) = frame
frame_of (from_upstream frame) = frame

-- `queue` is what the channel to the wallet holds. Logs, oldest first: `upstream_writes` are the
-- frames handed to `upstream_writer.write_all`, `relay_calls` the transactions handed to
-- `relay.broadcast`, `client_output` the frames that the channel has taken, and `delivered` those
-- that were written to the wallet.
pub record Connection (N : Type 0) : Type 0 where
  pub client_input : Input
  pub upstream_input : Input
  pub pending : PendingRequests
  pub client : ClientTask N
  pub upstream : UpstreamTask
  pub writer : WriterTask
  pub supervisor : Supervisor
  pub queue : List Bytes
  pub upstream_writes : List Bytes
  pub relay_calls : List Str
  pub client_output : List Output
  pub delivered : List Bytes

-- The channel's receiver lives as long as the writer task.
abbrev pub is_open : WriterTask → Bool
is_open (WriterTask.finished end) = false
is_open _ = true

-- `client_output.send`, once the channel has room or is closed.
unfoldable pub send : {N : Type 0} → Output → Connection N → Connection N
send output c = record c {
  client_output = if is_open c.writer then c.client_output ++ output ∷ [] else c.client_output;
  queue = if is_open c.writer then c.queue ++ frame_of output ∷ [] else c.queue;
}

-- `if let Some(key) = broadcast_key { pending_requests.lock().await.remove(&key); }`
unfoldable pub release : Option Str → PendingRequests → PendingRequests
release none pending = pending
release (some key) pending = remove key pending

-- `JoinHandle::abort`: a task that has ended is left as it is.
abbrev pub abort_client : {N : Type 0} → ClientTask N → ClientTask N
abort_client (ClientTask.finished end) = ClientTask.finished end
abort_client _ = ClientTask.finished aborted

abbrev pub abort_upstream : UpstreamTask → UpstreamTask
abort_upstream (UpstreamTask.finished end) = UpstreamTask.finished end
abort_upstream _ = UpstreamTask.finished aborted

abbrev pub abort_writer : WriterTask → WriterTask
abort_writer (WriterTask.finished end) = WriterTask.finished end
abort_writer _ = WriterTask.finished aborted
