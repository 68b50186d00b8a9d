-- ===== src/Proxy/Connection/Measure.antt =====
-- A number that every step of a connection lowers: what is unread, what is in the channel, and how
-- far each task still has to go.
pub mod Client
pub mod Upstream
use electrum_private_relay.Prelude.{
  List, Bytes, length, ℕ, ◌+◌, ◌*◌, ◌≤◌, ◌<◌, ◌≡◌, inl, inr, refl, ap, subst, Bool, true, false,
  Option, none, some, List, [], ◌∷◌, ◌++◌, Bytes, Str, length, length-append, Option-cases, Result,
  ok, err, Result-cases, arith,
}
use electrum_private_relay.Wire.{SerdeJson, Value, UpstreamEnvelope}
use electrum_private_relay.Protocol.{
  ClientFrame, broadcast, passthrough, ProtocolError, classify, invalid_frame_response, response,
  pending_request_limit_response,
}
use electrum_private_relay.Relay.{RelayResult}
use electrum_private_relay.Proxy.Pending.{
  PendingRequest, PendingRequests, Reservation, reserved, duplicate, limit_exceeded, get,
  reserve_request,
}
use electrum_private_relay.Proxy.Framing.{IoErrorKind, invalid_data, other, Input, read_frame}
use electrum_private_relay.Proxy.Framing.Taken.{read_frame_consumes}
use electrum_private_relay.Proxy.State.{
  ConnectionLimits, TaskEnd, ClientTask, writing, relaying, replying, rejecting, UpstreamTask,
  forwarding, Output, WriterTask, receiving, delivering, closing, Supervisor, selecting, awaiting,
  flushing, cutting_off, ended, dropped, Connection, send, abort_client, abort_upstream,
  abort_writer, FinishedTask, writer_task, upstream_task, client_task,
}
use electrum_private_relay.Proxy.Connection.{
  request_id_key, reject, write_upstream, call_relay, on_reservation, on_passthrough, on_broadcast,
  on_classified, on_client_read, client_read, relay_response, on_relay_response, relay_returned,
  on_correlated, on_response_key, on_envelope, on_upstream_frame, on_upstream_read, upstream_read,
}

abbrev pub client_rank : {N : Type 0} → ClientTask N → ℕ
client_rank ClientTask.reading = 5
client_rank (writing frame) = 6
client_rank (relaying id key raw) = 10
client_rank (replying frame) = 9
client_rank (rejecting frame) = 4
client_rank (ClientTask.finished end) = 0

abbrev pub upstream_rank : UpstreamTask → ℕ
upstream_rank UpstreamTask.reading = 1
upstream_rank (forwarding frame) = 5
upstream_rank (UpstreamTask.finished end) = 0

abbrev pub writer_rank : WriterTask → ℕ
writer_rank receiving = 2
writer_rank (delivering frame) = 3
writer_rank closing = 1
writer_rank (WriterTask.finished end) = 0

abbrev pub supervisor_rank : Supervisor → ℕ
supervisor_rank selecting = 4
supervisor_rank (awaiting task) = 3
supervisor_rank flushing = 2
supervisor_rank cutting_off = 1
supervisor_rank ended = 0
supervisor_rank dropped = 0

-- A byte that is unread may cost eight steps, and a frame in the channel three.
abbrev pub bytes_left : {N : Type 0} → Connection N → ℕ
bytes_left c = length c.client_input.unread + length c.upstream_input.unread

-- The part of the state that the writer task works on.
pub record Channel : Type 0 where
  pub writer : WriterTask
  pub supervisor : Supervisor
  pub queue : List Bytes
  pub client_output : List Output
  pub delivered : List Bytes

abbrev pub channel_of : {N : Type 0} → Connection N → Channel
channel_of c = record {
  writer = c.writer;
  supervisor = c.supervisor;
  queue = c.queue;
  client_output = c.client_output;
  delivered = c.delivered;
}

abbrev pub channel_rank : Channel → ℕ
channel_rank s = 3 * length s.queue + writer_rank s.writer + supervisor_rank s.supervisor

abbrev pub measure : {N : Type 0} → Connection N → ℕ
measure c =
    8 * bytes_left c + client_rank c.client + upstream_rank c.upstream + channel_rank (channel_of c)

-- `d` differs from `c` by what one task does: the bytes and the channel are as they were.
pub record IsClientMove {N : Type 0} (rank : ℕ) (c d : Connection N) : Type 0 where
  pub low : client_rank d.client ≤ rank
  pub bytes : bytes_left d ≡ bytes_left c
  pub upstream : d.upstream ≡ c.upstream
  pub channel : channel_of d ≡ channel_of c

pub record IsUpstreamMove {N : Type 0} (c d : Connection N) : Type 0 where
  pub low : upstream_rank d.upstream ≤ 5
  pub bytes : bytes_left d ≡ bytes_left c
  pub client : d.client ≡ c.client
  pub channel : channel_of d ≡ channel_of c

-- What a whole step of one of these tasks does.
pub record LowersClient {N : Type 0} (c d : Connection N) : Type 0 where
  pub lower : measure d < measure c
  pub upstream : d.upstream ≡ c.upstream
  pub channel : channel_of d ≡ channel_of c

pub record LowersUpstream {N : Type 0} (c d : Connection N) : Type 0 where
  pub lower : measure d < measure c
  pub client : d.client ≡ c.client
  pub channel : channel_of d ≡ channel_of c
