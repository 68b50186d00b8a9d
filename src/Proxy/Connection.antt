-- ===== src/Proxy/Connection.antt =====
-- `handle_client_frames` and `forward_upstream_frames` of src/proxy.rs: the two tasks of a wallet
-- connection that share the table of pending requests and the channel to the wallet. A function
-- below runs a task from the `await` at which it stands to its next one.
pub mod Steps
pub mod Invariant
pub mod Preservation
pub mod Reachable
pub mod Safety
pub mod Rounds
pub mod Panics
pub mod Measure
pub mod Supervision
pub mod Progress
pub mod Fifo
pub mod Delivery
pub mod Verbatim
pub mod Queries
pub mod Ending
mod Samples
mod Tests
mod RunTests
use electrum_private_relay.Prelude.{
  ℕ, Bool, true, false, Option, none, some, List, [], ◌∷◌, ◌++◌, Bytes, Str, if◌then◌else◌, Result,
  ok, err,
}
use electrum_private_relay.Wire.{SerdeJson, Value, UpstreamEnvelope}
use electrum_private_relay.Protocol.{
  ClientFrame, broadcast, passthrough, ProtocolError, classify, is_valid_request_id, response,
  invalid_frame_response, pending_request_limit_response, success_response, relay_error_response,
}
use electrum_private_relay.Relay.{RelayError, RelayResult, is_disabled}
use electrum_private_relay.Proxy.Pending.{
  PendingRequest, PendingRequests, Reservation, reserved, duplicate, limit_exceeded, get, remove,
  reserve_request,
}
use electrum_private_relay.Proxy.Framing.{IoErrorKind, invalid_data, other, Input, read_frame}
use electrum_private_relay.Proxy.State.{
  ConnectionLimits, TaskEnd, returned, io_error, panicked, ClientTask, writing, relaying, replying,
  rejecting, UpstreamTask, forwarding, receiving, selecting, Output, from_proxy, from_upstream,
  Connection, is_open, send, release,
}

module _ (j : SerdeJson) where
  open j use {Number, to_string, envelope_from_slice}

  unfoldable pub request_id_key : Value Number → Option Str
  request_id_key id = if is_valid_request_id j id then to_string id else none

  -- `client_output.send(frame).await; return Ok(())`
  unfoldable pub reject : Option Bytes → Connection Number → Connection Number
  reject none c = record c { client = ClientTask.finished panicked }
  reject (some frame) c = record c { client = rejecting frame }

  unfoldable pub write_upstream : Bytes → Connection Number → Connection Number
  write_upstream frame c = record c {
    client = writing frame;
    upstream_writes = c.upstream_writes ++ frame ∷ [];
  }

  unfoldable pub call_relay :
      Value Number → Option Str → Str → Connection Number → Connection Number
  call_relay id key raw c = record c {
    client = relaying id key raw;
    relay_calls = c.relay_calls ++ raw ∷ [];
  }

  -- The `match` on a reservation; `go` is what follows when it is made.
  unfoldable pub on_reservation :
      Value Number
      → (Connection Number → Connection Number)
      → Reservation × PendingRequests
      → Connection Number
      → Connection Number
  on_reservation id go (reserved, pending) c = go (record c { pending = pending })
  on_reservation id go (duplicate, pending) c =
      reject (invalid_frame_response j) (record c { pending = pending })
  on_reservation id go (limit_exceeded, pending) c =
      reject (pending_request_limit_response j id) (record c { pending = pending })

  unfoldable pub on_passthrough :
      ConnectionLimits → Bytes → Option (Value Number) → Connection Number → Connection Number
  on_passthrough limits frame none c = write_upstream frame c
  on_passthrough limits frame (some id) c = elim (request_id_key id) [
    | none ↦ record c { client = ClientTask.finished panicked }
    | some key ↦
        on_reservation id (write_upstream frame)
          (reserve_request c.pending key PendingRequest.upstream limits.max_pending_requests) c
  ]

  unfoldable pub on_broadcast :
      ConnectionLimits → Value Number → Str → Connection Number → Connection Number
  on_broadcast limits id raw c = elim (request_id_key id) [
    | none ↦ call_relay id none raw c
    | some key ↦
        on_reservation id (call_relay id (some key) raw)
          (reserve_request c.pending key PendingRequest.broadcast limits.max_pending_requests) c
  ]

  unfoldable pub on_classified :
      ConnectionLimits
      → Bytes
      → Result (ProtocolError Number) (ClientFrame Number)
      → Connection Number
      → Connection Number
  on_classified limits frame (ok (passthrough id)) c = on_passthrough limits frame id c
  on_classified limits frame (ok (broadcast id raw)) c = on_broadcast limits id raw c
  on_classified limits frame (err error) c = reject (response j error) c

  -- The arms of `match result` after `read_frame`.
  unfoldable pub on_client_read :
      ConnectionLimits
      → Result IoErrorKind (Option Bytes × Input)
      → Connection Number
      → Connection Number
  on_client_read limits (ok (none, rest)) c = record c {
    client_input = rest;
    client = ClientTask.finished returned;
  }
  on_client_read limits (ok (some frame, rest)) c =
      on_classified limits frame (classify j frame) (record c { client_input = rest })
  on_client_read limits (err invalid_data) c = reject (invalid_frame_response j) c
  on_client_read limits (err other) c = record c { client = ClientTask.finished io_error }

  -- One round of the loop of `handle_client_frames`, up to the next `await`.
  unfoldable pub client_read : ConnectionLimits → Connection Number → Connection Number
  client_read limits c = on_client_read limits (read_frame limits.max_frame_bytes c.client_input) c

  -- `wait_for_shutdown` wins the `select!`.
  unfoldable pub client_shutdown : Connection Number → Connection Number
  client_shutdown c = record c { client = ClientTask.finished returned }

  -- `upstream_writer.write_all(&frame).await?` has ended, well or not.
  unfoldable pub client_written : Bool → Connection Number → Connection Number
  client_written true c = record c { client = ClientTask.reading }
  client_written false c = record c { client = ClientTask.finished io_error }

  unfoldable pub relay_response : Value Number → RelayResult → Option Bytes
  relay_response id (ok transaction_id) = success_response j id transaction_id
  relay_response id (err error) = relay_error_response j id (is_disabled error)

  -- `relay.broadcast(&raw_transaction).await` has returned. A panic in the response comes before
  -- the removal of the key.
  unfoldable pub on_relay_response :
      Option Str → Option Bytes → Connection Number → Connection Number
  on_relay_response key none c = record c { client = ClientTask.finished panicked }
  on_relay_response key (some frame) c = record c {
    pending = release key c.pending;
    client = replying frame;
  }

  unfoldable pub relay_returned :
      Value Number → Option Str → RelayResult → Connection Number → Connection Number
  relay_returned id key result c = on_relay_response key (relay_response id result) c

  -- `client_output.send(response)` has ended; the loop goes on unless the writer is gone.
  unfoldable pub client_replied : Bytes → Connection Number → Connection Number
  client_replied frame c = record (send (from_proxy frame) c) {
    client = if is_open c.writer then ClientTask.reading else ClientTask.finished returned;
  }

  unfoldable pub client_rejected : Bytes → Connection Number → Connection Number
  client_rejected frame c = record (send (from_proxy frame) c) {
    client = ClientTask.finished returned;
  }

  unfoldable pub on_correlated :
      Bytes → Str → Option PendingRequest → Connection Number → Connection Number
  on_correlated frame key (some PendingRequest.upstream) c = record c {
    pending = remove key c.pending;
    upstream = forwarding frame;
  }
  on_correlated frame key (some PendingRequest.broadcast) c = c
  on_correlated frame key none c = c

  unfoldable pub on_response_key : Bytes → Option Str → Connection Number → Connection Number
  on_response_key frame none c = record c { upstream = UpstreamTask.finished io_error }
  on_response_key frame (some key) c = on_correlated frame key (get key c.pending) c

  -- The `match (envelope.id, envelope.method)`.
  unfoldable pub on_envelope :
      Bytes → Option (Value Number) → Option Str → Connection Number → Connection Number
  on_envelope frame (some id) none c = on_response_key frame (request_id_key id) c
  on_envelope frame none (some method) c = record c { upstream = forwarding frame }
  on_envelope frame _ _ c = record c { upstream = UpstreamTask.finished io_error }

  unfoldable pub on_upstream_frame :
      Bytes → Option (UpstreamEnvelope Number) → Connection Number → Connection Number
  on_upstream_frame frame none c = record c { upstream = UpstreamTask.finished io_error }
  on_upstream_frame frame (some envelope) c = on_envelope frame envelope.id envelope.method c

  unfoldable pub on_upstream_read :
      Result IoErrorKind (Option Bytes × Input) → Connection Number → Connection Number
  on_upstream_read (ok (none, rest)) c = record c {
    upstream_input = rest;
    upstream = UpstreamTask.finished returned;
  }
  on_upstream_read (ok (some frame, rest)) c =
      on_upstream_frame frame (envelope_from_slice frame) (record c { upstream_input = rest })
  on_upstream_read (err error) c = record c { upstream = UpstreamTask.finished io_error }

  -- One round of the loop of `forward_upstream_frames`, up to the next `await`.
  unfoldable pub upstream_read : ConnectionLimits → Connection Number → Connection Number
  upstream_read limits c = on_upstream_read (read_frame limits.max_frame_bytes c.upstream_input) c

  unfoldable pub upstream_sent : Bytes → Connection Number → Connection Number
  upstream_sent frame c = record (send (from_upstream frame) c) {
    upstream = if is_open c.writer then UpstreamTask.reading else UpstreamTask.finished returned;
  }

  -- `proxy_streams_until` at its start.
  unfoldable pub proxy_streams_until : Input → Input → Connection Number
  proxy_streams_until client upstream = record {
    client_input = client;
    upstream_input = upstream;
    pending = [];
    client = ClientTask.reading;
    upstream = UpstreamTask.reading;
    writer = receiving;
    supervisor = selecting;
    queue = [];
    upstream_writes = [];
    relay_calls = [];
    client_output = [];
    delivered = [];
  }
