-- ===== src/Proxy/Connection/Measure/Client.antt =====
-- What the client task's reads and the relay's answers do to the measure of a connection.
use electrum_private_relay.Prelude.{
  ◌≡◌, inl, inr, refl, ap, Option, none, some, Bytes, Str, Option-cases, Result, ok, err, arith,
}
use electrum_private_relay.Wire.{SerdeJson, Value}
use electrum_private_relay.Protocol.{
  ClientFrame, broadcast, passthrough, ProtocolError, classify, invalid_frame_response, response,
  pending_request_limit_response,
}
use electrum_private_relay.Relay.{RelayResult}
use electrum_private_relay.Proxy.Pending.{
  PendingRequests, Reservation, reserved, duplicate, limit_exceeded,
}
use electrum_private_relay.Proxy.Framing.{IoErrorKind, invalid_data, other, Input, read_frame}
use electrum_private_relay.Proxy.Framing.Taken.{read_frame_consumes}
use electrum_private_relay.Proxy.State.{ConnectionLimits, ClientTask, relaying, Connection}
use electrum_private_relay.Proxy.Connection.{
  request_id_key, reject, write_upstream, call_relay, on_reservation, on_passthrough, on_broadcast,
  on_classified, on_client_read, client_read, relay_response, on_relay_response, relay_returned,
}
use electrum_private_relay.Proxy.Connection.Measure.{
  LowersClient, channel_rank, client_rank, upstream_rank, IsClientMove,
}

module _ (j : SerdeJson) (limits : ConnectionLimits) where
  open j use {Number}

  reject-IsClientMove :
      (frame : Option Bytes) (c : Connection Number) → IsClientMove 4 c (reject j frame c)
  unfolding reject
  reject-IsClientMove none c = record {
    low = omega arith;
    bytes = refl;
    upstream = refl;
    channel = refl;
  }
  reject-IsClientMove (some frame) c = record {
    low = omega arith;
    bytes = refl;
    upstream = refl;
    channel = refl;
  }

  raise : {c d : Connection Number} → IsClientMove 4 c d → IsClientMove 10 c d
  raise m = record {
    low = omega (arith, m.low);
    bytes = m.bytes;
    upstream = m.upstream;
    channel = m.channel;
  }

  write_upstream-IsClientMove :
      (frame : Bytes) (c : Connection Number) → IsClientMove 10 c (write_upstream j frame c)
  unfolding write_upstream
  write_upstream-IsClientMove frame c = record {
    low = omega arith;
    bytes = refl;
    upstream = refl;
    channel = refl;
  }

  call_relay-IsClientMove :
      (id : Value Number) (key : Option Str) (raw : Str) (c : Connection Number)
      → IsClientMove 10 c (call_relay j id key raw c)
  unfolding call_relay
  call_relay-IsClientMove id key raw c = record {
    low = omega arith;
    bytes = refl;
    upstream = refl;
    channel = refl;
  }

  on_reservation-IsClientMove :
      (id : Value Number) (go : Connection Number → Connection Number)
      (r : Reservation × PendingRequests) (c : Connection Number)
      → ((d : Connection Number) → IsClientMove 10 d (go d))
      → IsClientMove 10 c (on_reservation j id go r c)
  unfolding on_reservation
  on_reservation-IsClientMove id go (reserved, p) c h =
      let m = h (record c { pending = p }) in
      record { low = m.low; bytes = m.bytes; upstream = m.upstream; channel = m.channel }
  on_reservation-IsClientMove id go (duplicate, p) c h =
      let m = raise (reject-IsClientMove (invalid_frame_response j) (record c { pending = p })) in
      record { low = m.low; bytes = m.bytes; upstream = m.upstream; channel = m.channel }
  on_reservation-IsClientMove id go (limit_exceeded, p) c h =
      let m =
        raise
          (reject-IsClientMove (pending_request_limit_response j id) (record c { pending = p })) in
      record { low = m.low; bytes = m.bytes; upstream = m.upstream; channel = m.channel }

  on_classified-IsClientMove :
      (frame : Bytes) (r : Result (ProtocolError Number) (ClientFrame Number))
      (c : Connection Number)
      → IsClientMove 10 c (on_classified j limits frame r c)
  unfolding on_classified on_passthrough on_broadcast
  on_classified-IsClientMove frame (ok (passthrough none)) c = write_upstream-IsClientMove frame c
  on_classified-IsClientMove frame (ok (passthrough (some id))) c =
      elim (Option-cases (request_id_key j id)) [
        | inl q ↦
            rw (q, on_passthrough)
              (record { low = omega arith; bytes = refl; upstream = refl; channel = refl })
        | inr (key, q) ↦
            rw (q, on_passthrough)
              (on_reservation-IsClientMove id _ _ c (write_upstream-IsClientMove frame))
      ]
  on_classified-IsClientMove frame (ok (broadcast id raw)) c =
      elim (Option-cases (request_id_key j id)) [
        | inl q ↦ rw (q, on_broadcast) (call_relay-IsClientMove id none raw c)
        | inr (key, q) ↦
            rw (q, on_broadcast)
              (on_reservation-IsClientMove id _ _ c (call_relay-IsClientMove id (some key) raw))
      ]
  on_classified-IsClientMove frame (err error) c = raise (reject-IsClientMove (response j error) c)

  pub client_read-LowersClient :
      (c : Connection Number)
      → c.client ≡ ClientTask.reading
      → LowersClient c (client_read j limits c)
  unfolding client_read on_client_read
  client_read-LowersClient c at = go (read_frame limits.max_frame_bytes c.client_input) refl
    where
      go :
          (r : Result IoErrorKind (Option Bytes × Input))
          → read_frame limits.max_frame_bytes c.client_input ≡ r
          → LowersClient c (on_client_read j limits r c)
      go (ok (none, rest)) e =
          let taken = read_frame_consumes limits.max_frame_bytes c.client_input rest none e in
          record {
            lower = omega (arith, ap client_rank at, taken.0);
            upstream = refl;
            channel = refl;
          }
      go (ok (some frame, rest)) e =
          let taken =
            read_frame_consumes limits.max_frame_bytes c.client_input rest (some frame) e in
          let m =
            on_classified-IsClientMove frame (classify j frame)
              (record c { client_input = rest }) in
          record {
            lower = omega (
              arith,
              ap client_rank at,
              taken.1 frame refl,
              m.low,
              m.bytes,
              ap upstream_rank m.upstream,
              ap channel_rank m.channel,
            );
            upstream = m.upstream;
            channel = m.channel;
          }
      go (err invalid_data) e =
          let m = reject-IsClientMove (invalid_frame_response j) c in
          record {
            lower = omega (
              arith,
              ap client_rank at,
              m.low,
              m.bytes,
              ap upstream_rank m.upstream,
              ap channel_rank m.channel,
            );
            upstream = m.upstream;
            channel = m.channel;
          }
      go (err other) e = record {
        lower = omega (arith, ap client_rank at);
        upstream = refl;
        channel = refl;
      }

  -- A task that waits for the relay ranks highest.
  pub relay_returned-LowersClient :
      (id : Value Number) (key : Option Str) (raw : Str) (result : RelayResult)
      (c : Connection Number)
      → c.client ≡ relaying id key raw
      → LowersClient c (relay_returned j id key result c)
  unfolding relay_returned on_relay_response
  relay_returned-LowersClient id key raw result c at = go (relay_response j id result)
    where
      go : (frame : Option Bytes) → LowersClient c (on_relay_response j key frame c)
      go none = record { lower = omega (arith, ap client_rank at); upstream = refl; channel = refl }
      go (some frame) = record {
        lower = omega (arith, ap client_rank at);
        upstream = refl;
        channel = refl;
      }
