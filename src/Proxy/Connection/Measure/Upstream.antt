-- ===== src/Proxy/Connection/Measure/Upstream.antt =====
-- What the upstream task's reads do to the measure of a connection.
use electrum_private_relay.Prelude.{
  ◌≡◌, refl, ap, Option, none, some, Bytes, Str, Result, ok, err, arith,
}
use electrum_private_relay.Wire.{SerdeJson, Value, UpstreamEnvelope}
use electrum_private_relay.Proxy.Pending.{PendingRequest, get}
use electrum_private_relay.Proxy.Framing.{IoErrorKind, Input, read_frame}
use electrum_private_relay.Proxy.Framing.Taken.{read_frame_consumes}
use electrum_private_relay.Proxy.State.{ConnectionLimits, UpstreamTask, Connection}
use electrum_private_relay.Proxy.Connection.{
  request_id_key, on_correlated, on_response_key, on_envelope, on_upstream_frame, on_upstream_read,
  upstream_read,
}
use electrum_private_relay.Proxy.Connection.Measure.{
  LowersUpstream, channel_rank, client_rank, upstream_rank, IsUpstreamMove,
}

module _ (j : SerdeJson) (limits : ConnectionLimits) where
  open j use {Number, envelope_from_slice}

  on_response_key-IsUpstreamMove :
      (frame : Bytes) (key : Option Str) (c : Connection Number)
      → c.upstream ≡ UpstreamTask.reading
      → IsUpstreamMove c (on_response_key j frame key c)
  unfolding on_response_key
  on_response_key-IsUpstreamMove frame none c at = record {
    low = omega arith;
    bytes = refl;
    client = refl;
    channel = refl;
  }
  on_response_key-IsUpstreamMove frame (some key) c at = correlated (get key c.pending)
    where
      correlated :
          (found : Option PendingRequest) → IsUpstreamMove c (on_correlated j frame key found c)
      correlated none =
          unfold on_correlated in
          record {
            low = omega (arith, ap upstream_rank at);
            bytes = refl;
            client = refl;
            channel = refl;
          }
      correlated (some PendingRequest.broadcast) =
          unfold on_correlated in
          record {
            low = omega (arith, ap upstream_rank at);
            bytes = refl;
            client = refl;
            channel = refl;
          }
      correlated (some PendingRequest.upstream) =
          unfold on_correlated in
          record { low = omega arith; bytes = refl; client = refl; channel = refl }

  on_upstream_frame-IsUpstreamMove :
      (frame : Bytes) (envelope : Option (UpstreamEnvelope Number)) (c : Connection Number)
      → c.upstream ≡ UpstreamTask.reading
      → IsUpstreamMove c (on_upstream_frame j frame envelope c)
  unfolding on_upstream_frame on_envelope
  on_upstream_frame-IsUpstreamMove frame none c at = record {
    low = omega arith;
    bytes = refl;
    client = refl;
    channel = refl;
  }
  on_upstream_frame-IsUpstreamMove frame (some e) c at = matched e.id e.method
    where
      matched :
          (id : Option (Value Number)) (method : Option Str)
          → IsUpstreamMove c (on_envelope j frame id method c)
      matched (some id) none = on_response_key-IsUpstreamMove frame (request_id_key j id) c at
      matched none (some method) = record {
        low = omega arith;
        bytes = refl;
        client = refl;
        channel = refl;
      }
      matched none none = record { low = omega arith; bytes = refl; client = refl; channel = refl }
      matched (some id) (some method) = record {
        low = omega arith;
        bytes = refl;
        client = refl;
        channel = refl;
      }

  pub upstream_read-LowersUpstream :
      (c : Connection Number)
      → c.upstream ≡ UpstreamTask.reading
      → LowersUpstream c (upstream_read j limits c)
  unfolding upstream_read on_upstream_read
  upstream_read-LowersUpstream c at = go (read_frame limits.max_frame_bytes c.upstream_input) refl
    where
      go :
          (r : Result IoErrorKind (Option Bytes × Input))
          → read_frame limits.max_frame_bytes c.upstream_input ≡ r
          → LowersUpstream c (on_upstream_read j r c)
      go (ok (none, rest)) e =
          let taken = read_frame_consumes limits.max_frame_bytes c.upstream_input rest none e in
          record {
            lower = omega (arith, ap upstream_rank at, taken.0);
            client = refl;
            channel = refl;
          }
      go (ok (some frame, rest)) e =
          let taken =
            read_frame_consumes limits.max_frame_bytes c.upstream_input rest (some frame) e in
          let m =
            on_upstream_frame-IsUpstreamMove frame (envelope_from_slice frame)
              (record c { upstream_input = rest }) at in
          record {
            lower = omega (
              arith,
              ap upstream_rank at,
              taken.1 frame refl,
              m.low,
              m.bytes,
              ap client_rank m.client,
              ap channel_rank m.channel,
            );
            client = m.client;
            channel = m.channel;
          }
      go (err error) e = record {
        lower = omega (arith, ap upstream_rank at);
        client = refl;
        channel = refl;
      }
