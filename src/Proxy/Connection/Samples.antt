-- ===== src/Proxy/Connection/Samples.antt =====
-- A connection whose wallet sends a query and then a broadcast, step by step.
use electrum_private_relay.Prelude.{◌≡◌, refl, true, some, [], ◌++◌, codes, bytes, str_eq}
use electrum_private_relay.Protocol.{
  classify, classify_request, checked_id, classify_broadcast, is_valid_request_id, is_hex_payload,
  raw_param, encode_response, response, success_response, relay_error_response,
  invalid_frame_response, pending_request_limit_response,
}
use electrum_private_relay.Proxy.Pending.{get, contains_key, remove, reserve_request}
use electrum_private_relay.Proxy.Framing.{
  Input, closed, read_frame, read_until, checked_frame, ends_with_newline,
}
use electrum_private_relay.Proxy.State.{ConnectionLimits, Connection, relaying, release, send}
use electrum_private_relay.Proxy.Connection.{
  proxy_streams_until, upstream_read, on_upstream_read, upstream_sent, client_read, on_client_read,
  on_classified, on_passthrough, on_broadcast, on_reservation, write_upstream, call_relay, reject,
  request_id_key, client_written, relay_returned, relay_response, on_relay_response, client_replied,
  on_upstream_frame, on_envelope, on_response_key, on_correlated,
}
use electrum_private_relay.Proxy.Connection.Steps.{Reach, here, next, client_reads, client_writes}
use electrum_private_relay.Proxy.Writer.{writer_received, writer_wrote}
use electrum_private_relay.Samples.{
  sample, sample_request, sample_to_string, frame, id_of, raw_sample, SampleNumber,
}

unfoldable pub tasks : Unit {0}
unfolding classify classify_request checked_id classify_broadcast is_valid_request_id is_hex_payload
    raw_param encode_response response success_response relay_error_response invalid_frame_response
    pending_request_limit_response get contains_key remove reserve_request read_frame read_until
    checked_frame ends_with_newline proxy_streams_until upstream_read on_upstream_read upstream_sent
    client_read on_client_read on_classified on_passthrough on_broadcast on_reservation
    write_upstream call_relay reject request_id_key client_written relay_returned relay_response
    on_relay_response release client_replied send on_upstream_frame on_envelope on_response_key
    on_correlated writer_received writer_wrote sample_request sample_to_string str_eq bytes
tasks = tt

abbrev pub limits : ConnectionLimits
limits = record { max_frame_bytes = 64; max_pending_requests = 2 }

abbrev pub wallet : Input
wallet = record { unread = frame (codes "query") ++ frame (codes "broadcast"); ending = closed }

abbrev pub silent : Input
silent = record { unread = []; ending = closed }

abbrev pub start : Connection SampleNumber
start = proxy_streams_until sample wallet silent

-- After the query is read, written, and the broadcast read.
abbrev pub asked : Connection SampleNumber
asked = client_read sample limits start

abbrev pub written : Connection SampleNumber
written = client_written sample true asked

abbrev pub waiting : Connection SampleNumber
waiting = client_read sample limits written

pub written-Reach : Reach sample limits start written
unfolding tasks
written-Reach =
    next (next here (client_reads refl)) (client_writes (frame (codes "query")) true refl)

pub waiting-Reach : Reach sample limits start waiting
unfolding tasks
waiting-Reach = next written-Reach (client_reads refl)

pub waiting_task : waiting.client ≡ relaying (id_of 2) (some (codes "2")) raw_sample
unfolding tasks
waiting_task = refl
