-- ===== src/Config/Samples.antt =====
-- Command lines for the examples: the default one, and one for the private relay.
use electrum_private_relay.Prelude.{
  ℕ, ◌≡◌, refl, false, none, some, codes, ok, bytes, str_eq, contains, count_char, last_is,
  strip_suffix, split, trim_end_matches, eq_ignore_ascii_case,
}
use electrum_private_relay.Net.{v4, SocketAddr, is_loopback, is_unspecified, ip_eq, parsers}
use electrum_private_relay.Net.Print.{ip_to_string}
use electrum_private_relay.Endpoint.{
  Endpoint, has_forbidden_endpoint_syntax, is_bad_label, validate_dns, validate_host, validate,
  is_localhost, normalized_host, same_host, same_target, ip_could_target, could_target_listener,
}
use electrum_private_relay.Config.{
  Cli, Config, reject, socks_electrum, default_max_connections, default_max_concurrent_broadcasts,
  default_max_pending_requests, default_max_frame_bytes, pending_request_limit,
  concurrent_broadcast_limit, check_relay_endpoint, check_addresses, check_limits,
  check_socks_relay, check_mode, config_of, try_from,
}

unfoldable pub validates : Unit {0}
unfolding try_from check_addresses check_relay_endpoint check_limits pending_request_limit
    concurrent_broadcast_limit check_mode check_socks_relay validate validate_host validate_dns
    is_bad_label has_forbidden_endpoint_syntax contains count_char last_is strip_suffix split bytes
    str_eq same_target same_host could_target_listener ip_could_target is_localhost normalized_host
    trim_end_matches eq_ignore_ascii_case parsers ip_to_string is_loopback is_unspecified ip_eq
validates = tt

abbrev pub local : ℕ → SocketAddr
local port = record { ip = v4 127 0 0 1; port = port }

abbrev pub cli : Cli
cli = record {
  check_config = false;
  listen = local 50_003;
  upstream = record { host = codes "127.0.0.1"; port = 50_001 };
  relay_mode = reject;
  relay_endpoint = none;
  socks5_proxy = local 9_050;
  max_connections = default_max_connections;
  max_concurrent_broadcasts = default_max_concurrent_broadcasts;
  max_pending_requests = default_max_pending_requests;
  max_frame_bytes = default_max_frame_bytes;
  connect_timeout_seconds = 10;
  relay_timeout_seconds = 30;
  allow_non_loopback_listen = false;
}

abbrev pub relay : Endpoint
relay = record { host = codes "relay.example"; port = 50_001 }

abbrev pub socks : Cli
socks = record cli { relay_mode = socks_electrum; relay_endpoint = some relay }

abbrev pub socks_config : Config
socks_config = config_of socks (record { get = 8 }, record { get = 1_024 })

pub accepted : try_from socks ≡ ok socks_config
unfolding validates
accepted = refl
