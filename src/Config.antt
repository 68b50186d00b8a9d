-- ===== src/Config.antt =====
-- src/config.rs: the limits and the validation of the command line into a configuration. A `usize`
-- has 64 bits; a `Duration` is its whole seconds.
pub mod Validation
pub mod Samples
mod Tests
use electrum_private_relay.Prelude.{
  ℕ, ◌+◌, ◌*◌, ◌^◌, Bool, true, false, not, ◌&&◌, ◌||◌, Option, none, some, ltb, leb, ◌==◌, within,
  if◌then◌else◌, Result, ok, err, ok_or, refuse_if, map_err, ◌>>=◌, ◌>>◌,
}
use electrum_private_relay.Net.{SocketAddr, is_loopback}
use electrum_private_relay.Net.Print.{ip_to_string}
use electrum_private_relay.Endpoint.{
  Endpoint, EndpointParseError, validate, same_target, could_target_listener,
}

abbrev pub default_max_frame_bytes : ℕ
default_max_frame_bytes = 2 * 1024 * 1024

abbrev pub max_configurable_frame_bytes : ℕ
max_configurable_frame_bytes = 16 * 1024 * 1024

abbrev pub default_max_connections : ℕ
default_max_connections = 128

abbrev pub max_configurable_connections : ℕ
max_configurable_connections = 16 * 1024

abbrev pub default_max_pending_requests : ℕ
default_max_pending_requests = 1_024

abbrev pub max_configurable_pending_requests : ℕ
max_configurable_pending_requests = 16 * 1024

abbrev pub default_max_concurrent_broadcasts : ℕ
default_max_concurrent_broadcasts = 8

abbrev pub max_configurable_concurrent_broadcasts : ℕ
max_configurable_concurrent_broadcasts = 1_024

abbrev pub max_configurable_in_flight_broadcast_bytes : ℕ
max_configurable_in_flight_broadcast_bytes = 128 * 1024 * 1024

pub record PendingRequestLimit : Type 0 where
  pub get : ℕ

pub record ConcurrentBroadcastLimit : Type 0 where
  pub get : ℕ

pub data RelayMode : Type 0 where
  reject socks_electrum : RelayMode

pub record Cli : Type 0 where
  pub check_config : Bool
  pub listen : SocketAddr
  pub upstream : Endpoint
  pub relay_mode : RelayMode
  pub relay_endpoint : Option Endpoint
  pub socks5_proxy : SocketAddr
  pub max_connections : ℕ
  pub max_concurrent_broadcasts : ℕ
  pub max_pending_requests : ℕ
  pub max_frame_bytes : ℕ
  pub connect_timeout_seconds : ℕ
  pub relay_timeout_seconds : ℕ
  pub allow_non_loopback_listen : Bool

pub record Config : Type 0 where
  pub listen : SocketAddr
  pub upstream : Endpoint
  pub relay_mode : RelayMode
  pub relay_endpoint : Option Endpoint
  pub socks5_proxy : SocketAddr
  pub max_connections : ℕ
  pub max_concurrent_broadcasts : ConcurrentBroadcastLimit
  pub max_pending_requests : PendingRequestLimit
  pub max_frame_bytes : ℕ
  pub connect_timeout : ℕ
  pub relay_timeout : ℕ

-- `ConfigError`, by its message.
pub data ConfigError : Type 0 where
  zero_listener_port non_loopback_listener upstream_loop zero_socks5_port : ConfigError
  bad_max_connections bad_concurrent_broadcasts bad_pending_requests bad_frame_bytes : ConfigError
  budget_overflow budget_exceeded zero_timeout : ConfigError
  missing_relay_endpoint relay_is_upstream relay_loop socks5_loop : ConfigError
  invalid_upstream invalid_relay_endpoint : EndpointParseError → ConfigError

-- `PendingRequestLimit::try_from`
unfoldable pub pending_request_limit : ℕ → Result ConfigError PendingRequestLimit
pending_request_limit value = do
  refuse_if (not (within 1 max_configurable_pending_requests value)) bad_pending_requests
  ok (record { get = value })

-- `ConcurrentBroadcastLimit::try_from`
unfoldable pub concurrent_broadcast_limit : ℕ → Result ConfigError ConcurrentBroadcastLimit
concurrent_broadcast_limit value = do
  refuse_if (not (within 1 max_configurable_concurrent_broadcasts value)) bad_concurrent_broadcasts
  ok (record { get = value })

-- `usize::checked_mul`
abbrev pub checked_mul : ℕ → ℕ → Option ℕ
checked_mul a b = if ltb (a * b) (2 ^ 64) then some (a * b) else none

-- The checks of `Config::try_from` on the listener, the upstream, the proxy and the relay endpoint.
unfoldable pub check_relay_endpoint : Option Endpoint → Result ConfigError (Unit {0})
check_relay_endpoint none = ok tt
check_relay_endpoint (some e) = map_err invalid_relay_endpoint (validate e)

unfoldable pub check_addresses : Cli → Result ConfigError (Unit {0})
check_addresses cli = do
  refuse_if (cli.listen.port == 0) zero_listener_port
  refuse_if (not (is_loopback cli.listen.ip) && not cli.allow_non_loopback_listen)
      non_loopback_listener
  map_err invalid_upstream (validate cli.upstream)
  refuse_if (could_target_listener cli.upstream cli.listen) upstream_loop
  refuse_if (cli.socks5_proxy.port == 0) zero_socks5_port
  check_relay_endpoint cli.relay_endpoint

-- Its checks of the limits and timeouts.
unfoldable pub check_limits :
    Cli → Result ConfigError (ConcurrentBroadcastLimit × PendingRequestLimit)
check_limits cli = do
  refuse_if (not (within 1 max_configurable_connections cli.max_connections)) bad_max_connections
  broadcasts ← concurrent_broadcast_limit cli.max_concurrent_broadcasts
  pending ← pending_request_limit cli.max_pending_requests
  refuse_if (not (within 1_024 max_configurable_frame_bytes cli.max_frame_bytes)) bad_frame_bytes
  payload ← ok_or (checked_mul cli.max_concurrent_broadcasts cli.max_frame_bytes) budget_overflow
  refuse_if (ltb max_configurable_in_flight_broadcast_bytes payload) budget_exceeded
  refuse_if (cli.connect_timeout_seconds == 0 || cli.relay_timeout_seconds == 0) zero_timeout
  ok (broadcasts, pending)

abbrev pub socks_endpoint : Cli → Endpoint
socks_endpoint cli = record {
  host = ip_to_string cli.socks5_proxy.ip;
  port = cli.socks5_proxy.port;
}

unfoldable pub check_socks_relay : Cli → Option Endpoint → Result ConfigError (Unit {0})
check_socks_relay cli none = err missing_relay_endpoint
check_socks_relay cli (some relay_endpoint) = do
  refuse_if (same_target relay_endpoint cli.upstream) relay_is_upstream
  refuse_if (could_target_listener relay_endpoint cli.listen) relay_loop
  refuse_if (could_target_listener (socks_endpoint cli) cli.listen) socks5_loop
  ok tt

-- Its checks of the `socks-electrum` mode.
unfoldable pub check_mode : Cli → RelayMode → Result ConfigError (Unit {0})
check_mode cli reject = ok tt
check_mode cli socks_electrum = check_socks_relay cli cli.relay_endpoint

abbrev pub config_of : Cli → ConcurrentBroadcastLimit × PendingRequestLimit → Config
config_of cli limits = record {
  listen = cli.listen;
  upstream = cli.upstream;
  relay_mode = cli.relay_mode;
  relay_endpoint = cli.relay_endpoint;
  socks5_proxy = cli.socks5_proxy;
  max_connections = cli.max_connections;
  max_concurrent_broadcasts = limits.0;
  max_pending_requests = limits.1;
  max_frame_bytes = cli.max_frame_bytes;
  connect_timeout = cli.connect_timeout_seconds;
  relay_timeout = cli.relay_timeout_seconds;
}

-- `Config::try_from`
unfoldable pub try_from : Cli → Result ConfigError Config
try_from cli = do
  check_addresses cli
  limits ← check_limits cli
  check_mode cli cli.relay_mode
  ok (config_of cli limits)
