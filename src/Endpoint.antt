-- ===== src/Endpoint.antt =====
-- src/endpoint.rs: parsing and validation of `host:port`, and the two guards against loops and
-- endpoint reuse.
pub mod Hosts
pub mod Parsed
pub mod Targets
pub mod Aliases
pub mod Print
mod Tests
use electrum_private_relay.Prelude.{
  ℕ, suc, ◌+◌, ◌≤◌, Bool, true, false, not, ◌&&◌, ◌||◌, Option, none, some, List, [], ◌∷◌, Str,
  String, codes, bytes, len, is_empty, all, any, ltb, leb, ◌==◌, if◌then◌else◌, Result, ok, err,
  ok_or, refuse_if, ◌>>=◌, ◌>>◌, str_eq, trim, is_whitespace, contains, contains_char, count_char,
  first_is, last_is, strip_suffix, split, rsplit_once, trim_end_matches, eq_ignore_ascii_case,
  is_ascii, is_ascii_alphanumeric, parse_u16,
}
use electrum_private_relay.Net.{
  IpAddr, SocketAddr, is_loopback, is_unspecified, ip_eq, parse_ip, parse_socket,
}
use electrum_private_relay.Net.Print.{ip_to_string}

pub record Endpoint : Type 0 where
  pub host : Str
  pub port : ℕ

-- `EndpointParseError`, by its message.
pub data EndpointParseError : Type 0 where
  port_zero empty_or_padded not_host_port unbracketed_ipv6 missing_port invalid_port :
      EndpointParseError
  invalid_host not_ascii invalid_dns_host : EndpointParseError

unfoldable pub has_forbidden_endpoint_syntax : Str → Bool
has_forbidden_endpoint_syntax value =
    contains (codes "://") value
    || contains_char b'@' value
    || contains_char b'/' value
    || contains_char b'?' value
    || contains_char b'#' value

-- The test of one DNS label; `true` is a refusal.
unfoldable pub is_bad_label : Str → Bool
is_bad_label label =
    is_empty label
    || ltb 63 (len label)
    || first_is b'-' label
    || last_is b'-' label
    || not (all (λ b. is_ascii_alphanumeric b || b == b'-') (bytes label))

-- `host.strip_suffix('.').unwrap_or(host)`
abbrev without_root_dot : Option Str → Str → Str
without_root_dot none host = host
without_root_dot (some name) host = name

abbrev pub dns_name : Str → Str
dns_name host = without_root_dot (strip_suffix b'.' host) host

-- `host.parse::<IpAddr>().is_ok()`
abbrev pub is_some {ℓ} : {A : Type ℓ} → Option A → Bool
is_some none = false
is_some (some a) = true

-- The tests of `validate_host` on a host that is no IP address.
unfoldable pub validate_dns : Str → Result EndpointParseError (Unit {0})
validate_dns host = do
  refuse_if (not (is_ascii host)) not_ascii
  refuse_if (contains_char b':' host) unbracketed_ipv6
  refuse_if (is_empty (dns_name host) || ltb 253 (len (dns_name host))) invalid_dns_host
  refuse_if (any is_bad_label (split b'.' (dns_name host))) invalid_dns_host
  ok tt

unfoldable pub validate_host : Str → Result EndpointParseError (Unit {0})
validate_host host = do
  refuse_if (is_empty host || any is_whitespace host) invalid_host
  refuse_if (has_forbidden_endpoint_syntax host) not_host_port
  if is_some (parse_ip host) then ok tt else validate_dns host

unfoldable pub validate : Endpoint → Result EndpointParseError (Unit {0})
validate e = do refuse_if (e.port == 0) port_zero; validate_host e.host

unfoldable pub validated : Endpoint → Result EndpointParseError Endpoint
validated e = do validate e; ok e

unfoldable pub from_host_port : Option (Str × Str) → Result EndpointParseError Endpoint
from_host_port none = err missing_port
from_host_port (some (host, port)) = do
  port ← ok_or (parse_u16 port) invalid_port
  validated (record { host = host; port = port })

unfoldable pub from_socket_or : Option SocketAddr → Str → Result EndpointParseError Endpoint
from_socket_or (some socket) value =
    validated (record { host = ip_to_string socket.ip; port = socket.port })
from_socket_or none value = from_host_port (rsplit_once b':' value)

unfoldable pub from_str : Str → Result EndpointParseError Endpoint
from_str value = do
  refuse_if (not (str_eq (trim value) value) || is_empty value) empty_or_padded
  refuse_if (has_forbidden_endpoint_syntax value) not_host_port
  refuse_if (ltb 1 (count_char b':' value) && not (first_is b'[' value)) unbracketed_ipv6
  from_socket_or (parse_socket value) value

abbrev pub localhost : Str
localhost = codes "localhost"

unfoldable pub is_localhost : Str → Bool
is_localhost host = eq_ignore_ascii_case host localhost

unfoldable pub normalized_host : Endpoint → Str
normalized_host e = trim_end_matches b'.' e.host

-- The `match` of `same_target`.
unfoldable pub same_host : Str → Str → Option IpAddr → Option IpAddr → Bool
same_host left right (some left_ip) (some right_ip) =
    ip_eq left_ip right_ip || is_loopback left_ip && is_loopback right_ip
same_host left right (some ip) none = is_localhost right && is_loopback ip
same_host left right none (some ip) = is_localhost left && is_loopback ip
same_host left right none none = eq_ignore_ascii_case left right

unfoldable pub same_target : Endpoint → Endpoint → Bool
same_target e other =
    if not (e.port == other.port)
    then false
    else same_host (normalized_host e) (normalized_host other) (parse_ip (normalized_host e))
        (parse_ip (normalized_host other))

unfoldable pub ip_could_target : Option IpAddr → IpAddr → Bool
ip_could_target none listener = false
ip_could_target (some endpoint_ip) listener =
    ip_eq endpoint_ip listener
    || is_loopback endpoint_ip && is_loopback listener
    || is_unspecified listener && (is_loopback endpoint_ip || is_unspecified endpoint_ip)
    || is_unspecified endpoint_ip && is_loopback listener

unfoldable pub could_target_listener : Endpoint → SocketAddr → Bool
could_target_listener e listener =
    if not (e.port == listener.port)
    then false
    else if is_localhost (normalized_host e)
    then is_loopback listener.ip || is_unspecified listener.ip
    else ip_could_target (parse_ip (normalized_host e)) listener.ip
