-- ===== src/Endpoint/Parsed.antt =====
-- Which texts `from_str` of src/endpoint.rs parses, and to what.
use electrum_private_relay.Prelude.{
  ◌≤◌, ◌≡◌, ◌≢◌, ◌⊎◌, inl, inr, refl, sym, ◌∙◌, ap, subst, true, Option, none, some, [], Str, All,
  Option-cases, ok, first_is, arith, str_eq_iff, trim, count_char, rsplit_once, parse_u16,
}
use electrum_private_relay.Net.{parse_socket, SocketAddr}
use electrum_private_relay.Net.Print.{ip_to_string}
use electrum_private_relay.Endpoint.{Endpoint, validated, from_host_port, from_socket_or, from_str}
use electrum_private_relay.Endpoint.Hosts.{
  IsPlainChar, IsValid, is_empty_iff, has_forbidden_endpoint_syntax_iff, validate_iff,
}

validated_sound : (e f : Endpoint) → validated e ≡ ok f → (e ≡ f) × IsValid f
unfolding validated
validated_sound e f h =
    let same : e ≡ f = ground arith in
    (same, subst IsValid same ((validate_iff e).0 (ground arith)))

-- Where a parsed endpoint comes from: an IP address with a port, or the text on either side of the
-- last colon.
abbrev pub IsReadFrom : Str → Endpoint → Type 0
IsReadFrom value e =
    ((socket : SocketAddr) × (parse_socket value ≡ some socket)
      × (e ≡ record { host = ip_to_string socket.ip; port = socket.port }))
    ⊎ ((host : Str) × (port : Str) × (parse_socket value ≡ none)
        × (rsplit_once b':' value ≡ some (host, port))
        × (host ≡ e.host)
        × (parse_u16 port ≡ some e.port))

from_host_port_sound :
    (split : Option (Str × Str)) (e : Endpoint)
    → from_host_port split ≡ ok e
    → (host : Str) × (port : Str) × (split ≡ some (host, port))
      × (host ≡ e.host)
      × (parse_u16 port ≡ some e.port)
      × IsValid e
unfolding from_host_port
from_host_port_sound none e h = absurd (ground arith)
from_host_port_sound (some (host, port)) e h = elim (Option-cases (parse_u16 port)) [
  | inl q ↦ absurd (ground arith)
  | inr (n, q) ↦
      let (same, valid) = validated_sound (record { host = host; port = n }) e (ground arith) in
      (
        host,
        port,
        refl,
        ap (λ (x : Endpoint). x.host) same,
        q ∙ ap (λ (x : Endpoint). some x.port) same,
        valid,
      )
]

from_socket_or_sound :
    (value : Str) (e : Endpoint)
    → from_socket_or (parse_socket value) value ≡ ok e
    → IsValid e × IsReadFrom value e
unfolding from_socket_or
from_socket_or_sound value e h = elim (Option-cases (parse_socket value)) [
  | inr (socket, q) ↦
      let (same, valid) =
        validated_sound (record { host = ip_to_string socket.ip; port = socket.port }) e
          (rw (q, from_socket_or) at h) in
      (valid, inl (socket, q, sym same))
  | inl q ↦
      let (host, port, cut, is_host, is_port, valid) =
        from_host_port_sound (rsplit_once b':' value) e (rw (q, from_socket_or) at h) in
      (valid, inr (host, port, q, cut, is_host, is_port))
]

-- A text that parses gives a valid endpoint: it is not empty and not padded with white space, it
-- has none of `@ / ? #`, it has one colon at most or begins with a bracket, and the host and port
-- are those of the IP address that it spells or of the two sides of its last colon.
pub from_str_sound :
    (value : Str) (e : Endpoint)
    → from_str value ≡ ok e
    → IsValid e
      × (value ≢ [])
      × (trim value ≡ value)
      × All IsPlainChar value
      × ((count_char b':' value ≤ 1) ⊎ (first_is b'[' value ≡ true))
      × IsReadFrom value e
unfolding from_str
from_str_sound value e h =
    let (valid, origin) = from_socket_or_sound value e (ground arith) in
    (
      valid,
      (is_empty_iff value).0 (ground arith),
      (str_eq_iff (trim value) value).0 (ground arith),
      (has_forbidden_endpoint_syntax_iff value).0 (ground arith),
      ground arith,
      origin,
    )
