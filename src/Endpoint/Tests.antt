-- ===== src/Endpoint/Tests.antt =====
-- The examples of the tests of src/endpoint.rs, run.
use electrum_private_relay.Prelude.{
  ℕ, ◌≡◌, ◌≤◌, ◌≢◌, ◌⊎◌, ◌↔◌, ◌&&◌, ◌==◌, All, first_is, true, false, refl, [], ◌∷◌, map, Str,
  codes, ok, is_ok, bytes, str_eq, trim, contains, count_char, last_is, strip_suffix, split,
  u16_to_string, u16_digits, ap, ◌∙◌, some, arith, rsplit_once, trim_end_matches,
  eq_ignore_ascii_case, parse_u16,
}
use electrum_private_relay.Net.{
  IpAddr, v4, v6, parse_ip, SocketAddr, is_loopback, is_unspecified, ip_eq, parsers,
}
use electrum_private_relay.Net.Print.{ip_to_string}
use electrum_private_relay.Endpoint.Print.{to_string}
use electrum_private_relay.Endpoint.Print.RoundTrip.{IsCanonical, from_str-to_string}
use electrum_private_relay.Endpoint.Hosts.{IsValid, IsPlainChar, validate_iff}
use electrum_private_relay.Endpoint.Parsed.{IsReadFrom, from_str_sound}
use electrum_private_relay.Endpoint.Targets.{
  target, reaches, same_target_iff, could_target_listener_iff,
}
use electrum_private_relay.Endpoint.{
  Endpoint, has_forbidden_endpoint_syntax, is_bad_label, validate_dns, validate_host, validate,
  validated, from_host_port, from_socket_or, from_str, is_localhost, normalized_host, same_host,
  same_target, ip_could_target, could_target_listener,
}

parses : Unit {0}
unfolding from_str from_socket_or from_host_port validated validate validate_host validate_dns
    is_bad_label has_forbidden_endpoint_syntax bytes str_eq trim contains count_char last_is
    strip_suffix split rsplit_once parse_u16 parsers ip_to_string to_string u16_to_string u16_digits
parses = tt

guards : Unit {0}
unfolding same_target same_host could_target_listener ip_could_target is_localhost normalized_host
    trim_end_matches eq_ignore_ascii_case parsers is_loopback is_unspecified ip_eq
guards = tt

abbrev loopback : SocketAddr
loopback = record { ip = v4 127 0 0 1; port = 50_003 }

abbrev at : Str → Endpoint
at host = record { host = host; port = 50_003 }

accepts_forms :
    (from_str (codes "relay.example:50001")
      ≡ ok (record { host = codes "relay.example"; port = 50_001 }))
    × (from_str (codes "[::1]:50001") ≡ ok (record { host = codes "::1"; port = 50_001 }))
    × (is_ok (from_str (codes "xn--bcher-kva.example.:50001")) ≡ true)
unfolding parses
accepts_forms = (refl, refl, refl)

refuses_forms :
    map
      (λ s. is_ok (from_str (codes s)))
      ("relay.example" ∷ "relay.example:0" ∷ "127.0.0.1:0" ∷ "[::1]:0" ∷ " relay.example:50001"
        ∷ "::1:50001" ∷ "https://relay.example:50001" ∷ "user@relay.example:50001"
        ∷ "[relay.example]:50001" ∷ "relay..example:50001" ∷ "-relay.example:50001"
        ∷ "relay_example:50001" ∷ "bücher.example:50001" ∷ [])
    ≡ (false ∷ false ∷ false ∷ false ∷ false ∷ false ∷ false ∷ false ∷ false ∷ false ∷ false ∷ false
        ∷ false ∷ [])
unfolding parses
refuses_forms = refl

aliases :
    (same_target (at (codes "Relay.Example.")) (at (codes "relay.example")) ≡ true)
    × (same_target (at (codes "localhost")) (at (codes "127.0.0.1")) ≡ true)
    × (same_target (at (codes "127.0.0.2")) (at (codes "::1")) ≡ true)
    × (same_target (at (codes "relay.example")) (at (codes "other.example")) ≡ false)
    × (could_target_listener (at (codes "::1")) loopback ≡ true)
    × (could_target_listener (at (codes "relay.example")) loopback ≡ false)
unfolding guards
aliases = (refl, refl, refl, refl, refl, refl)

abbrev local_name : Endpoint
local_name = at (codes "localhost")

abbrev local_ip : Endpoint
local_ip = at (codes "127.0.0.1")

validate_iff_example : (validate local_name ≡ ok tt) ↔ IsValid local_name
validate_iff_example = validate_iff local_name

from_str_sound_example :
    let value = codes "relay.example:50001" in
    let e : Endpoint = record { host = codes "relay.example"; port = 50_001 } in
    IsValid e
    × (value ≢ [])
    × (trim value ≡ value)
    × All IsPlainChar value
    × ((count_char b':' value ≤ 1) ⊎ (first_is b'[' value ≡ true))
    × IsReadFrom value e
from_str_sound_example =
    from_str_sound (codes "relay.example:50001")
      (record { host = codes "relay.example"; port = 50_001 }) accepts_forms.0

same_target_iff_example :
    (same_target local_name local_ip ≡ true)
    ↔ (◌≡◌ {A = ℕ} 50_003 50_003 × (target local_name ≡ target local_ip))
same_target_iff_example = same_target_iff local_name local_ip

could_target_listener_iff_example :
    could_target_listener local_name loopback
    ≡ (50_003 == 50_003 && reaches (target local_name) (v4 127 0 0 1))
could_target_listener_iff_example = could_target_listener_iff local_name loopback

abbrev loopback_v6 : Endpoint
loopback_v6 = at (codes "::1")

prints_forms :
    (to_string loopback_v6 ≡ codes "[::1]:50003")
    × (to_string local_ip ≡ codes "127.0.0.1:50003")
    × (to_string local_name ≡ codes "localhost:50003")
unfolding parses
prints_forms = (refl, refl, refl)

loopback_v6_valid : validate loopback_v6 ≡ ok tt
unfolding parses
loopback_v6_valid = refl

abbrev one : IpAddr
one = v6 (0 ∷ 0 ∷ 0 ∷ 0 ∷ 0 ∷ 0 ∷ 0 ∷ 1 ∷ [])

loopback_v6_read : (parse_ip (codes "::1") ≡ some one) × (ip_to_string one ≡ codes "::1")
unfolding parses
loopback_v6_read = (refl, refl)

loopback_v6-IsCanonical : IsCanonical (codes "::1")
loopback_v6-IsCanonical ip h =
    let same : ip ≡ one = ground (arith, h, loopback_v6_read.0) in
    ap ip_to_string same ∙ loopback_v6_read.1

from_str-to_string_example : from_str (to_string loopback_v6) ≡ ok loopback_v6
from_str-to_string_example =
    from_str-to_string loopback_v6 ((validate_iff loopback_v6).0 loopback_v6_valid) (omega arith)
      loopback_v6-IsCanonical
