-- ===== src/Endpoint/Print/RoundTrip.antt =====
-- A valid endpoint is printed as a text that parses to it.
use electrum_private_relay.Prelude.{
  ℕ, ◌<◌, ◌≡◌, ◌≢◌, inl, inr, refl, sym, ◌∙◌, ap, subst, false, not, ◌&&◌, none, some, [], ◌∷◌,
  ◌++◌, Str, All, All-append, Option-cases, Bool-cases, ltb, ok, count_char, first_is, str_eq_refl,
  contains_char, u16_to_string, parse_u16-u16_to_string, arith,
}
use electrum_private_relay.Net.{IpAddr, parse_ip, parse_socket}
use electrum_private_relay.Net.Print.{ip_to_string}
use electrum_private_relay.Net.Locality.{IsNoColon}
use electrum_private_relay.Net.Locality.Sockets.{
  port_text, parse_socket-v4, parse_socket-v6, parse_socket-name,
}
use electrum_private_relay.Endpoint.{Endpoint, validated, from_host_port, from_socket_or, from_str}
use electrum_private_relay.Endpoint.Hosts.{
  IsPlainChar, IsDnsHost, IsValid, has_forbidden_endpoint_syntax_iff, validate_iff,
}
use electrum_private_relay.Endpoint.Print.{to_string}
use electrum_private_relay.Endpoint.Print.Texts.{
  IsNoSpace, IsHarmlessText, u16_to_string-IsHarmlessText, trim-IsNoSpace, count_char-append,
  count_char-none, contains_char-false, contains_char-none, rsplit_once-append, dns_host-first,
}

-- An IP address is spelt as `std` prints it.
abbrev pub IsCanonical : Str → Type 0
IsCanonical host = (ip : IpAddr) → parse_ip host ≡ some ip → ip_to_string ip ≡ host

-- The tests before the parse pass.
from_str-parse :
    (value : Str)
    → value ≢ []
    → All IsNoSpace value
    → All IsPlainChar value
    → (ltb 1 (count_char b':' value) && not (first_is b'[' value)) ≡ false
    → from_str value ≡ from_socket_or (parse_socket value) value
unfolding from_str
from_str-parse [] nonempty space plain colons = absurd (nonempty refl)
from_str-parse (c ∷ s) nonempty space plain colons =
    rw
      (
        trim-IsNoSpace (c ∷ s) space,
        str_eq_refl (c ∷ s),
        (has_forbidden_endpoint_syntax_iff (c ∷ s)).1 plain,
        colons,
      )
      refl

validated-IsValid : (e : Endpoint) → IsValid e → validated e ≡ ok e
unfolding validated
validated-IsValid e v = rw ((validate_iff e).1 v) refl

opening : IsPlainChar b'['
opening = (ground arith, ground arith, ground arith, ground arith)

closing : IsPlainChar b']'
closing = (ground arith, ground arith, ground arith, ground arith)

colon_plain : IsPlainChar b':'
colon_plain = (ground arith, ground arith, ground arith, ground arith)

append-nonempty : (s t : Str) → s ≢ [] → (s ++ t) ≢ []
append-nonempty [] t h k = h refl
append-nonempty (c ∷ s) t h k = absurd cc

module _ (e : Endpoint) (v : IsValid e) (small : e.port < 65_536) where
  harmless : IsHarmlessText (u16_to_string e.port)
  harmless = u16_to_string-IsHarmlessText e.port small

  from_socket :
      (ip : IpAddr) (value : Str)
      → ip_to_string ip ≡ e.host
      → from_socket_or (some (record { ip = ip; port = e.port })) value ≡ ok e
  unfolding from_socket_or
  from_socket ip value same = rw same (validated-IsValid e v)

  one_colon : All IsNoColon e.host → count_char b':' (e.host ++ port_text e.port) ≡ 1
  unfolding count_char
  one_colon h = ground (
    arith,
    count_char-append b':' e.host (port_text e.port),
    count_char-none e.host h,
    count_char-none (u16_to_string e.port) harmless.no_colon,
  )

  -- `host:port`
  plain_parse :
      All IsNoColon e.host
      → from_str (e.host ++ port_text e.port)
        ≡ from_socket_or (parse_socket (e.host ++ port_text e.port)) (e.host ++ port_text e.port)
  plain_parse no_colon =
      from_str-parse (e.host ++ port_text e.port)
        (append-nonempty e.host (port_text e.port) v.nonempty)
        (All-append IsNoSpace e.host (port_text e.port) v.no_space (refl, harmless.no_space))
        (All-append IsPlainChar e.host (port_text e.port) v.plain (colon_plain, harmless.plain))
        (rw (one_colon no_colon) refl)

  name_parse :
      (c : ℕ) (s : Str)
      → e.host ≡ c ∷ s
      → parse_ip e.host ≡ none
      → IsDnsHost e.host
      → parse_socket (e.host ++ port_text e.port) ≡ none
  name_parse c s same q dns =
      subst (λ host. parse_socket (host ++ port_text e.port) ≡ none) (sym same)
        (parse_socket-name c s (u16_to_string e.port)
          (dns_host-first c s (subst IsDnsHost same dns)) (subst (All IsNoColon) same dns.no_colon)
          (ap parse_ip (sym same) ∙ q))

  dns_round_trip :
      parse_ip e.host ≡ none → IsDnsHost e.host → from_str (e.host ++ port_text e.port) ≡ ok e
  unfolding from_socket_or from_host_port
  dns_round_trip q dns =
      plain_parse dns.no_colon
      ∙ rw
          (
            no_socket e.host refl,
            rsplit_once-append e.host (u16_to_string e.port) harmless.no_colon,
            parse_u16-u16_to_string e.port small,
          )
          (validated-IsValid e v)
    where
      no_socket : (host : Str) → e.host ≡ host → parse_socket (e.host ++ port_text e.port) ≡ none
      no_socket [] same = absurd (v.nonempty same)
      no_socket (c ∷ s) same = name_parse c s same q dns

  v4_round_trip :
      (ip : IpAddr)
      → All IsNoColon e.host
      → parse_ip e.host ≡ some ip
      → ip_to_string ip ≡ e.host
      → from_str (e.host ++ port_text e.port) ≡ ok e
  v4_round_trip ip no_colon q same =
      plain_parse no_colon
      ∙ rw (parse_socket-v4 e.host ip e.port small no_colon q) (from_socket ip _ same)

  abbrev bracketed : Str
  bracketed = b'[' ∷ (e.host ++ b']' ∷ port_text e.port)

  v6_round_trip :
      (ip : IpAddr)
      → (All IsNoColon e.host → ⊥)
      → parse_ip e.host ≡ some ip
      → ip_to_string ip ≡ e.host
      → from_str bracketed ≡ ok e
  v6_round_trip ip colon q same =
      from_str-parse bracketed (λ h. absurd cc)
        (
          refl,
          All-append IsNoSpace e.host (b']' ∷ port_text e.port) v.no_space
              (refl, (refl, harmless.no_space)),
        )
        (
          opening,
          All-append IsPlainChar e.host (b']' ∷ port_text e.port) v.plain
              (closing, (colon_plain, harmless.plain)),
        )
        (ground arith)
      ∙ rw (parse_socket-v6 e.host ip e.port small colon q) (from_socket ip _ same)

  -- A valid endpoint with a port of 16 bits whose host, if it is an IP address, is spelt as `std`
  -- prints it, is printed as a text that parses to it.
  pub from_str-to_string : IsCanonical e.host → from_str (to_string e) ≡ ok e
  unfolding to_string
  from_str-to_string canonical = elim (Option-cases (parse_ip e.host)) [
    | inl q ↦ elim v.addressed [
      | inl (ip, found) ↦ absurd (ground (arith, q, found))
      | inr dns ↦ rw (contains_char-none e.host dns.no_colon) (dns_round_trip q dns)
    ]
    | inr (ip, q) ↦ elim (Bool-cases (contains_char b':' e.host)) [
      | inl colon ↦ rw colon (
          v6_round_trip ip (λ h. absurd (ground (arith, contains_char-none e.host h, colon))) q
            (canonical ip q))
      | inr no_colon ↦
          rw no_colon (v4_round_trip ip (contains_char-false e.host no_colon) q (canonical ip q))
    ]
  ]
