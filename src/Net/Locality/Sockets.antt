-- ===== src/Net/Locality/Sockets.antt =====
-- How a socket address reads from the text of a host and a port.
use electrum_private_relay.Prelude.{
  ℕ, ◌<◌, ◌≡◌, ◌≢◌, inl, inr, refl, subst, none, some, [], ◌∷◌, ◌++◌, Str, All, Option-cases, arith,
  u16_to_string, value_of-u16_to_string,
}
use electrum_private_relay.Net.{
  IpAddr, ◌>>=◌, read_given_char, read_number, number_of, read_ipv4, parse_ip, read_port,
  read_socket_v4, skip_scope, read_socket_v6, parse_socket,
}
use electrum_private_relay.Net.Names.{read_ipv4-none}
use electrum_private_relay.Net.Locality.{IsNoColon, push, read_ipv4-Extends, read_ipv4-Takes}
use electrum_private_relay.Net.Locality.V6.{IsEnd, read_ipv6-Extends}
use electrum_private_relay.Net.Locality.Kinds.{All-right, parse_ip-v4, parse_ip-v6, parse_ip-rest}

-- A port as it is printed after a host.
abbrev pub port_text : ℕ → Str
port_text port = b':' ∷ u16_to_string port

read_port-port_text : (port : ℕ) → port < 65_536 → read_port (port_text port) ≡ some (port, [])
unfolding read_port read_given_char read_number number_of
read_port-port_text port h =
    let (d, ds, spans, is_value) = value_of-u16_to_string port h in
    rw (spans, ◌>>=◌, number_of) (ground (arith, is_value, h))

ipv4_before_port :
    (host : Str) (t : Str) → read_ipv4 (host ++ b':' ∷ t) ≡ push (b':' ∷ t) (read_ipv4 host)
ipv4_before_port host t = read_ipv4-Extends b':' t refl (λ h. absurd (ground arith)) host

pub parse_socket-v4 :
    (host : Str) (ip : IpAddr) (port : ℕ)
    → port < 65_536
    → All IsNoColon host
    → parse_ip host ≡ some ip
    → parse_socket (host ++ port_text port) ≡ some (record { ip = ip; port = port })
unfolding parse_socket read_socket_v4
parse_socket-v4 host ip port h no_colon q =
    rw
      (
        ipv4_before_port host (u16_to_string port),
        parse_ip-v4 host ip no_colon q,
        read_port-port_text port h,
        ◌>>=◌,
      )
      refl

bracket-IsEnd : IsEnd b']'
bracket-IsEnd = record {
  no_decimal = refl;
  no_hexadecimal = refl;
  no_dot = λ h. absurd (ground arith);
  no_colon = λ h. absurd (ground arith);
}

pub parse_socket-v6 :
    (host : Str) (ip : IpAddr) (port : ℕ)
    → port < 65_536
    → (All IsNoColon host → ⊥)
    → parse_ip host ≡ some ip
    → parse_socket (b'[' ∷ (host ++ b']' ∷ port_text port)) ≡ some (record { ip = ip; port = port })
unfolding parse_socket read_socket_v4 read_socket_v6 read_given_char skip_scope
parse_socket-v6 host ip port h colon q =
    rw
      (
        read_ipv4-none b'[' (host ++ b']' ∷ port_text port) refl,
        read_ipv6-Extends b']' (port_text port) bracket-IsEnd host,
        parse_ip-v6 host ip colon q,
        read_port-port_text port h,
        ◌>>=◌,
      )
      refl

-- What an IPv4 address at the start of a name leaves does not begin with a port.
read_port-none : (s t : Str) → s ≢ [] → All IsNoColon s → read_port (s ++ t) ≡ none
unfolding read_port read_given_char
read_port-none [] t h no_colon = absurd (h refl)
read_port-none (c ∷ s) t h no_colon = ground (arith, no_colon.0)

read_socket_v4-none :
    (host t : Str)
    → All IsNoColon host
    → parse_ip host ≡ none
    → read_socket_v4 (host ++ b':' ∷ t) ≡ none
unfolding read_socket_v4
read_socket_v4-none host t no_colon q = elim (Option-cases (read_ipv4 host)) [
  | inl e ↦ rw (ipv4_before_port host t, e, ◌>>=◌) refl
  | inr ((ip, rest), e) ↦
      let (taken, same, good) = read_ipv4-Takes host rest ip e in
      rw
        (
          ipv4_before_port host t,
          e,
          read_port-none rest (b':' ∷ t) (parse_ip-rest host rest ip q e)
              (All-right IsNoColon taken rest (subst (All IsNoColon) same no_colon)),
          ◌>>=◌,
        )
        refl
]

pub parse_socket-name :
    (c : ℕ) (host t : Str)
    → c ≢ b'['
    → All IsNoColon (c ∷ host)
    → parse_ip (c ∷ host) ≡ none
    → parse_socket (c ∷ host ++ b':' ∷ t) ≡ none
unfolding parse_socket read_socket_v6 read_given_char
parse_socket-name c host t bracket no_colon q =
    rw (read_socket_v4-none (c ∷ host) t no_colon q) (ground (arith, bracket))
