-- ===== src/Net/Tests.antt =====
-- The parsers and printers at addresses of each form.
use electrum_private_relay.Prelude.{◌≡◌, refl, none, some, [], ◌∷◌, codes}
use electrum_private_relay.Net.{v4, v6, parse_ip, parse_socket, parsers}
use electrum_private_relay.Net.Print.{ip_to_string}

parse_ip_forms :
    (parse_ip (codes "127.0.0.1") ≡ some (v4 127 0 0 1))
    × (parse_ip (codes "127.0.0.01") ≡ none)
    × (parse_ip (codes "256.0.0.1") ≡ none)
    × (parse_ip (codes "::1") ≡ some (v6 (0 ∷ 0 ∷ 0 ∷ 0 ∷ 0 ∷ 0 ∷ 0 ∷ 1 ∷ [])))
    × (parse_ip (codes "::") ≡ some (v6 (0 ∷ 0 ∷ 0 ∷ 0 ∷ 0 ∷ 0 ∷ 0 ∷ 0 ∷ [])))
    × (parse_ip (codes "2001:db8::8:1") ≡ some (v6 (0x2001 ∷ 0xdb8 ∷ 0 ∷ 0 ∷ 0 ∷ 0 ∷ 8 ∷ 1 ∷ [])))
    × (parse_ip (codes "::ffff:127.0.0.1")
        ≡ some (v6 (0 ∷ 0 ∷ 0 ∷ 0 ∷ 0 ∷ 0xffff ∷ 0x7f00 ∷ 1 ∷ [])))
    × (parse_ip (codes "1:2:3:4:5:6:7:8") ≡ some (v6 (1 ∷ 2 ∷ 3 ∷ 4 ∷ 5 ∷ 6 ∷ 7 ∷ 8 ∷ [])))
    × (parse_ip (codes "localhost") ≡ none)
unfolding parsers
parse_ip_forms = (refl, refl, refl, refl, refl, refl, refl, refl, refl)

parse_socket_forms :
    (parse_socket (codes "127.0.0.1:50001") ≡ some (record { ip = v4 127 0 0 1; port = 50_001 }))
    × (parse_socket (codes "[::1]:50001")
        ≡ some (record { ip = v6 (0 ∷ 0 ∷ 0 ∷ 0 ∷ 0 ∷ 0 ∷ 0 ∷ 1 ∷ []); port = 50_001 }))
    × (parse_socket (codes "127.0.0.1:65536") ≡ none)
    × (parse_socket (codes "::1:50001") ≡ none)
unfolding parsers
parse_socket_forms = (refl, refl, refl, refl)

print_forms :
    (ip_to_string (v4 127 0 0 1) ≡ codes "127.0.0.1")
    × (ip_to_string (v6 (0 ∷ 0 ∷ 0 ∷ 0 ∷ 0 ∷ 0 ∷ 0 ∷ 1 ∷ [])) ≡ codes "::1")
    × (ip_to_string (v6 (0x2001 ∷ 0xdb8 ∷ 0 ∷ 0 ∷ 0 ∷ 0 ∷ 8 ∷ 1 ∷ [])) ≡ codes "2001:db8::8:1")
    × (ip_to_string (v6 (0 ∷ 0 ∷ 0 ∷ 0 ∷ 0 ∷ 0xffff ∷ 0x7f00 ∷ 1 ∷ [])) ≡ codes "::ffff:127.0.0.1")
    × (ip_to_string (v6 (1 ∷ 0 ∷ 3 ∷ 4 ∷ 5 ∷ 6 ∷ 7 ∷ 8 ∷ [])) ≡ codes "1:0:3:4:5:6:7:8")
unfolding ip_to_string
print_forms = (refl, refl, refl, refl, refl)
