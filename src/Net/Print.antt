-- ===== src/Net/Print.antt =====
-- `Display` of `std::net::IpAddr`.
use electrum_private_relay.Prelude.{
  ℕ, zero, suc, ◌+◌, ◌-◌, ◌/◌, ◌%◌, List, [], ◌∷◌, ◌++◌, Str, codes, ltb, ◌==◌, if◌then◌else◌,
}
use electrum_private_relay.Net.{IpAddr, v4, v6}

digit : ℕ → ℕ
digit d = if ltb d 10 then b'0' + d else b'a' + d - 10

-- A byte in decimal.
decimal : ℕ → Str
unfolding digit
decimal n =
    if ltb n 10
    then digit n ∷ []
    else if ltb n 100
    then digit (n / 10) ∷ digit (n % 10) ∷ []
    else digit (n / 100) ∷ digit (n / 10 % 10) ∷ digit (n % 10) ∷ []

-- A segment in hexadecimal.
hexadecimal : ℕ → Str
unfolding digit
hexadecimal n =
    if ltb n 16
    then digit n ∷ []
    else if ltb n 256
    then digit (n / 16) ∷ digit (n % 16) ∷ []
    else if ltb n 4096
    then digit (n / 256) ∷ digit (n / 16 % 16) ∷ digit (n % 16) ∷ []
    else digit (n / 4096) ∷ digit (n / 256 % 16) ∷ digit (n / 16 % 16) ∷ digit (n % 16) ∷ []

print_v4 : ℕ → ℕ → ℕ → ℕ → Str
unfolding decimal
print_v4 a b c d = decimal a ++ b'.' ∷ decimal b ++ b'.' ∷ decimal c ++ b'.' ∷ decimal d

-- Segments joined by `:`.
print_segments : List ℕ → Str
unfolding hexadecimal
print_segments [] = []
print_segments (s ∷ []) = hexadecimal s
print_segments (s ∷ t ∷ rest) = hexadecimal s ++ b':' ∷ print_segments (t ∷ rest)

-- How many zeros a list begins with.
zero_run : List ℕ → ℕ
zero_run [] = 0
zero_run (s ∷ rest) = if s == 0 then suc (zero_run rest) else 0

longest : ℕ × ℕ → ℕ → List ℕ → ℕ × ℕ
unfolding zero_run
longest best index [] = best
longest (start, size) index (s ∷ rest) =
    longest (if ltb size (zero_run (s ∷ rest)) then (index, zero_run (s ∷ rest)) else (start, size))
      (suc index) rest

take : ℕ → List ℕ → List ℕ
take zero l = []
take (suc n) [] = []
take (suc n) (s ∷ rest) = s ∷ take n rest

drop : ℕ → List ℕ → List ℕ
drop zero l = l
drop (suc n) [] = []
drop (suc n) (s ∷ rest) = drop n rest

-- The first longest run of two zero segments or more becomes `::`.
print_run : List ℕ → ℕ × ℕ → Str
unfolding print_segments take drop
print_run segments (start, size) =
    if ltb 1 size
    then print_segments (take start segments)
      ++ b':' ∷ b':' ∷ print_segments (drop (start + size) segments)
    else print_segments segments

print_v6 : List ℕ → Str
unfolding print_run longest print_v4
print_v6 (zero ∷ zero ∷ zero ∷ zero ∷ zero ∷ s ∷ ab ∷ cd ∷ []) =
    if s == 65_535
    then codes "::ffff:" ++ print_v4 (ab / 256) (ab % 256) (cd / 256) (cd % 256)
    else print_run (0 ∷ 0 ∷ 0 ∷ 0 ∷ 0 ∷ s ∷ ab ∷ cd ∷ [])
        (longest (0, 0) 0 (0 ∷ 0 ∷ 0 ∷ 0 ∷ 0 ∷ s ∷ ab ∷ cd ∷ []))
print_v6 segments = print_run segments (longest (0, 0) 0 segments)

-- `IpAddr::to_string`
unfoldable pub ip_to_string : IpAddr → Str
unfolding print_v4 print_v6
ip_to_string (v4 a b c d) = print_v4 a b c d
ip_to_string (v6 segments) = print_v6 segments
