-- ===== src/Net.antt =====
-- Rust's `std::net`: IP and socket addresses and their parsers, as src/endpoint.rs and
-- src/config.rs use them. An IPv6 address is the list of its eight segments.
pub mod Print
pub mod Names
pub mod Locality
mod Tests
use electrum_private_relay.Prelude.{
  ℕ, zero, suc, ◌+◌, ◌-◌, ◌*◌, Bool, true, false, not, ◌&&◌, ◌||◌, Option, none, some, List, [],
  ◌∷◌, ◌++◌, Str, length, ltb, leb, ◌==◌, if◌then◌else◌, str_eq, first_is, span_digits, value_of,
}

pub data IpAddr : Type 0 where
  v4 : ℕ → ℕ → ℕ → ℕ → IpAddr
  v6 : List ℕ → IpAddr

pub record SocketAddr : Type 0 where
  pub ip : IpAddr
  pub port : ℕ

unfoldable pub is_loopback : IpAddr → Bool
unfolding str_eq
is_loopback (v4 a b c d) = a == 127
is_loopback (v6 segments) = str_eq segments (0 ∷ 0 ∷ 0 ∷ 0 ∷ 0 ∷ 0 ∷ 0 ∷ 1 ∷ [])

unfoldable pub is_unspecified : IpAddr → Bool
unfolding str_eq
is_unspecified (v4 a b c d) = a == 0 && b == 0 && c == 0 && d == 0
is_unspecified (v6 segments) = str_eq segments (0 ∷ 0 ∷ 0 ∷ 0 ∷ 0 ∷ 0 ∷ 0 ∷ 0 ∷ [])

-- `==` on addresses.
unfoldable pub ip_eq : IpAddr → IpAddr → Bool
unfolding str_eq
ip_eq (v4 a b c d) (v4 a' b' c' d') = a == a' && b == b' && c == c' && d == d'
ip_eq (v6 s) (v6 t) = str_eq s t
ip_eq (v4 a b c d) (v6 t) = false
ip_eq (v6 s) (v4 a b c d) = false

-- A parser of `std::net`: what it read, and the text that is left.
abbrev pub Parser : Type 0 → Type 0
Parser A = Str → Option (A × Str)

infixl 5 ◌>>=◌ ◌>>◌
abbrev pub ◌>>=◌ : {A B : Type 0} → Parser A → (A → Parser B) → Parser B
◌>>=◌ m f s = elim (m s) [ none ↦ none | some (a, rest) ↦ f a rest ]

abbrev pub ◌>>◌ : {A B : Type 0} → Parser A → Parser B → Parser B
m >> k = m >>= λ _. k

abbrev pub give : {A : Type 0} → A → Parser A
give a s = some (a, s)

pub read_given_char : ℕ → Parser (Unit {0})
read_given_char d [] = none
read_given_char d (c ∷ s) = if c == d then some (tt, s) else none

-- The checks of `read_number` on the digits that it took: how many, a leading zero, the range.
pub number_of : ℕ → Option ℕ → Bool → ℕ → List ℕ × Str → Option (ℕ × Str)
number_of radix max_digits allow_zero_prefix bound ([], rest) = none
number_of radix max_digits allow_zero_prefix bound (d ∷ ds, rest) =
    if elim max_digits [ none ↦ false | some most ↦ ltb most (length (d ∷ ds)) ]
      || not allow_zero_prefix && d == 0 && ltb 1 (length (d ∷ ds))
      || leb bound (value_of radix 0 (d ∷ ds))
    then none
    else some (value_of radix 0 (d ∷ ds), rest)

pub read_number : ℕ → Option ℕ → Bool → ℕ → Parser ℕ
read_number radix max_digits allow_zero_prefix bound s =
    number_of radix max_digits allow_zero_prefix bound (span_digits radix s)

pub read_ipv4 : Parser IpAddr
read_ipv4 = do
  a ← read_number 10 (some 3) false 256
  read_given_char b'.'
  b ← read_number 10 (some 3) false 256
  read_given_char b'.'
  c ← read_number 10 (some 3) false 256
  read_given_char b'.'
  d ← read_number 10 (some 3) false 256
  give (v4 a b c d)

-- `read_separator(':', index, inner)`
pub read_separated : {A : Type 0} → ℕ → Parser A → Parser A
read_separated zero inner = inner
read_separated (suc index) inner = do read_given_char b':'; inner

abbrev pub segments_of : IpAddr → List ℕ
segments_of (v4 a b c d) = (a * 256 + b) ∷ (c * 256 + d) ∷ []
segments_of (v6 segments) = segments

-- `read_groups` with `left` groups to go: the groups, whether an IPv4 address ended them, the rest.
pub read_groups : ℕ → ℕ → Str → List ℕ × Bool × Str
read_groups zero index s = ([], false, s)
read_groups (suc left) index s =
    let group : List ℕ × Bool × Str =
      elim (read_separated index (read_number 16 (some 4) true 65_536) s) [
        | none ↦ ([], false, s)
        | some (g, rest) ↦
            let (gs, ended, last) = read_groups left (suc index) rest in (g ∷ gs, ended, last)
      ] in
    elim (if leb 1 left then read_separated index read_ipv4 s else none) [
      | some (ip, rest) ↦ (segments_of ip, true, rest)
      | none ↦ group
    ]

pub zeros : ℕ → List ℕ
zeros zero = []
zeros (suc n) = 0 ∷ zeros n

-- After `::`.
pub read_tail : List ℕ → Parser IpAddr
read_tail head s =
    let (tail, _, rest) = read_groups (7 - length head) 0 s in
    some (v6 (head ++ zeros (8 - length head - length tail) ++ tail), rest)

pub read_compressed : List ℕ → Parser IpAddr
read_compressed head = do read_given_char b':'; read_given_char b':'; read_tail head

pub after_head : List ℕ × Bool × Str → Option (IpAddr × Str)
after_head (head, ended, rest) =
    if length head == 8
    then some (v6 head, rest)
    else if ended
    then none
    else read_compressed head rest

pub read_ipv6 : Parser IpAddr
read_ipv6 s = after_head (read_groups 8 0 s)

abbrev pub or_else : {A : Type 0} → Option A → Option A → Option A
or_else none b = b
or_else (some a) b = some a

-- `parse_with`: nothing may be left.
abbrev pub whole : {A : Type 0} → Option (A × Str) → Option A
whole none = none
whole (some (a, [])) = some a
whole (some (a, c ∷ rest)) = none

-- `str::parse::<IpAddr>`
unfoldable pub parse_ip : Str → Option IpAddr
parse_ip s = whole (or_else (read_ipv4 s) (read_ipv6 s))

pub read_port : Parser ℕ
read_port = do read_given_char b':'; read_number 10 none true 65_536

pub read_socket_v4 : Parser SocketAddr
read_socket_v4 = do ip ← read_ipv4; port ← read_port; give (record { ip = ip; port = port })

-- An optional scope, `%` and a number; the program never reads it.
pub skip_scope : Str → Option (Unit {0} × Str)
skip_scope [] = some (tt, [])
skip_scope (c ∷ s) = elim (if c == b'%' then read_number 10 none true 4_294_967_296 s else none) [
  | none ↦ some (tt, c ∷ s)
  | some (scope, rest) ↦ some (tt, rest)
]

pub read_socket_v6 : Parser SocketAddr
read_socket_v6 = do
  read_given_char b'['
  ip ← read_ipv6
  skip_scope
  read_given_char b']'
  port ← read_port
  give (record { ip = ip; port = port })

-- `str::parse::<SocketAddr>`
unfoldable pub parse_socket : Str → Option SocketAddr
parse_socket s = whole (or_else (read_socket_v4 s) (read_socket_v6 s))

-- What a test of the parsers computes with.
unfoldable pub parsers : Unit {0}
unfolding parse_ip parse_socket read_socket_v4 read_socket_v6 skip_scope read_port read_ipv6
    after_head read_compressed read_tail zeros read_groups read_separated read_ipv4 read_number
    number_of read_given_char span_digits value_of
parsers = tt
