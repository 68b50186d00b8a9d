-- ===== src/Net/Names.antt =====
-- Names that are no IP addresses.
use electrum_private_relay.Prelude.{
  ℕ, ◌≡◌, ◌≢◌, Bool, true, false, Option, none, some, [], ◌∷◌, Str, codes, to_digit, span_digits,
  eq_ignore_ascii_case, to_lower, arith,
}
use electrum_private_relay.Net.{
  Parser, ◌>>=◌, parse_ip, read_number, number_of, read_groups, read_ipv4, read_ipv6, after_head,
  read_compressed, read_given_char, read_separated,
}

span_digits-none :
    (radix c : ℕ) (s : Str) → to_digit radix c ≡ none → span_digits radix (c ∷ s) ≡ ([], c ∷ s)
unfolding span_digits
span_digits-none radix c s h = rw (h, span_digits)

read_number-none :
    (radix c : ℕ) (most : Option ℕ) (prefix : Bool) (bound : ℕ) (s : Str)
    → to_digit radix c ≡ none
    → read_number radix most prefix bound (c ∷ s) ≡ none
unfolding read_number number_of
read_number-none radix c most prefix bound s h = rw (span_digits-none radix c s h)

read_separated-none :
    {A : Type 0} (c : ℕ) (s : Str) (inner : Parser A)
    → inner (c ∷ s) ≡ none
    → read_separated 0 inner (c ∷ s) ≡ none
unfolding read_separated
read_separated-none c s inner h = h

pub read_ipv4-none : (c : ℕ) (s : Str) → to_digit 10 c ≡ none → read_ipv4 (c ∷ s) ≡ none
unfolding read_ipv4
read_ipv4-none c s h = rw (read_number-none 10 c (some 3) false 256 s h, ◌>>=◌)

read_groups-none :
    (c : ℕ) (s : Str)
    → to_digit 10 c ≡ none
    → to_digit 16 c ≡ none
    → read_groups 8 0 (c ∷ s) ≡ ([], false, c ∷ s)
unfolding read_groups
read_groups-none c s h k = rw (
  read_separated-none c s read_ipv4 (read_ipv4-none c s h),
  read_separated-none c s (read_number 16 (some 4) true 65_536)
      (read_number-none 16 c (some 4) true 65_536 s k),
  read_groups,
)

read_given_char-none : (d c : ℕ) (s : Str) → c ≢ d → read_given_char d (c ∷ s) ≡ none
unfolding read_given_char
read_given_char-none d c s h = ground arith

read_ipv6-none :
    (c : ℕ) (s : Str)
    → to_digit 10 c ≡ none
    → to_digit 16 c ≡ none
    → c ≢ b':'
    → read_ipv6 (c ∷ s) ≡ none
unfolding read_ipv6 after_head read_compressed
read_ipv6-none c s h k colon =
    rw (read_groups-none c s h k, read_given_char-none b':' c s colon, ◌>>=◌)

-- A text that begins with neither a hexadecimal digit nor a colon is no IP address.
parse_ip-none :
    (c : ℕ) (s : Str)
    → to_digit 10 c ≡ none
    → to_digit 16 c ≡ none
    → c ≢ b':'
    → parse_ip (c ∷ s) ≡ none
unfolding parse_ip
parse_ip-none c s h k colon = rw (read_ipv4-none c s h, read_ipv6-none c s h k colon)

-- `localhost`, in any case, is no IP address.
pub parse_ip-localhost :
    (s : Str) → eq_ignore_ascii_case s (codes "localhost") ≡ true → parse_ip s ≡ none
unfolding eq_ignore_ascii_case
parse_ip-localhost [] h = absurd (ground arith)
parse_ip-localhost (c ∷ s) h =
    let first : to_lower c ≡ b'l' = ground arith in
    parse_ip-none c s (ground arith) (ground arith) (ground arith)
