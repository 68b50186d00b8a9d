-- ===== src/Prelude/Decimal.antt =====
-- `u16::to_string` of Rust, and that its digits read back.
use Prim.Native.Nat.{ℕ, ◌+◌, ◌/◌, ◌%◌, ◌≤◌, ◌<◌}
use mathlib.Core.Path.{◌≡◌, refl}
use mathlib.Core.Option.{some}
use mathlib.Core.List.{List, [], ◌∷◌, map}
use native.Mathlib.Omega.{arith}
use electrum_private_relay.Prelude.Tests.{ltb, if◌then◌else◌}
use electrum_private_relay.Prelude.Lists.{All}
use electrum_private_relay.Prelude.Text.{Str}
use electrum_private_relay.Prelude.Scan.{span_digits, value_of, parse_u16}

-- The decimal digits of a number of 16 bits.
unfoldable pub u16_digits : ℕ → ℕ × List ℕ
u16_digits n =
    if ltb n 10
    then (n, [])
    else if ltb n 100
    then (n / 10, n % 10 ∷ [])
    else if ltb n 1_000
    then (n / 100, n / 10 % 10 ∷ n % 10 ∷ [])
    else if ltb n 10_000
    then (n / 1_000, n / 100 % 10 ∷ n / 10 % 10 ∷ n % 10 ∷ [])
    else (n / 10_000, n / 1_000 % 10 ∷ n / 100 % 10 ∷ n / 10 % 10 ∷ n % 10 ∷ [])

abbrev digits_to_string : ℕ × List ℕ → Str
digits_to_string (d, ds) = map (λ digit. b'0' + digit) (d ∷ ds)

unfoldable pub u16_to_string : ℕ → Str
u16_to_string n = digits_to_string (u16_digits n)

abbrev IsDigits : ℕ × List ℕ → Type 0
IsDigits (d, ds) = (d ≤ 9) × All (λ digit. digit ≤ 9) ds

u16_digits-IsDigits : (n : ℕ) → n < 65_536 → IsDigits (u16_digits n)
unfolding u16_digits
u16_digits-IsDigits n h = ground arith

value_of-u16_digits : (n : ℕ) → n < 65_536 → value_of 10 0 ((u16_digits n).0 ∷ (u16_digits n).1) ≡ n
unfolding u16_digits value_of
value_of-u16_digits n h = ground arith

span_digits-map :
    (ds : List ℕ)
    → All (λ digit. digit ≤ 9) ds
    → span_digits 10 (map (λ digit. b'0' + digit) ds) ≡ (ds, [])
unfolding span_digits
span_digits-map [] h = refl
span_digits-map (d ∷ ds) h = ground (arith, span_digits-map ds h.1)

-- A printed number reads back, whatever of `std` reads it: its digits are all of the text.
span_digits-u16_to_string :
    (n : ℕ)
    → n < 65_536
    → span_digits 10 (u16_to_string n) ≡ ((u16_digits n).0 ∷ (u16_digits n).1, [])
unfolding u16_to_string
span_digits-u16_to_string n h =
    let (first, others) = u16_digits-IsDigits n h in
    span_digits-map ((u16_digits n).0 ∷ (u16_digits n).1) (first, others)

pub value_of-u16_to_string :
    (n : ℕ)
    → n < 65_536
    → (d : ℕ) × (ds : List ℕ) × (span_digits 10 (u16_to_string n) ≡ (d ∷ ds, []))
      × (value_of 10 0 (d ∷ ds) ≡ n)
value_of-u16_to_string n h =
    ((u16_digits n).0, (u16_digits n).1, span_digits-u16_to_string n h, value_of-u16_digits n h)

abbrev pub IsDigit : ℕ → Type 0
IsDigit c = (b'0' ≤ c) × (c ≤ b'9')

map-IsDigit :
    (ds : List ℕ) → All (λ digit. digit ≤ 9) ds → All IsDigit (map (λ digit. b'0' + digit) ds)
map-IsDigit [] h = tt
map-IsDigit (d ∷ ds) h = ((omega arith, omega (arith, h.0)), map-IsDigit ds h.1)

pub u16_to_string-IsDigit : (n : ℕ) → n < 65_536 → All IsDigit (u16_to_string n)
unfolding u16_to_string
u16_to_string-IsDigit n h =
    let (first, others) = u16_digits-IsDigits n h in
    map-IsDigit ((u16_digits n).0 ∷ (u16_digits n).1) (first, others)

pub parse_u16-u16_to_string : (n : ℕ) → n < 65_536 → parse_u16 (u16_to_string n) ≡ some n
unfolding parse_u16
parse_u16-u16_to_string n h =
    let (d, ds, spans, is_value) = value_of-u16_to_string n h in ground (arith, spans, is_value, h)
