-- ===== src/Prelude/Text.antt =====
-- Rust's `str`: a list of Unicode scalar values with its UTF-8 bytes, and the methods of `str`,
-- `u8` and `char` that the program calls.
use Prim.Native.Char.{code}
use Prim.Native.Nat.{ℕ, ◌+◌, ◌/◌, ◌%◌, ◌<◌}
use Prim.Native.String.{String}
use mathlib.Core.Path.{◌≡◌, refl, ap₂, ◌∙◌}
use mathlib.Core.Logic.{◌↔◌}
use mathlib.Core.Bool.{Bool, true, false, ◌&&◌, ◌||◌}
use mathlib.Core.List.{List, [], ◌∷◌, ◌++◌, map}
use native.Mathlib.Omega.{arith}
use electrum_private_relay.Prelude.Tests.{ltb, leb, ◌==◌, if◌then◌else◌}
use electrum_private_relay.Prelude.Lists.{length, length-append, all, all-append}

abbrev pub Bytes : Type 0
Bytes = List ℕ

abbrev pub Str : Type 0
Str = List ℕ

-- A text literal.
abbrev pub codes : String → Str
codes String.[] = []
codes (String.◌∷◌ c s) = code c ∷ codes s

-- The UTF-8 encoding of one scalar value.
pub utf8 : ℕ → Bytes
utf8 c =
    if ltb c 0x80
    then c ∷ []
    else if ltb c 0x800
    then (0xc0 + c / 64) ∷ (0x80 + c % 64) ∷ []
    else if ltb c 0x1_0000
    then (0xe0 + c / 4096) ∷ (0x80 + c / 64 % 64) ∷ (0x80 + c % 64) ∷ []
    else (0xf0 + c / 262144) ∷ (0x80 + c / 4096 % 64) ∷ (0x80 + c / 64 % 64) ∷ (0x80 + c % 64) ∷ []

unfoldable pub bytes : Str → Bytes
unfolding utf8
bytes [] = []
bytes (c ∷ s) = utf8 c ++ bytes s

-- `str::len` counts bytes.
abbrev pub len : Str → ℕ
len s = length (bytes s)

-- `==` on texts.
unfoldable pub str_eq : Str → Str → Bool
str_eq [] [] = true
str_eq (c ∷ s) (d ∷ t) = c == d && str_eq s t
str_eq _ _ = false

pub str_eq_iff : (s t : Str) → (str_eq s t ≡ true) ↔ (s ≡ t)
unfolding str_eq
str_eq_iff [] [] = ground arith
str_eq_iff [] (d ∷ t) = ground arith
str_eq_iff (c ∷ s) [] = ground arith
str_eq_iff (c ∷ s) (d ∷ t) = ground (arith, str_eq_iff s t)

pub str_eq_refl : (s : Str) → str_eq s s ≡ true
str_eq_refl s = (str_eq_iff s s).1 refl

-- `u8::is_ascii_hexdigit`
abbrev pub is_ascii_hexdigit : ℕ → Bool
is_ascii_hexdigit b =
    leb b'0' b && leb b b'9' || leb b'a' b && leb b b'f' || leb b'A' b && leb b b'F'

-- `u8::to_ascii_lowercase`
abbrev pub to_lower : ℕ → ℕ
to_lower b = if leb b'A' b && leb b b'Z' then b + 32 else b

-- `str::to_ascii_lowercase`
unfoldable pub to_ascii_lowercase : Str → Str
to_ascii_lowercase s = map to_lower s

-- A byte test that only ASCII bytes pass holds of the bytes of a text when it holds of its scalars.
pub all-utf8 : (p : ℕ → Bool) (c : ℕ) → ((b : ℕ) → p b ≡ true → b < 0x80) → all p (utf8 c) ≡ p c
unfolding utf8
all-utf8 p c ascii =
    ground
      (arith, ascii c, ascii (0xc0 + c / 64), ascii (0xe0 + c / 4096), ascii (0xf0 + c / 262144))

pub all-bytes :
    (p : ℕ → Bool) (s : Str) → ((b : ℕ) → p b ≡ true → b < 0x80) → all p (bytes s) ≡ all p s
unfolding bytes
all-bytes p [] ascii = refl
all-bytes p (c ∷ s) ascii =
    all-append p (utf8 c) (bytes s) ∙ ap₂ ◌&&◌ (all-utf8 p c ascii) (all-bytes p s ascii)

-- ASCII texts have one byte for each scalar.
pub len_of_ascii :
    (p : ℕ → Bool) (s : Str) → ((b : ℕ) → p b ≡ true → b < 0x80) → all p s ≡ true → len s ≡ length s
unfolding bytes
len_of_ascii p [] ascii h = refl
len_of_ascii p (c ∷ s) ascii h =
    omega (arith, length-append (utf8 c) (bytes s), one_byte, len_of_ascii p s ascii (ground arith))
  where
    one_byte : length (utf8 c) ≡ 1
    one_byte = unfold utf8 in ground (arith, ascii c)
