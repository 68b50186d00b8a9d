-- ===== src/Prelude/Scan.antt =====
-- The methods of Rust's `str` and `char` that search and cut a text.
use Prim.Native.Nat.{ℕ, suc, ◌+◌, ◌*◌, ◌-◌}
use mathlib.Core.Bool.{Bool, true, false, ◌&&◌, ◌||◌}
use mathlib.Core.Option.{Option, none, some}
use mathlib.Core.List.{List, [], ◌∷◌}
use electrum_private_relay.Prelude.Tests.{ltb, leb, ◌==◌, if◌then◌else◌}
use electrum_private_relay.Prelude.Lists.{all, any, is_empty}
use electrum_private_relay.Prelude.Text.{Str, to_lower}

-- `char::is_whitespace`, the Unicode property White_Space.
abbrev pub is_whitespace : ℕ → Bool
is_whitespace c =
    leb 0x9 c && leb c 0xd
    || c == 0x20
    || c == 0x85
    || c == 0xa0
    || c == 0x1680
    || leb 0x2000 c && leb c 0x200a
    || c == 0x2028
    || c == 0x2029
    || c == 0x202f
    || c == 0x205f
    || c == 0x3000

-- The text without the characters at its start that pass the test.
unfoldable pub drop_while : (ℕ → Bool) → Str → Str
drop_while p [] = []
drop_while p (c ∷ s) = if p c then drop_while p s else c ∷ s

-- The text without the characters at its end that pass the test.
unfoldable pub drop_while_end : (ℕ → Bool) → Str → Str
drop_while_end p [] = []
drop_while_end p (c ∷ s) =
    let rest = drop_while_end p s in if is_empty rest && p c then [] else c ∷ rest

-- `str::trim`
unfoldable pub trim : Str → Str
unfolding drop_while drop_while_end
trim s = drop_while is_whitespace (drop_while_end is_whitespace s)

-- `str::trim_end_matches`
unfoldable pub trim_end_matches : ℕ → Str → Str
unfolding drop_while_end
trim_end_matches d s = drop_while_end (λ c. c == d) s

unfoldable pub starts_with : Str → Str → Bool
starts_with [] s = true
starts_with (d ∷ ds) [] = false
starts_with (d ∷ ds) (c ∷ s) = c == d && starts_with ds s

-- `str::contains` of a text and of a character.
unfoldable pub contains : Str → Str → Bool
unfolding starts_with
contains needle [] = is_empty needle
contains needle (c ∷ s) = starts_with needle (c ∷ s) || contains needle s

abbrev pub contains_char : ℕ → Str → Bool
contains_char d s = any (λ c. c == d) s

unfoldable pub count_char : ℕ → Str → ℕ
count_char d [] = 0
count_char d (c ∷ s) = if c == d then suc (count_char d s) else count_char d s

abbrev pub first_is : ℕ → Str → Bool
first_is d [] = false
first_is d (c ∷ s) = c == d

unfoldable pub last_is : ℕ → Str → Bool
last_is d [] = false
last_is d (c ∷ []) = c == d
last_is d (c ∷ e ∷ s) = last_is d (e ∷ s)

-- `str::strip_suffix` of one character.
unfoldable pub strip_suffix : ℕ → Str → Option Str
strip_suffix d [] = none
strip_suffix d (c ∷ []) = if c == d then some [] else none
strip_suffix d (c ∷ e ∷ s) = elim (strip_suffix d (e ∷ s)) [
  | none ↦ none
  | some rest ↦ some (c ∷ rest)
]

abbrev pub push_first : ℕ → List Str → List Str
push_first c [] = (c ∷ []) ∷ []
push_first c (part ∷ parts) = (c ∷ part) ∷ parts

-- `str::split` at one character: always at least one part.
unfoldable pub split : ℕ → Str → List Str
split d [] = [] ∷ []
split d (c ∷ s) = let parts = split d s in if c == d then [] ∷ parts else push_first c parts

-- `str::rsplit_once` at one character.
unfoldable pub rsplit_once : ℕ → Str → Option (Str × Str)
rsplit_once d [] = none
rsplit_once d (c ∷ s) = elim (rsplit_once d s) [
  | some (before, after) ↦ some (c ∷ before, after)
  | none ↦ if c == d then some ([], s) else none
]

-- `str::eq_ignore_ascii_case`
unfoldable pub eq_ignore_ascii_case : Str → Str → Bool
eq_ignore_ascii_case [] [] = true
eq_ignore_ascii_case (c ∷ s) (d ∷ t) = to_lower c == to_lower d && eq_ignore_ascii_case s t
eq_ignore_ascii_case _ _ = false

abbrev pub is_ascii : Str → Bool
is_ascii s = all (λ c. ltb c 0x80) s

abbrev pub is_ascii_alphanumeric : ℕ → Bool
is_ascii_alphanumeric b =
    leb b'0' b && leb b b'9' || leb b'a' b && leb b b'z' || leb b'A' b && leb b b'Z'

-- `char::to_digit` for a radix of 10 or 16.
abbrev pub to_digit : ℕ → ℕ → Option ℕ
to_digit radix c =
    if leb b'0' c && leb c b'9'
    then some (c - b'0')
    else if leb b'a' c && leb c b'f' && leb 16 radix
    then some (c - b'a' + 10)
    else if leb b'A' c && leb c b'F' && leb 16 radix
    then some (c - b'A' + 10)
    else none

-- The digits at the start of a text, and what follows them.
unfoldable pub span_digits : ℕ → Str → List ℕ × Str
span_digits radix [] = ([], [])
span_digits radix (c ∷ s) = elim (to_digit radix c) [
  | none ↦ ([], c ∷ s)
  | some d ↦ let (ds, rest) = span_digits radix s in (d ∷ ds, rest)
]

unfoldable pub value_of : ℕ → ℕ → List ℕ → ℕ
value_of radix acc [] = acc
value_of radix acc (d ∷ ds) = value_of radix (acc * radix + d) ds

abbrev strip_plus : Str → Str
strip_plus [] = []
strip_plus (c ∷ s) = if c == b'+' then s else c ∷ s

abbrev parsed_u16 : List ℕ × Str → Option ℕ
parsed_u16 ([], rest) = none
parsed_u16 (d ∷ ds, []) = let n = value_of 10 0 (d ∷ ds) in if ltb n 65_536 then some n else none
parsed_u16 (d ∷ ds, c ∷ rest) = none

-- `str::parse::<u16>`: decimal digits, after one `+` or none.
unfoldable pub parse_u16 : Str → Option ℕ
unfolding span_digits value_of
parse_u16 s = parsed_u16 (span_digits 10 (strip_plus s))
