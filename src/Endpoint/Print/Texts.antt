-- ===== src/Endpoint/Print/Texts.antt =====
-- The tests that src/endpoint.rs makes on a text before it parses it, on the text of a host and a
-- port.
use electrum_private_relay.Prelude.{
  ℕ, ◌+◌, ◌<◌, ◌≡◌, ◌≢◌, inl, inr, refl, subst, false, none, some, List, [], ◌∷◌, ◌++◌, Str, All,
  Option-cases, Bool-cases, ◌==◌, is_whitespace, trim, drop_while, drop_while_end, count_char,
  rsplit_once, strip_suffix, split, contains_char, push_first, u16_to_string, u16_to_string-IsDigit,
  IsDigit, arith,
}
use electrum_private_relay.Net.Locality.{IsNoColon}
use electrum_private_relay.Endpoint.{dns_name}
use electrum_private_relay.Endpoint.Hosts.{IsPlainChar, IsDnsLabel, IsDnsHost}

abbrev pub IsNoSpace : ℕ → Type 0
IsNoSpace c = is_whitespace c ≡ false

All-map : {A : Type 0} (P Q : A → Type 0) (s : List A) → ((a : A) → P a → Q a) → All P s → All Q s
All-map P Q [] f h = tt
All-map P Q (a ∷ s) f h = (f a h.0, All-map P Q s f h.1)

-- A digit is plain, and no colon.
record IsHarmless (c : ℕ) : Type 0 where
  plain : IsPlainChar c
  no_space : IsNoSpace c
  no_colon : IsNoColon c

digit-IsHarmless : (c : ℕ) → IsDigit c → IsHarmless c
digit-IsHarmless c h = record {
  plain = ground arith;
  no_space = ground arith;
  no_colon = ground arith;
}

pub record IsHarmlessText (s : Str) : Type 0 where
  pub plain : All IsPlainChar s
  pub no_space : All IsNoSpace s
  pub no_colon : All IsNoColon s

pub u16_to_string-IsHarmlessText : (n : ℕ) → n < 65_536 → IsHarmlessText (u16_to_string n)
u16_to_string-IsHarmlessText n h =
    let digits = u16_to_string-IsDigit n h in
    record {
      plain =
          All-map IsDigit IsPlainChar (u16_to_string n) (λ c d. (digit-IsHarmless c d).plain)
            digits;
      no_space =
          All-map IsDigit IsNoSpace (u16_to_string n) (λ c d. (digit-IsHarmless c d).no_space)
            digits;
      no_colon =
          All-map IsDigit IsNoColon (u16_to_string n) (λ c d. (digit-IsHarmless c d).no_colon)
            digits;
    }

drop_while_end-none : (s : Str) → All IsNoSpace s → drop_while_end is_whitespace s ≡ s
unfolding drop_while_end
drop_while_end-none [] h = refl
drop_while_end-none (c ∷ s) h = ground (arith, h.0, drop_while_end-none s h.1)

drop_while-none : (s : Str) → All IsNoSpace s → drop_while is_whitespace s ≡ s
unfolding drop_while
drop_while-none [] h = refl
drop_while-none (c ∷ s) h = ground (arith, h.0)

pub trim-IsNoSpace : (s : Str) → All IsNoSpace s → trim s ≡ s
unfolding trim
trim-IsNoSpace s h = rw (drop_while_end-none s h) (drop_while-none s h)

pub count_char-append :
    (d : ℕ) (s t : Str) → count_char d (s ++ t) ≡ count_char d s + count_char d t
unfolding count_char
count_char-append d [] t = omega arith
count_char-append d (c ∷ s) t = ground (arith, count_char-append d s t)

pub count_char-none : (s : Str) → All IsNoColon s → count_char b':' s ≡ 0
unfolding count_char
count_char-none [] h = refl
count_char-none (c ∷ s) h = ground (arith, h.0, count_char-none s h.1)

pub contains_char-false : (s : Str) → (contains_char b':' s ≡ false) → All IsNoColon s
contains_char-false [] h = tt
contains_char-false (c ∷ s) h = (ground arith, contains_char-false s (ground arith))

pub contains_char-none : (s : Str) → All IsNoColon s → contains_char b':' s ≡ false
contains_char-none [] h = refl
contains_char-none (c ∷ s) h = ground (arith, h.0, contains_char-none s h.1)

rsplit_once-none : (s : Str) → All IsNoColon s → rsplit_once b':' s ≡ none
unfolding rsplit_once
rsplit_once-none [] h = refl
rsplit_once-none (c ∷ s) h = ground (arith, h.0, rsplit_once-none s h.1)

pub rsplit_once-append :
    (s t : Str) → All IsNoColon t → rsplit_once b':' (s ++ b':' ∷ t) ≡ some (s, t)
unfolding rsplit_once
rsplit_once-append [] t h = rw (rsplit_once-none t h) refl
rsplit_once-append (c ∷ s) t h = rw (rsplit_once-append s t h) refl

-- The first character of a DNS name.
strip_suffix-first :
    (c : ℕ) (s name : Str)
    → strip_suffix b'.' (c ∷ s) ≡ some name
    → name ≢ []
    → (rest : Str) × (name ≡ c ∷ rest)
unfolding strip_suffix
strip_suffix-first c [] name h k = absurd (k (ground arith))
strip_suffix-first c (d ∷ s) name h k = elim (Option-cases (strip_suffix b'.' (d ∷ s))) [
  | inl q ↦ absurd (ground arith)
  | inr (rest, q) ↦ (rest, ground arith)
]

dns_name-first :
    (c : ℕ) (s : Str) → dns_name (c ∷ s) ≢ [] → (rest : Str) × (dns_name (c ∷ s) ≡ c ∷ rest)
dns_name-first c s h = elim (Option-cases (strip_suffix b'.' (c ∷ s))) [
  | inl q ↦ (s, ground (arith, q))
  | inr (name, q) ↦
      let (rest, same) = strip_suffix-first c s name q (λ e. h (ground (arith, q, e))) in
      (rest, ground (arith, q, same))
]

split-first : (c : ℕ) (s : Str) → All IsDnsLabel (split b'.' (c ∷ s)) → c ≢ b'['
unfolding split
split-first c s h = elim (Bool-cases (c == b'.')) [
  | inl dot ↦ λ e. absurd (ground (arith, dot, e))
  | inr other ↦ go (split b'.' s) (rw other at h)
]
  where
    go : (parts : List Str) → All IsDnsLabel (push_first c parts) → c ≢ b'['
    go [] v = λ e. absurd (ground (arith, v.0.chars.0, e))
    go (part ∷ parts) v = λ e. absurd (ground (arith, v.0.chars.0, e))

pub dns_host-first : (c : ℕ) (s : Str) → IsDnsHost (c ∷ s) → c ≢ b'['
dns_host-first c s h =
    let (rest, same) = dns_name-first c s h.nonempty in
    split-first c rest (subst (λ x. All IsDnsLabel (split b'.' x)) same h.labels)
