-- ===== src/Net/Locality.antt =====
-- The parsers of `std::net` read a text from the left and do not look past what they take: a text
-- that follows, and that begins with no character of an address, stays as it is.
pub mod V6
pub mod Kinds
pub mod Sockets
use electrum_private_relay.Prelude.{
  ℕ, zero, suc, ◌≡◌, ◌≢◌, inl, inr, refl, sym, ◌∙◌, ap, Bool, true, false, Option, none, some, List,
  [], ◌∷◌, ◌++◌, Str, All, All-append, Option-cases, to_digit, span_digits, if◌then◌else◌, arith,
}
use mathlib.Core.List.{append_assoc}
use electrum_private_relay.Net.{
  Parser, ◌>>=◌, ◌>>◌, give, read_given_char, number_of, read_number, read_ipv4,
}

-- What is read, with `end ∷ t` after what is left.
abbrev pub push : {A : Type 0} → Str → Option (A × Str) → Option (A × Str)
push u none = none
push u (some (a, rest)) = some (a, rest ++ u)

abbrev pub Extends : {A : Type 0} → Str → Parser A → Type 0
Extends u p = (s : Str) → p (s ++ u) ≡ push u (p s)

-- What a parser takes has only characters that satisfy `P`.
abbrev pub Takes : {A : Type 0} → (ℕ → Type 0) → Parser A → Type 0
Takes {A} P p =
    (s rest : Str) (a : A)
    → p s ≡ some (a, rest)
    → (taken : Str) × (s ≡ taken ++ rest) × All P taken

pub bind-Extends :
    {A B : Type 0} (u : Str) (m : Parser A) (f : A → Parser B)
    → Extends u m
    → ((a : A) → Extends u (f a))
    → Extends u (m >>= f)
bind-Extends u m f hm hf s = elim (Option-cases (m s)) [
  | inl q ↦ rw (hm s, q, ◌>>=◌) refl
  | inr ((a, rest), q) ↦ rw (hm s, q, ◌>>=◌) (hf a rest)
]

span_digits-push :
    (radix c : ℕ) (t s : Str)
    → to_digit radix c ≡ none
    → span_digits radix (s ++ c ∷ t) ≡ ((span_digits radix s).0, (span_digits radix s).1 ++ c ∷ t)
unfolding span_digits
span_digits-push radix c t [] h = rw (h, span_digits) refl
span_digits-push radix c t (d ∷ s) h = elim (Option-cases (to_digit radix d)) [
  | inl q ↦ rw (q, span_digits) refl
  | inr (digit, q) ↦ rw (q, span_digits-push radix c t s h, span_digits) refl
]

number_of-push :
    (radix : ℕ) (most : Option ℕ) (prefix : Bool) (bound : ℕ) (ds : List ℕ) (rest u : Str)
    → number_of radix most prefix bound (ds, rest ++ u)
      ≡ push u (number_of radix most prefix bound (ds, rest))
unfolding number_of
number_of-push radix most prefix bound [] rest u = refl
number_of-push radix most prefix bound (d ∷ ds) rest u = ground arith

pub read_number-Extends :
    (radix c : ℕ) (most : Option ℕ) (prefix : Bool) (bound : ℕ) (t : Str)
    → to_digit radix c ≡ none
    → Extends (c ∷ t) (read_number radix most prefix bound)
unfolding read_number
read_number-Extends radix c most prefix bound t h s =
    rw (span_digits-push radix c t s h) (
      number_of-push radix most prefix bound (span_digits radix s).0 (span_digits radix s).1
        (c ∷ t))

pub read_given_char-Extends : (d c : ℕ) (t : Str) → c ≢ d → Extends (c ∷ t) (read_given_char d)
unfolding read_given_char
read_given_char-Extends d c t h [] = ground arith
read_given_char-Extends d c t h (e ∷ s) = ground arith

give-Extends : {A : Type 0} (u : Str) (a : A) → Extends u (give a)
give-Extends u a s = refl

pub read_ipv4-Extends :
    (c : ℕ) (t : Str) → to_digit 10 c ≡ none → c ≢ b'.' → Extends (c ∷ t) read_ipv4
unfolding read_ipv4
read_ipv4-Extends c t h dot =
    let number = read_number-Extends 10 c (some 3) false 256 t h in
    let point = read_given_char-Extends b'.' c t dot in
    bind-Extends (c ∷ t) _ _ number (λ a. bind-Extends (c ∷ t) _ _ point (λ _.
      bind-Extends (c ∷ t) _ _ number (λ b. bind-Extends (c ∷ t) _ _ point (λ _.
        bind-Extends (c ∷ t) _ _ number (λ x.
          bind-Extends (c ∷ t) _ _ point
            (λ _. bind-Extends (c ∷ t) _ _ number (λ d. give-Extends (c ∷ t) _)))))))

bind-Takes :
    {A B : Type 0} (P : ℕ → Type 0) (m : Parser A) (f : A → Parser B)
    → Takes P m
    → ((a : A) → Takes P (f a))
    → Takes P (m >>= f)
bind-Takes P m f hm hf s rest b h = elim (Option-cases (m s)) [
  | inl q ↦ absurd (ground (arith, q, h))
  | inr ((a, middle), q) ↦
      let (first, is_first, good) = hm s middle a q in
      let (second, is_second, fine) = hf a middle rest b (rw (q, ◌>>=◌) at h) in
      (
        first ++ second,
        is_first ∙ ap (λ x. first ++ x) is_second ∙ sym (append_assoc first second rest),
        All-append P first second good fine,
      )
]

abbrev pub IsNoColon : ℕ → Type 0
IsNoColon c = c ≢ b':'

span_digits-taken :
    (radix : ℕ) (s : Str)
    → (taken : Str) × (s ≡ taken ++ (span_digits radix s).1) × All IsNoColon taken
unfolding span_digits
span_digits-taken radix [] = ([], refl, tt)
span_digits-taken radix (c ∷ s) = elim (Option-cases (to_digit radix c)) [
  | inl q ↦ ([], rw (q, span_digits) refl, tt)
  | inr (d, q) ↦
      let (taken, same, good) = span_digits-taken radix s in
      (c ∷ taken, rw (q, span_digits) (ap (λ x. c ∷ x) same), (ground (arith, q), good))
]

number_of-rest :
    (radix : ℕ) (most : Option ℕ) (prefix : Bool) (bound n : ℕ) (ds : List ℕ) (rest last : Str)
    → number_of radix most prefix bound (ds, rest) ≡ some (n, last)
    → rest ≡ last
unfolding number_of
number_of-rest radix most prefix bound n [] rest last h = absurd (ground arith)
number_of-rest radix most prefix bound n (d ∷ ds) rest last h = ground arith

pub read_number-Takes :
    (radix : ℕ) (most : Option ℕ) (prefix : Bool) (bound : ℕ)
    → Takes IsNoColon (read_number radix most prefix bound)
unfolding read_number
read_number-Takes radix most prefix bound s rest n h =
    let (taken, same, good) = span_digits-taken radix s in
    let left =
      number_of-rest radix most prefix bound n (span_digits radix s).0 (span_digits radix s).1 rest
        h in
    (taken, same ∙ ap (λ x. taken ++ x) left, good)

read_given_char-Takes : (d : ℕ) → d ≢ b':' → Takes IsNoColon (read_given_char d)
unfolding read_given_char
read_given_char-Takes d h [] rest u q = absurd (ground arith)
read_given_char-Takes d h (c ∷ s) rest u q = (c ∷ [], ground (arith, q), (ground (arith, q, h), tt))

pub read_ipv4-Takes : Takes IsNoColon read_ipv4
unfolding read_ipv4
read_ipv4-Takes =
    let number = read_number-Takes 10 (some 3) false 256 in
    let point = read_given_char-Takes b'.' (λ h. absurd (ground arith)) in
    bind-Takes IsNoColon _ _ number (λ a. bind-Takes IsNoColon _ _ point (λ _.
      bind-Takes IsNoColon _ _ number (λ b. bind-Takes IsNoColon _ _ point (λ _.
        bind-Takes IsNoColon _ _ number (λ x.
          bind-Takes IsNoColon _ _ point (λ _.
            bind-Takes IsNoColon _ _ number (λ d s rest ip h. ([], ground (arith, h), tt))))))))
