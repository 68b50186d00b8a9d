-- ===== src/Net/Locality/V6.antt =====
-- The parser of an IPv6 address does not look past it, and takes a colon.
use electrum_private_relay.Prelude.{
  ℕ, zero, suc, ◌-◌, ◌≡◌, ◌≢◌, inl, inr, refl, Bool, true, none, some, List, ◌∷◌, ◌++◌, Str, length,
  Option-cases, Bool-cases, to_digit, leb, ◌==◌,
}
use electrum_private_relay.Net.{
  Parser, read_number, read_ipv4, read_separated, read_groups, read_tail, read_compressed,
  after_head, read_ipv6,
}
use electrum_private_relay.Net.Locality.{
  push, Extends, bind-Extends, read_number-Extends, read_given_char-Extends, read_ipv4-Extends,
}

-- `c` cannot stand in an IP address.
pub record IsEnd (c : ℕ) : Type 0 where
  pub no_decimal : to_digit 10 c ≡ none
  pub no_hexadecimal : to_digit 16 c ≡ none
  pub no_dot : c ≢ b'.'
  pub no_colon : c ≢ b':'

abbrev push_rest : Str → List ℕ × Bool × Str → List ℕ × Bool × Str
push_rest u (groups, ended, rest) = (groups, ended, rest ++ u)

read_separated-Extends :
    {A : Type 0} (c : ℕ) (t : Str) (inner : Parser A) (index : ℕ)
    → c ≢ b':'
    → Extends (c ∷ t) inner
    → Extends (c ∷ t) (read_separated index inner)
unfolding read_separated
read_separated-Extends c t inner zero h inside = inside
read_separated-Extends c t inner (suc index) h inside =
    bind-Extends (c ∷ t) _ _ (read_given_char-Extends b':' c t h) (λ _. inside)

module _ (c : ℕ) (t : Str) (h : IsEnd c) where
  number-Extends :
      (index : ℕ) → Extends (c ∷ t) (read_separated index (read_number 16 (some 4) true 65_536))
  number-Extends index =
      read_separated-Extends c t _ index h.no_colon
        (read_number-Extends 16 c (some 4) true 65_536 t h.no_hexadecimal)

  ipv4-Extends : (index : ℕ) → Extends (c ∷ t) (read_separated index read_ipv4)
  ipv4-Extends index =
      read_separated-Extends c t _ index h.no_colon (read_ipv4-Extends c t h.no_decimal h.no_dot)

  read_groups-push :
      (left index : ℕ) (s : Str)
      → read_groups left index (s ++ c ∷ t) ≡ push_rest (c ∷ t) (read_groups left index s)
  unfolding read_groups
  read_groups-push zero index s = refl
  read_groups-push (suc left) index s = elim (Bool-cases (leb 1 left)) [
    | inr few ↦ elim (Option-cases (read_separated index (read_number 16 (some 4) true 65_536) s)) [
      | inl q ↦ rw (few, number-Extends index s, q, read_groups) refl
      | inr ((g, rest), q) ↦
          rw (few, number-Extends index s, q, read_groups-push left (suc index) rest, read_groups)
            refl
    ]
    | inl more ↦ elim (Option-cases (read_separated index read_ipv4 s)) [
      | inr ((ip, rest), q) ↦ rw (more, ipv4-Extends index s, q, read_groups) refl
      | inl none_v4 ↦
          elim (Option-cases (read_separated index (read_number 16 (some 4) true 65_536) s)) [
            | inl q ↦
                rw (more, ipv4-Extends index s, none_v4, number-Extends index s, q, read_groups)
                  refl
            | inr ((g, rest), q) ↦
                rw
                  (
                    more,
                    ipv4-Extends index s,
                    none_v4,
                    number-Extends index s,
                    q,
                    read_groups-push left (suc index) rest,
                    read_groups,
                  )
                  refl
          ]
    ]
  ]

  read_tail-Extends : (head : List ℕ) → Extends (c ∷ t) (read_tail head)
  unfolding read_tail
  read_tail-Extends head s = rw (read_groups-push (7 - length head) 0 s) refl

  read_compressed-Extends : (head : List ℕ) → Extends (c ∷ t) (read_compressed head)
  unfolding read_compressed
  read_compressed-Extends head =
      let colon = read_given_char-Extends b':' c t h.no_colon in
      bind-Extends (c ∷ t) _ _ colon
        (λ _. bind-Extends (c ∷ t) _ _ colon (λ _. read_tail-Extends head))

  after_head-push :
      (r : List ℕ × Bool × Str) → after_head (push_rest (c ∷ t) r) ≡ push (c ∷ t) (after_head r)
  unfolding after_head
  after_head-push (head, ended, rest) = elim (Bool-cases (length head == 8)) [
    | inl full ↦ rw full refl
    | inr short ↦ elim (Bool-cases ended) [
      | inl e ↦ rw (short, e) refl
      | inr e ↦ rw (short, e) (read_compressed-Extends head rest)
    ]
  ]

  pub read_ipv6-Extends : Extends (c ∷ t) read_ipv6
  unfolding read_ipv6
  read_ipv6-Extends s = rw (read_groups-push 8 0 s) (after_head-push (read_groups 8 0 s))
