-- ===== src/Net/Locality/Kinds.antt =====
-- Which of the two kinds of IP address a text is: an IPv4 address has no colon, an IPv6 address has
-- one.
use electrum_private_relay.Prelude.{
  ℕ, zero, suc, ◌≡◌, ◌≢◌, inl, inr, refl, sym, ◌∙◌, subst, Bool, true, false, Option, none, some,
  List, [], ◌∷◌, ◌++◌, Str, All, length, Option-cases, Bool-cases, leb, ◌==◌, arith,
}
use mathlib.Core.List.{append-nil}
use electrum_private_relay.Net.{
  IpAddr, Parser, ◌>>=◌, or_else, whole, read_given_char, read_number, read_ipv4, read_separated,
  read_groups, read_compressed, after_head, read_ipv6, parse_ip,
}
use electrum_private_relay.Net.Locality.{IsNoColon, read_number-Takes, read_ipv4-Takes}

pub All-right : (P : ℕ → Type 0) (s t : Str) → All P (s ++ t) → All P t
All-right P [] t h = h
All-right P (c ∷ s) t h = All-right P s t h.1

read_given_char-none : (s : Str) → All IsNoColon s → read_given_char b':' s ≡ none
unfolding read_given_char
read_given_char-none [] h = refl
read_given_char-none (c ∷ s) h = ground (arith, h.0)

read_separated-none :
    {A : Type 0} (index : ℕ) (inner : Parser A) (s : Str)
    → All IsNoColon s
    → read_separated (suc index) inner s ≡ none
unfolding read_separated
read_separated-none index inner s h = rw (read_given_char-none s h, ◌>>=◌) refl

-- No further group without a colon.
read_groups-none :
    (left index : ℕ) (s : Str) → All IsNoColon s → read_groups left (suc index) s ≡ ([], false, s)
unfolding read_groups
read_groups-none zero index s h = refl
read_groups-none (suc left) index s h = elim (Bool-cases (leb 1 left)) [
  | inl more ↦
      rw
        (
          more,
          read_separated-none index read_ipv4 s h,
          read_separated-none index (read_number 16 (some 4) true 65_536) s h,
          read_groups,
        )
        refl
  | inr few ↦
      rw (few, read_separated-none index (read_number 16 (some 4) true 65_536) s h, read_groups)
        refl
]

-- So one group at most.
record IsShort (r : List ℕ × Bool × Str) : Type 0 where
  few : (length r.0 == 8) ≡ false
  open_ended : r.1 ≡ false
  no_colon : All IsNoColon r.2

read_groups-IsShort :
    (left : ℕ) (s : Str)
    → All IsNoColon s
    → read_ipv4 s ≡ none
    → IsShort (read_groups (suc left) 0 s)
unfolding read_groups read_separated
read_groups-IsShort left s h no_v4 = elim (Option-cases (read_number 16 (some 4) true 65_536 s)) [
  | inl q ↦ elim (Bool-cases (leb 1 left)) [
    | inl more ↦
        rw (more, no_v4, q, read_groups) (record { few = refl; open_ended = refl; no_colon = h })
    | inr few ↦ rw (few, q, read_groups) (record { few = refl; open_ended = refl; no_colon = h })
  ]
  | inr ((g, rest), q) ↦
      let (taken, same, good) = read_number-Takes 16 (some 4) true 65_536 s rest g q in
      let left_over = All-right IsNoColon taken rest (subst (All IsNoColon) same h) in
      elim (Bool-cases (leb 1 left)) [
        | inl more ↦
            rw (more, no_v4, q, read_groups-none left 0 rest left_over, read_groups)
              (record { few = refl; open_ended = refl; no_colon = left_over })
        | inr few ↦
            rw (few, q, read_groups-none left 0 rest left_over, read_groups)
              (record { few = refl; open_ended = refl; no_colon = left_over })
      ]
]

after_head-none : (r : List ℕ × Bool × Str) → IsShort r → after_head r ≡ none
unfolding after_head read_compressed
after_head-none (head, ended, rest) v =
    rw (v.few, v.open_ended, read_given_char-none rest v.no_colon, ◌>>=◌) refl

read_ipv6-none : (s : Str) → All IsNoColon s → read_ipv4 s ≡ none → read_ipv6 s ≡ none
unfolding read_ipv6
read_ipv6-none s h no_v4 = after_head-none (read_groups 8 0 s) (read_groups-IsShort 7 s h no_v4)

whole-eq-some : {A : Type 0} (r : Option (A × Str)) (a : A) → whole r ≡ some a → r ≡ some (a, [])
whole-eq-some none a h = absurd cc
whole-eq-some (some (b, [])) a h = ground (arith, h)
whole-eq-some (some (b, c ∷ rest)) a h = absurd cc

-- An IP address with no colon is read as an IPv4 address.
pub parse_ip-v4 :
    (s : Str) (ip : IpAddr) → All IsNoColon s → parse_ip s ≡ some ip → read_ipv4 s ≡ some (ip, [])
unfolding parse_ip
parse_ip-v4 s ip h q = elim (Option-cases (read_ipv4 s)) [
  | inr ((other, rest), e) ↦ e ∙ whole-eq-some (some (other, rest)) ip (rw (e, or_else) at q)
  | inl e ↦ absurd (ground (arith, rw (e, read_ipv6-none s h e, or_else) at q))
]

-- An IP address with a colon is read as an IPv6 address.
pub parse_ip-v6 :
    (s : Str) (ip : IpAddr)
    → (All IsNoColon s → ⊥)
    → parse_ip s ≡ some ip
    → read_ipv6 s ≡ some (ip, [])
unfolding parse_ip
parse_ip-v6 s ip h q = elim (Option-cases (read_ipv4 s)) [
  | inl e ↦ whole-eq-some (read_ipv6 s) ip (rw (e, or_else) at q)
  | inr ((other, rest), e) ↦
      let all = e ∙ whole-eq-some (some (other, rest)) ip (rw (e, or_else) at q) in
      let (taken, same, good) = read_ipv4-Takes s [] ip all in
      absurd (h (subst (All IsNoColon) (sym (same ∙ append-nil taken)) good))
]

-- A text that is no IP address, with no colon, leaves something of an IPv4 address unread, if it
-- begins with one.
pub parse_ip-rest :
    (s rest : Str) (ip : IpAddr) → parse_ip s ≡ none → read_ipv4 s ≡ some (ip, rest) → rest ≢ []
unfolding parse_ip
parse_ip-rest s [] ip q e h = absurd (ground (arith, rw (e, or_else) at q))
parse_ip-rest s (c ∷ rest) ip q e h = cc
