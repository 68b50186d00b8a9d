-- ===== src/Proxy/Framing/Taken.antt =====
-- What `read_frame` of src/proxy.rs takes from the stream.
use electrum_private_relay.Prelude.{
  ℕ, zero, suc, ◌+◌, ◌≤◌, ◌<◌, ◌≡◌, inl, inr, ◌∙◌, subst, Option, none, some, [], ◌∷◌, Bytes,
  length, ◌==◌, ok, Bool-cases, Result-cases, arith,
}
use electrum_private_relay.Proxy.Framing.{
  Ending, closed, broken, Input, newline, read_until, checked_frame, read_frame,
}

read_until_lengths :
    (limit : ℕ) (unread : Bytes) (ending : Ending) (read : Bytes × Bytes)
    → read_until limit unread ending ≡ ok read
    → length read.0 + length read.1 ≡ length unread
unfolding read_until
read_until_lengths zero unread ending read e = ground arith
read_until_lengths (suc limit) [] closed read e = ground arith
read_until_lengths (suc limit) [] broken read e = absurd cc
read_until_lengths (suc limit) (b ∷ unread) ending read e =
    elim (Result-cases (read_until limit unread ending)) [
      | inl (more, q) ↦ ground (arith, q, read_until_lengths limit unread ending more q)
      | inr (error, q) ↦ ground (arith, q)
    ]

-- A read takes what it returns from the stream, and at least one byte for a frame.
pub read_frame_consumes :
    (max : ℕ) (input rest : Input) (found : Option Bytes)
    → read_frame max input ≡ ok (found, rest)
    → (length rest.unread ≤ length input.unread)
      × ((frame : Bytes) → found ≡ some frame → length rest.unread < length input.unread)
unfolding read_frame checked_frame
read_frame_consumes max input rest found e =
    elim (Result-cases (read_until (max + 1) input.unread input.ending)) [
      | inl ((frame, left), q) ↦
          let lengths = read_until_lengths (max + 1) input.unread input.ending (frame, left) q in
          (ground (arith, q, lengths), λ f p. taken frame left q lengths f p)
      | inr (error, q) ↦ absurd (ground (arith, q))
    ]
  where
    taken :
        (frame left : Bytes)
        → read_until (max + 1) input.unread input.ending ≡ ok (frame, left)
        → length frame + length left ≡ length input.unread
        → (f : Bytes) → found ≡ some f
        → length rest.unread < length input.unread
    taken [] left q lengths f p = absurd (ground (arith, q))
    taken (b ∷ frame) left q lengths f p = ground (arith, q)

read_until-nothing :
    (limit : ℕ) (unread left : Bytes) (ending : Ending)
    → read_until (suc limit) unread ending ≡ ok ([], left)
    → unread ≡ left
unfolding read_until
read_until-nothing limit [] left closed e = ground (arith, e)
read_until-nothing limit [] left broken e = absurd (ground (arith, e))
read_until-nothing limit (b ∷ unread) left ending e = elim (Bool-cases (b == newline)) [
  | inl stop ↦ absurd (ground (arith, rw stop at e))
  | inr more ↦ elim (Result-cases (read_until limit unread ending)) [
    | inl (read, q) ↦ absurd (ground (arith, rw (more, q) at e))
    | inr (error, q) ↦ absurd (ground (arith, rw (more, q) at e))
  ]
]

-- At the end of the stream nothing is taken.
pub read_frame_end :
    (max : ℕ) (input rest : Input)
    → read_frame max input ≡ ok (none, rest)
    → input.unread ≡ rest.unread
unfolding read_frame checked_frame
read_frame_end max input rest e =
    elim (Result-cases (read_until (max + 1) input.unread input.ending)) [
      | inr (error, q) ↦ absurd (ground (arith, q))
      | inl (([], left), q) ↦
          read_until-nothing max input.unread left input.ending
            (subst (λ n. read_until n input.unread input.ending ≡ ok ([], left)) (omega arith) q)
          ∙ ground (arith, rw q at e)
      | inl ((b ∷ frame, left), q) ↦ absurd (ground (arith, rw q at e))
    ]
