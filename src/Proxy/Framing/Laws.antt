-- ===== src/Proxy/Framing/Laws.antt =====
-- What `read_frame` of src/proxy.rs returns for every stream, by its first newline.
use electrum_private_relay.Prelude.{
  ℕ, zero, suc, ◌+◌, ◌≤◌, ◌<◌, ◌≡◌, ◌≢◌, ◌⊎◌, inl, inr, refl, sym, ◌∙◌, ap, subst, true, false,
  Option, none, some, [], ◌∷◌, ◌++◌, Bytes, length, length-append, All, ltb, ◌==◌, ==_iff,
  if◌then◌else◌, Result, ok, err, ◌>>=◌, Bool-cases, arith,
}
use mathlib.Core.List.{append-nil, append_assoc}
use electrum_private_relay.Proxy.Framing.{
  IoErrorKind, invalid_data, other, Ending, closed, broken, Input, newline, read_until,
  ends_with_newline, checked_frame, read_frame,
}

abbrev pub NoNewline : Bytes → Type 0
NoNewline = All (λ b. b ≢ newline)

abbrev pub line : Bytes → Bytes
line body = body ++ newline ∷ []

read_until-line :
    (limit : ℕ) (body rest : Bytes) (ending : Ending)
    → NoNewline body
    → length body < limit
    → read_until limit (body ++ newline ∷ rest) ending ≡ ok (line body, rest)
unfolding read_until
read_until-line zero body rest ending h lt = absurd (omega arith)
read_until-line (suc limit) [] rest ending h lt = refl
read_until-line (suc limit) (b ∷ body) rest ending h lt =
    ground (arith, h.0, read_until-line limit body rest ending h.1)

-- A read that meets no newline stops at the limit.
read_until_full :
    (limit : ℕ) (body tail : Bytes) (ending : Ending)
    → NoNewline body
    → limit ≤ length body
    → (read : Bytes × Bytes) × (read_until limit (body ++ tail) ending ≡ ok read)
      × (length read.0 ≡ limit)
unfolding read_until
read_until_full zero body tail ending h le = (([], body ++ tail), refl, refl)
read_until_full (suc limit) [] tail ending h le = absurd (omega arith)
read_until_full (suc limit) (b ∷ body) tail ending h le =
    let (read, e, full) = read_until_full limit body tail ending h.1 (omega arith) in
    ((b ∷ read.0, read.1), ground (arith, h.0, e), omega (arith, full))

read_until_short :
    (limit : ℕ) (body : Bytes) (ending : Ending)
    → NoNewline body
    → length body < limit
    → read_until limit body ending ≡ elim ending [ closed ↦ ok (body, []) | broken ↦ err other ]
unfolding read_until
read_until_short zero body ending h lt = absurd (omega arith)
read_until_short (suc limit) [] closed h lt = refl
read_until_short (suc limit) [] broken h lt = refl
read_until_short (suc limit) (b ∷ body) ending h lt =
    ground (arith, h.0, read_until_short limit body ending h.1)

ends_with_newline-line : (body : Bytes) → ends_with_newline (line body) ≡ true
unfolding ends_with_newline
ends_with_newline-line [] = refl
ends_with_newline-line (b ∷ []) = refl
ends_with_newline-line (b ∷ c ∷ body) = ends_with_newline-line (c ∷ body)

ends_with_newline-NoNewline : (body : Bytes) → NoNewline body → ends_with_newline body ≡ false
unfolding ends_with_newline
ends_with_newline-NoNewline [] h = refl
ends_with_newline-NoNewline (b ∷ []) h = ground (arith, h.0)
ends_with_newline-NoNewline (b ∷ c ∷ body) h = ends_with_newline-NoNewline (c ∷ body) h.1

checked_frame-oversized :
    (max : ℕ) (ending : Ending) (read : Bytes × Bytes)
    → length read.0 ≡ max + 1
    → checked_frame max ending read ≡ err invalid_data
unfolding checked_frame
checked_frame-oversized max ending ([], rest) h = absurd (omega arith)
checked_frame-oversized max ending (b ∷ frame, rest) h = ground arith

-- What is left of a stream after its last newline.
abbrev pub at_end : Ending → Bytes → Result IoErrorKind (Option Bytes × Input)
at_end broken body = err other
at_end closed [] = ok (none, record { unread = []; ending = closed })
at_end closed (b ∷ body) = err invalid_data

-- What is read of a stream that goes on with the line `body`.
abbrev pub cut : ℕ → Ending → Bytes → Bytes → Result IoErrorKind (Option Bytes × Input)
cut max ending body rest =
    if ltb (length body) max
    then ok (some (line body), record { unread = rest; ending = ending })
    else err invalid_data

checked_frame-at_end :
    (max : ℕ) (body : Bytes)
    → NoNewline body
    → length body ≤ max
    → checked_frame max closed (body, []) ≡ at_end closed body
unfolding checked_frame
checked_frame-at_end max [] h le = refl
checked_frame-at_end max (b ∷ body) h le = ground (arith, ends_with_newline-NoNewline (b ∷ body) h)

first_line :
    (unread : Bytes)
    → NoNewline unread
      ⊎ ((body : Bytes) × (rest : Bytes) × (unread ≡ body ++ newline ∷ rest) × NoNewline body)
first_line [] = inl tt
first_line (b ∷ unread) = elim (Bool-cases (b == newline)) [
  | inl e ↦ inr ([], unread, ap (λ c. c ∷ unread) ((==_iff b newline).0 e), tt)
  | inr e ↦ elim (first_line unread) [
    | inl h ↦ inl (λ q. ground arith, h)
    | inr (body, rest, q, h) ↦ inr (b ∷ body, rest, ap (λ l. b ∷ l) q, (λ q. ground arith, h))
  ]
]

module _ (max : ℕ) (ending : Ending) where
  -- A stream whose first line is `body`: the line is returned with its newline, and the rest of
  -- the stream is left, exactly when the line with its newline has at most `max` bytes; a longer
  -- line is invalid data.
  pub read_frame-line :
      (body rest : Bytes)
      → NoNewline body
      → read_frame max (record { unread = body ++ newline ∷ rest; ending = ending })
        ≡ cut max ending body rest
  unfolding read_frame
  read_frame-line body rest h = elim (Bool-cases (ltb (length body) max)) [
    | inl fits ↦
        rw (fits, read_until-line (max + 1) body rest ending h (ground arith))
          (unfold checked_frame in
            ground (arith, ends_with_newline-line body, length-append body (newline ∷ [])))
    | inr long ↦ elim (Bool-cases (length body == max)) [
      | inl exact ↦
          rw (long, read_until-line (max + 1) body rest ending h (ground arith))
            (checked_frame-oversized max ending _
              (ground (arith, length-append body (newline ∷ []))))
      | inr longer ↦
          let (read, e, full) =
            read_until_full (max + 1) body (newline ∷ rest) ending h (ground arith) in
          rw (long, e) (checked_frame-oversized max ending read full)
    ]
  ]

  -- A stream with no newline: more than `max` bytes are invalid data; else a broken stream gives
  -- its read error, and a closed one no frame if it is empty and invalid data if it is not.
  pub read_frame-unterminated :
      (body : Bytes)
      → NoNewline body
      → read_frame max (record { unread = body; ending = ending })
        ≡ (if ltb max (length body) then err invalid_data else at_end ending body)
  unfolding read_frame
  read_frame-unterminated body h = elim (Bool-cases (ltb max (length body))) [
    | inl long ↦
        let (read, e, full) = read_until_full (max + 1) body [] ending h (ground arith) in
        rw (long, ← append-nil body, e) (checked_frame-oversized max ending read full)
    | inr fits ↦
        rw (fits, read_until_short (max + 1) body ending h (ground arith))
          (elim ending
            as (λ e.
              (elim e [ closed ↦ ok (body, []) | broken ↦ err other ] >>= checked_frame max e)
              ≡ at_end e body) [
                | closed ↦ checked_frame-at_end max body h (ground arith)
                | broken ↦ refl
              ])
  ]

at_end-ne-some :
    (ending : Ending) (body frame : Bytes) (rest : Input)
    → at_end ending body ≢ ok (some frame, rest)
at_end-ne-some broken body frame rest h = cc
at_end-ne-some closed [] frame rest h = cc
at_end-ne-some closed (b ∷ body) frame rest h = cc

-- A frame that is returned is one line of at most `max` bytes with its newline, the first of the
-- stream; the rest of the stream is left to the next read.
pub read_frame_sound :
    (max : ℕ) (input rest : Input) (frame : Bytes)
    → read_frame max input ≡ ok (some frame, rest)
    → (body : Bytes) × NoNewline body
      × (frame ≡ line body)
      × (length frame ≤ max)
      × (input.unread ≡ frame ++ rest.unread)
      × (rest.ending ≡ input.ending)
read_frame_sound max input rest frame e = elim (first_line input.unread) [
  | inl h ↦ absurd (
      ground (
        arith,
        read_frame-unterminated max input.ending input.unread h,
        at_end-ne-some input.ending input.unread frame rest,
      ))
  | inr (body, after, q, h) ↦
      let p : read_frame max input ≡ cut max input.ending body after =
        subst
          (λ u.
            read_frame max (record { unread = u; ending = input.ending })
            ≡ cut max input.ending body after)
          (sym q) (read_frame-line max input.ending body after h) in
      let same : frame ≡ line body = ground arith in
      let left : rest.unread ≡ after = ground arith in
      (
        body,
        h,
        same,
        ground (arith, same, length-append body (newline ∷ [])),
        q ∙ rw (same, left) (sym (append_assoc body (newline ∷ []) after)),
        ground arith,
      )
]
