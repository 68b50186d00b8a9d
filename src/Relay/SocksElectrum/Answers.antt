-- ===== src/Relay/SocksElectrum/Answers.antt =====
-- When the submission of src/relay/socks_electrum.rs succeeds, and with what.
use electrum_private_relay.Prelude.{
  ℕ, ◌+◌, ◌≤◌, ◌<◌, ◌≡◌, ◌↔◌, ◌⊎◌, inl, inr, sym, ◌∙◌, ap, subst, true, Option, none, some, [], ◌∷◌,
  ◌++◌, Bytes, Str, bytes, length, length-append, All, all, is_ascii_hexdigit, to_ascii_lowercase,
  str_eq_iff, ok, Option-cases, Result-cases, arith,
}
use mathlib.Core.List.{append_assoc}
use electrum_private_relay.Wire.{Value, null, boolean, number, string, array, object, RelayResponse}
use electrum_private_relay.Protocol.Payload.{IsHexDigit, all_hex_iff, len_of_digits, all_hex_bytes}
use electrum_private_relay.Proxy.Framing.{Input, newline, read_until, checked_frame, read_frame}
use electrum_private_relay.Proxy.Framing.Laws.{NoNewline, line, read_frame-line, read_frame_sound}
use electrum_private_relay.Relay.SocksElectrum.{
  relay_request_id, max_relay_response_bytes, done, elapsed, io_failed, Timed, in_time,
  checked_response, read_response, is_transaction_id, transaction_id, is_relay_id, accepted,
}

-- A transaction ID in hexadecimal: 64 digits.
pub record IsTransactionId (candidate : Str) : Type 0 where
  pub digits : All IsHexDigit candidate
  pub long : length candidate ≡ 64

-- A lower-case hexadecimal digit.
abbrev pub IsLowerHexDigit : ℕ → Type 0
IsLowerHexDigit c = ((b'0' ≤ c) × (c ≤ b'9')) ⊎ ((b'a' ≤ c) × (c ≤ b'f'))

-- A response under the relay's request ID with no error, whose result is a transaction ID; `id` is
-- that in lower case.
pub record IsAnswer {N : Type 0} (response : RelayResponse N) (id : Str) : Type 0 where
  pub own_id : response.id ≡ string relay_request_id
  pub no_error : response.error ≡ none
  pub candidate : Str
  pub result : response.result ≡ some (string candidate)
  pub transaction : IsTransactionId candidate
  pub lower : id ≡ to_ascii_lowercase candidate

is_transaction_id_iff : (s : Str) → (is_transaction_id s ≡ true) ↔ IsTransactionId s
unfolding is_transaction_id
is_transaction_id_iff s = (
  λ h.
      let hex : all is_ascii_hexdigit s ≡ true = ground (arith, all_hex_bytes s) in
      record { digits = (all_hex_iff s).0 hex; long = ground (arith, len_of_digits s hex) },
  λ h.
      let hex = (all_hex_iff s).1 h.digits in
      ground (arith, all_hex_bytes s, hex, h.long, len_of_digits s hex),
)

transaction_id_iff :
    {N : Type 0} (result : Option (Value N)) (c : Str)
    → (transaction_id result ≡ some c) ↔ ((result ≡ some (string c)) × IsTransactionId c)
unfolding transaction_id
transaction_id_iff none c = ground arith
transaction_id_iff (some null) c = ground arith
transaction_id_iff (some (boolean b)) c = ground arith
transaction_id_iff (some (number n)) c = ground arith
transaction_id_iff (some (array vs)) c = ground arith
transaction_id_iff (some (object fs)) c = ground arith
transaction_id_iff (some (string s)) c = (
  λ h. (
    ground arith,
    subst IsTransactionId (ground arith) ((is_transaction_id_iff s).0 (ground arith)),
  ),
  λ h. ground (arith, h.0, (is_transaction_id_iff c).1 h.1),
)

is_relay_id_iff :
    {N : Type 0} (id : Value N) → (is_relay_id id ≡ true) ↔ (id ≡ string relay_request_id)
unfolding is_relay_id
is_relay_id_iff null = ground arith
is_relay_id_iff (boolean b) = ground arith
is_relay_id_iff (number n) = ground arith
is_relay_id_iff (array vs) = ground arith
is_relay_id_iff (object fs) = ground arith
is_relay_id_iff (string s) =
    (λ h. ap string ((str_eq_iff s _).0 h), λ h. (str_eq_iff s _).1 (ground arith))

pub accepted_iff :
    {N : Type 0} (response : RelayResponse N) (id : Str)
    → (accepted response ≡ ok id) ↔ IsAnswer response id
unfolding accepted
accepted_iff response id = (
  λ h. elim (Option-cases (transaction_id response.result)) [
    | inl q ↦ absurd (ground arith)
    | inr (c, q) ↦
        let (e, t) = (transaction_id_iff response.result c).0 q in
        record {
          own_id = (is_relay_id_iff response.id).0 (ground arith);
          no_error = ground arith;
          candidate = c;
          result = e;
          transaction = t;
          lower = ground arith;
        }
  ],
  λ h. ground (
    arith,
    (is_relay_id_iff response.id).1 h.own_id,
    h.no_error,
    (transaction_id_iff response.result h.candidate).1 (h.result, h.transaction),
    h.lower,
  ),
)

-- The relay reads its answer as a connection reads a frame of at most 64 KiB.
read_response-read_frame :
    (input : Input) (response : Bytes)
    → (read_response input ≡ ok response)
      ↔ ((rest : Input) × (read_frame max_relay_response_bytes input ≡ ok (some response, rest)))
unfolding read_response read_frame checked_response checked_frame
read_response-read_frame input response =
    elim (Result-cases (read_until (max_relay_response_bytes + 1) input.unread input.ending)) [
      | inr (e, q) ↦ (λ h. absurd (ground arith), λ (rest, h). absurd (ground arith))
      | inl ((bytes, left), q) ↦ (
        λ h. (record { unread = left; ending = input.ending }, ground arith),
        λ (rest, h). ground arith,
      )
    ]

-- The first line of what the relay sends, with its newline in 64 KiB.
pub record IsResponseLine (input : Input) (response : Bytes) : Type 0 where
  pub body : Bytes
  pub rest : Bytes
  pub unread : input.unread ≡ body ++ newline ∷ rest
  pub one_line : NoNewline body
  pub short : length body < 65_536
  pub whole : response ≡ line body

pub read_response_iff :
    (input : Input) (response : Bytes)
    → (read_response input ≡ ok response) ↔ IsResponseLine input response
read_response_iff input response = (
  λ h.
      let (rest, e) = (read_response-read_frame input response).0 h in
      let (body, one, whole, fits, unread, _) = read_frame_sound _ input rest response e in
      record {
        body = body;
        rest = rest.unread;
        unread =
            unread
            ∙ ap (λ f. f ++ rest.unread) whole
            ∙ append_assoc body (newline ∷ []) rest.unread;
        one_line = one;
        short = ground (arith, whole, length-append body (newline ∷ []));
        whole = whole;
      },
  λ h. (read_response-read_frame input response).1 (
    record { unread = h.rest; ending = input.ending },
    subst
        (λ u.
          read_frame max_relay_response_bytes (record { unread = u; ending = input.ending })
          ≡ ok (some response, record { unread = h.rest; ending = input.ending }))
        (sym h.unread)
        (read_frame-line max_relay_response_bytes input.ending h.body h.rest h.one_line
          ∙ ground (arith, h.short, h.whole)),
  ),
)

pub in_time_iff : {A : Type 0} (t : Timed A) (a : A) → (in_time t ≡ ok a) ↔ (t ≡ done a)
in_time_iff elapsed a = ground arith
in_time_iff io_failed a = ground arith
in_time_iff (done b) a = ground arith
