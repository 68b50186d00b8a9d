-- ===== src/Protocol/Payload.antt =====
-- The test of src/protocol.rs on a raw transaction: which texts are whole bytes in hexadecimal.
use electrum_private_relay.Prelude.{
  ℕ, ◌%◌, ◌≤◌, ◌<◌, ◌≡◌, ◌≢◌, ◌↔◌, ◌⊎◌, refl, ap, true, [], ◌∷◌, Bytes, Str, len, bytes, all, All,
  length, is_empty, is_ascii_hexdigit, all-bytes, len_of_ascii, arith,
}
use electrum_private_relay.Protocol.{is_hex_payload}

-- An ASCII hexadecimal digit.
abbrev pub IsHexDigit : ℕ → Type 0
IsHexDigit c = ((b'0' ≤ c) × (c ≤ b'9')) ⊎ ((b'a' ≤ c) × (c ≤ b'f')) ⊎ ((b'A' ≤ c) × (c ≤ b'F'))

-- A whole number of bytes in hexadecimal, and not none.
pub record IsHexPayload (raw : Str) : Type 0 where
  pub nonempty : raw ≢ []
  pub even : length raw % 2 ≡ 0
  pub digits : All IsHexDigit raw

is_ascii_hexdigit_iff : (c : ℕ) → (is_ascii_hexdigit c ≡ true) ↔ IsHexDigit c
is_ascii_hexdigit_iff c = ground arith

is_ascii_hexdigit_ascii : (b : ℕ) → is_ascii_hexdigit b ≡ true → b < 0x80
is_ascii_hexdigit_ascii b h = ground arith

pub all_hex_iff : (s : Str) → (all is_ascii_hexdigit s ≡ true) ↔ All IsHexDigit s
all_hex_iff [] = ground arith
all_hex_iff (c ∷ s) = (
  λ h. ((is_ascii_hexdigit_iff c).0 (ground arith), (all_hex_iff s).0 (ground arith)),
  λ h. ground (arith, (is_ascii_hexdigit_iff c).1 h.0, (all_hex_iff s).1 h.1),
)

-- Digits are one byte each.
pub len_of_digits : (s : Str) → all is_ascii_hexdigit s ≡ true → len s ≡ length s
len_of_digits s h = len_of_ascii is_ascii_hexdigit s is_ascii_hexdigit_ascii h

pub all_hex_bytes : (s : Str) → all is_ascii_hexdigit (bytes s) ≡ all is_ascii_hexdigit s
all_hex_bytes s = all-bytes is_ascii_hexdigit s is_ascii_hexdigit_ascii

is_empty_bytes : (s : Str) → (is_empty (bytes s) ≡ true) ↔ (len s ≡ 0)
is_empty_bytes s = go (bytes s)
  where
    go : (l : Bytes) → (is_empty l ≡ true) ↔ (length l ≡ 0)
    go [] = ground arith
    go (b ∷ l) = ground arith

length-eq-zero : (s : Str) → length s ≡ 0 → s ≡ []
length-eq-zero [] h = refl
length-eq-zero (c ∷ s) h = absurd (omega arith)

pub is_hex_payload_iff : (raw : Str) → (is_hex_payload raw ≡ true) ↔ IsHexPayload raw
unfolding is_hex_payload
is_hex_payload_iff raw = (
  λ h.
      let digits : all is_ascii_hexdigit raw ≡ true = ground (arith, all_hex_bytes raw) in
      record {
        nonempty = λ e. ground (arith, is_empty_bytes raw, len_of_digits raw digits, ap length e);
        even = ground (arith, len_of_digits raw digits);
        digits = (all_hex_iff raw).0 digits;
      },
  λ h.
      let digits = (all_hex_iff raw).1 h.digits in
      ground (
        arith,
        all_hex_bytes raw,
        digits,
        h.even,
        len_of_digits raw digits,
        is_empty_bytes raw,
        λ (e : length raw ≡ 0). h.nonempty (length-eq-zero raw e),
      ),
)
