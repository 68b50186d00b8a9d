-- ===== src/Main/Stack/Calls.antt =====
-- What the calls of the relay stack of src/main.rs hold, by where each of them stands.
use electrum_private_relay.Prelude.{
  ℕ, suc, ◌+◌, ◌≡◌, List, [], ◌∷◌, ◌++◌, len, length, length-append, arith,
}
use electrum_private_relay.Main.Stack.{Call, slotted, calling, returning}

abbrev pub slot_of : Call → ℕ
slot_of (slotted raw) = 1
slot_of (calling raw) = 1
slot_of (returning raw) = 1
slot_of _ = 0

abbrev pub bytes_of : Call → ℕ
bytes_of (calling raw) = len raw
bytes_of _ = 0

-- The request permits that calls hold, and their payload bytes.
abbrev pub slots : List Call → ℕ
slots [] = 0
slots (call ∷ calls) = slot_of call + slots calls

abbrev pub payload : List Call → ℕ
payload [] = 0
payload (call ∷ calls) = bytes_of call + payload calls

pub slots-cons : (call : Call) (ys : List Call) → slots (call ∷ ys) ≡ slot_of call + slots ys
slots-cons call ys = omega arith

pub payload-cons : (call : Call) (ys : List Call) → payload (call ∷ ys) ≡ bytes_of call + payload ys
payload-cons call ys = omega arith

pub slots_middle :
    (xs ys : List Call) (call : Call) → slots (xs ++ call ∷ ys) ≡ slot_of call + slots (xs ++ ys)
slots_middle [] ys call = omega arith
slots_middle (x ∷ xs) ys call = omega (arith, slots_middle xs ys call)

pub payload_middle :
    (xs ys : List Call) (call : Call)
    → payload (xs ++ call ∷ ys) ≡ bytes_of call + payload (xs ++ ys)
payload_middle [] ys call = omega arith
payload_middle (x ∷ xs) ys call = omega (arith, payload_middle xs ys call)

pub length_middle :
    (xs ys : List Call) (call : Call) → length (xs ++ call ∷ ys) ≡ suc (length (xs ++ ys))
length_middle xs ys call = omega (arith, length-append xs (call ∷ ys), length-append xs ys)
