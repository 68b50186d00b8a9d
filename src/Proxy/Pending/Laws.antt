-- ===== src/Proxy/Pending/Laws.antt =====
-- What the table of pending requests keeps, whatever requests are reserved and released.
use electrum_private_relay.Prelude.{
  ℕ, ◌≤◌, ◌<◌, ◌≡◌, ◌≢◌, ◌↔◌, ◌⊎◌, inl, inr, refl, false, none, some, [], ◌∷◌, Str, str_eq,
  str_eq_iff, str_eq_refl, length, leb, if◌then◌else◌, Bool-cases, arith,
}
use electrum_private_relay.Proxy.Pending.{
  PendingRequest, PendingRequests, reserved, duplicate, limit_exceeded, get, contains_key, remove,
  reserve_request,
}

-- No key has two entries.
abbrev pub Distinct : PendingRequests → Type 0
Distinct [] = Unit
Distinct ((key, request) ∷ rest) = (contains_key key rest ≡ false) × Distinct rest

-- At most `max` entries, on distinct keys.
pub record IsWellFormed (max : ℕ) (pending : PendingRequests) : Type 0 where
  pub within : length pending ≤ max
  pub distinct : Distinct pending

pub get-remove :
    (j k : Str) (p : PendingRequests) → get j (remove k p) ≡ (if str_eq k j then none else get j p)
unfolding get remove
get-remove j k [] = ground arith
get-remove j k ((i, r) ∷ p) =
    ground (arith, get-remove j k p, str_eq_iff i k, str_eq_iff i j, str_eq_iff k j)

contains_key-remove :
    (j k : Str) (p : PendingRequests)
    → contains_key j (remove k p) ≡ (if str_eq k j then false else contains_key j p)
unfolding contains_key remove
contains_key-remove j k [] = ground arith
contains_key-remove j k ((i, r) ∷ p) =
    ground (arith, contains_key-remove j k p, str_eq_iff i k, str_eq_iff i j, str_eq_iff k j)

pub contains_key_iff :
    (k : Str) (p : PendingRequests) → (contains_key k p ≡ false) ↔ (get k p ≡ none)
unfolding contains_key get
contains_key_iff k [] = ground arith
contains_key_iff k ((i, r) ∷ p) = ground (arith, contains_key_iff k p)

length-remove-le : (k : Str) (p : PendingRequests) → length (remove k p) ≤ length p
unfolding remove
length-remove-le k [] = omega arith
length-remove-le k ((i, r) ∷ p) = ground (arith, length-remove-le k p)

remove-Distinct : (k : Str) (p : PendingRequests) → Distinct p → Distinct (remove k p)
unfolding remove
remove-Distinct k [] d = tt
remove-Distinct k ((i, r) ∷ p) d =
    ground (arith, remove-Distinct k p d.1, contains_key-remove i k p, d.0)

pub remove-IsWellFormed :
    (max : ℕ) (k : Str) (p : PendingRequests) → IsWellFormed max p → IsWellFormed max (remove k p)
remove-IsWellFormed max k p w = record {
  within = omega (arith, length-remove-le k p, w.within);
  distinct = remove-Distinct k p w.distinct;
}

remove_absent : (k : Str) (p : PendingRequests) → contains_key k p ≡ false → remove k p ≡ p
unfolding remove contains_key
remove_absent k [] h = refl
remove_absent k ((i, r) ∷ p) h = ground (arith, remove_absent k p)

-- Releasing what was just reserved restores the table.
pub remove-reserve :
    (k : Str) (r : PendingRequest) (p : PendingRequests)
    → contains_key k p ≡ false
    → remove k ((k, r) ∷ p) ≡ p
unfolding remove
remove-reserve k r p h = ground (arith, str_eq_refl k, remove_absent k p h)

-- Reserving keeps the table within its limit and its keys distinct, whatever the outcome.
pub reserve_request-IsWellFormed :
    (max : ℕ) (p : PendingRequests) (k : Str) (r : PendingRequest)
    → IsWellFormed max p
    → IsWellFormed max (reserve_request p k r max).1
unfolding reserve_request
reserve_request-IsWellFormed max p k r w = ground (arith, w.within, w.distinct)

-- A reservation is made exactly when the key is free and there is room; then the key alone is
-- bound anew, and in the two other cases the table is unchanged.
pub reserve_request_outcomes :
    (max : ℕ) (p : PendingRequests) (k : Str) (r : PendingRequest)
    → ((get k p ≢ none) × (reserve_request p k r max ≡ (duplicate, p)))
      ⊎ ((get k p ≡ none) × (max ≤ length p) × (reserve_request p k r max ≡ (limit_exceeded, p)))
      ⊎ ((q : PendingRequests) × (get k p ≡ none)
          × (length p < max)
          × (reserve_request p k r max ≡ (reserved, q))
          × (length q ≤ max)
          × ((j : Str) → get j q ≡ (if str_eq k j then some r else get j p))
          × (remove k q ≡ p))
unfolding reserve_request
reserve_request_outcomes max p k r = elim (Bool-cases (contains_key k p)) [
  | inl taken ↦ inl (λ e. ground (arith, taken, contains_key_iff k p, e), ground (arith, taken))
  | inr free ↦ elim (Bool-cases (leb max (length p))) [
    | inl full ↦ inr (inl (ground (arith, contains_key_iff k p), ground arith, ground arith))
    | inr room ↦ inr (
        inr (
          (k, r) ∷ p,
          ground (arith, contains_key_iff k p),
          ground arith,
          ground arith,
          ground arith,
          λ j. unfold get in refl,
          remove-reserve k r p free,
        ))
  ]
]
