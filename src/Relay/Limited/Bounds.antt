-- ===== src/Relay/Limited/Bounds.antt =====
-- The limiter's permits and running calls always add up, so the limits hold and a call is refused
-- only when one of them would be passed.
use electrum_private_relay.Prelude.{
  ℕ, ◌+◌, ◌^◌, ◌≤◌, ◌<◌, ◌≡◌, ◌≢◌, ◌↔◌, ◌⊎◌, inl, inr, refl, ap, Option, none, some, List, [], ◌∷◌,
  ◌++◌, Str, len, length, length-append, ltb, Bool-cases, Option-cases, Result, ok, err, arith,
}
use electrum_private_relay.Relay.{RelayError, failed}
use electrum_private_relay.Tokio.{Semaphore}
use electrum_private_relay.Relay.Limited.{
  LimitedRelay, with_payload_budget, acquire_payload, acquire_request, acquire_permits, admit,
  finish, Limiter, start, on_admission, Step, calls, ends, Reach, here, next,
}

-- The payload bytes of the running calls.
unfoldable pub total_bytes : List Str → ℕ
total_bytes [] = 0
total_bytes (raw ∷ rest) = len raw + total_bytes rest

pub total_bytes-append :
    (xs ys : List Str) → total_bytes (xs ++ ys) ≡ total_bytes xs + total_bytes ys
unfolding total_bytes
total_bytes-append [] ys = omega arith
total_bytes-append (x ∷ xs) ys = omega (arith, total_bytes-append xs ys)

pub total_bytes-cons :
    (raw : Str) (rest : List Str) → total_bytes (raw ∷ rest) ≡ len raw + total_bytes rest
unfolding total_bytes
total_bytes-cons raw rest = refl

module _ (semaphore : Semaphore) where
  open semaphore use {
    State, new, try_acquire_many, drop_permits, available, available-new, acquired, exhausted,
    available-drop,
  }

  -- Permits and calls add up.
  pub record Balanced (limit budget : ℕ) (s : Limiter semaphore) : Type 0 where
    pub slots : available s.relay.requests + length s.running ≡ limit
    pub bytes : available s.relay.payload_bytes + total_bytes s.running ≡ budget

  -- What `admit` does, by the permits that are available.
  pub record Admission (raw : Str) (relay : LimitedRelay semaphore)
      (out : Result RelayError (Unit {0}) × LimitedRelay semaphore) : Type 0 where
    pub outcome :
        ((out.0 ≡ ok tt)
          × (len raw < 2 ^ 32)
          × (available relay.requests ≡ available (out.1).requests + 1)
          × (available relay.payload_bytes ≡ available (out.1).payload_bytes + len raw))
        ⊎ ((out.0 ≡ err failed)
            × ((2 ^ 32 ≤ len raw)
                ⊎ (available relay.requests < 1)
                ⊎ (available relay.payload_bytes < len raw))
            × (available (out.1).requests ≡ available relay.requests)
            × (available (out.1).payload_bytes ≡ available relay.payload_bytes))

  acquire_payload-Admission :
      (raw : Str) (relay : LimitedRelay semaphore) (requests : State) (o : Option State)
      → len raw < 2 ^ 32
      → try_acquire_many 1 relay.requests ≡ some requests
      → try_acquire_many (len raw) relay.payload_bytes ≡ o
      → Admission raw relay
          (acquire_payload semaphore (len raw) (record relay { requests = requests }) o)
  unfolding acquire_payload
  acquire_payload-Admission raw relay requests none fits one e = record {
    outcome = inr (
      refl,
      inr (inr ((exhausted (len raw) relay.payload_bytes).0 e)),
      omega (arith, available-drop 1 requests, acquired 1 relay.requests requests one),
      refl,
    );
  }
  acquire_payload-Admission raw relay requests (some payload) fits one e = record {
    outcome = inl (
      refl,
      fits,
      acquired 1 relay.requests requests one,
      acquired (len raw) relay.payload_bytes payload e,
    );
  }

  pub admit-Admission :
      (raw : Str) (relay : LimitedRelay semaphore) → Admission raw relay (admit semaphore raw relay)
  unfolding admit acquire_permits acquire_request
  admit-Admission raw relay = elim (Bool-cases (ltb (len raw) (2 ^ 32))) [
    | inr long ↦
        rw (long, admit, acquire_permits)
          (record { outcome = inr (refl, inl (ground arith), refl, refl) })
    | inl fits ↦ elim (Option-cases (try_acquire_many 1 relay.requests)) [
      | inl e ↦
          rw (fits, admit, acquire_permits)
            (rw (e, acquire_request)
              (record {
                outcome = inr (refl, inr (inl ((exhausted 1 relay.requests).0 e)), refl, refl);
              }))
      | inr (requests, e) ↦
          rw (fits, admit, acquire_permits)
            (rw (e, acquire_request)
              (acquire_payload-Admission raw relay requests _ (ground arith) e refl))
    ]
  ]

  Admission-Balanced :
      (limit budget : ℕ) (raw : Str) (s : Limiter semaphore)
      (out : Result RelayError (Unit {0}) × LimitedRelay semaphore)
      → Admission raw s.relay out
      → Balanced limit budget s
      → Balanced limit budget (on_admission semaphore raw s out)
  unfolding on_admission
  Admission-Balanced limit budget raw s (ok u, relay) a b = elim a.outcome [
    | inl (_, fits, slots, bytes) ↦ record {
      slots = omega (arith, b.slots, slots);
      bytes = omega (arith, b.bytes, bytes, total_bytes-cons raw s.running);
    }
    | inr (e, _, _, _) ↦ absurd (ground arith)
  ]
  Admission-Balanced limit budget raw s (err e, relay) a b = elim a.outcome [
    | inl (q, _, _, _) ↦ absurd (ground arith)
    | inr (_, why, slots, bytes) ↦ record {
      slots = omega (arith, b.slots, slots);
      bytes = omega (arith, b.bytes, bytes);
    }
  ]

  Step-Balanced :
      (limit budget : ℕ) {s t : Limiter semaphore}
      → Step semaphore s t
      → Balanced limit budget s
      → Balanced limit budget t
  unfolding finish
  Step-Balanced limit budget {s} (calls raw) b =
      Admission-Balanced limit budget raw s (admit semaphore raw s.relay)
        (admit-Admission raw s.relay) b
  Step-Balanced limit budget {s} (ends before after raw e) b = record {
    slots = omega (
      arith,
      b.slots,
      ap length e,
      length-append before (raw ∷ after),
      length-append before after,
      available-drop 1 s.relay.requests,
    );
    bytes = omega (
      arith,
      b.bytes,
      ap total_bytes e,
      total_bytes-append before (raw ∷ after),
      total_bytes-append before after,
      total_bytes-cons raw after,
      available-drop (len raw) s.relay.payload_bytes,
    );
  }

  Reach-Balanced :
      (limit budget : ℕ) {s : Limiter semaphore}
      → Reach semaphore (start semaphore limit budget) s
      → Balanced limit budget s
  unfolding start with_payload_budget total_bytes
  Reach-Balanced limit budget here = record {
    slots = omega (arith, available-new limit);
    bytes = omega (arith, available-new budget);
  }
  Reach-Balanced limit budget (next r step) =
      Step-Balanced limit budget step (Reach-Balanced limit budget r)

  -- However calls begin and end, at most `limit` calls of the inner relay run at once and their
  -- transactions have at most `budget` bytes together; the permits that are left are exactly the
  -- rest of both.
  pub running_bounded :
      (limit budget : ℕ) (s : Limiter semaphore)
      → Reach semaphore (start semaphore limit budget) s
      → (length s.running ≤ limit)
        × (total_bytes s.running ≤ budget)
        × (available s.relay.requests + length s.running ≡ limit)
        × (available s.relay.payload_bytes + total_bytes s.running ≡ budget)
  running_bounded limit budget s r =
      let b = Reach-Balanced limit budget r in
      (omega (arith, b.slots), omega (arith, b.bytes), b.slots, b.bytes)

  -- In a reachable state a call is passed on to the inner relay exactly when its transaction has
  -- fewer than 2^32 bytes, fewer than `limit` calls run, and its bytes fit in the rest of the
  -- budget; a refused call fails at once and leaves both counts of permits as they were.
  pub admit_iff :
      (limit budget : ℕ) (s : Limiter semaphore) (raw : Str)
      → Reach semaphore (start semaphore limit budget) s
      → let out = admit semaphore raw s.relay in
        ((out.0 ≡ ok tt) ↔ (
          (len raw < 2 ^ 32)
          × (length s.running < limit)
          × (total_bytes s.running + len raw ≤ budget)))
        × (out.0 ≢ ok tt
            → (out.0 ≡ err failed)
              × (available (out.1).requests ≡ available s.relay.requests)
              × (available (out.1).payload_bytes ≡ available s.relay.payload_bytes))
  admit_iff limit budget s raw r =
      let b = Reach-Balanced limit budget r in
      elim ((admit-Admission raw s.relay).outcome) [
        | inl (e, fits, slots, bytes) ↦ (
          (λ _. (fits, omega (arith, b.slots, slots), omega (arith, b.bytes, bytes)), λ _. e),
          λ no_. absurd (no_ e),
        )
        | inr (e, why, slots, bytes) ↦ (
          (
            λ q. absurd (ground (arith, e, q)),
            λ (fits, room, space). absurd (ground (arith, why, b.slots, b.bytes)),
          ),
          λ _. (e, slots, bytes),
        )
      ]
