-- ===== src/Main/Guarantees.antt =====
-- What the whole stack of src/main.rs guarantees of a configuration that was accepted.
use electrum_private_relay.Prelude.{
  ℕ, ◌+◌, ◌*◌, ◌≤◌, ◌<◌, ◌≡◌, ◌↔◌, ◌⊎◌, inl, inr, refl, ap, List, [], ◌∷◌, Str, len, length, All,
  Result-cases, ok, err, arith,
}
use electrum_private_relay.Wire.{SerdeJson}
use electrum_private_relay.Tokio.{Semaphore}
use electrum_private_relay.Config.{Cli, Config, reject, socks_electrum, try_from}
use electrum_private_relay.Config.Validation.{try_from_iff}
use electrum_private_relay.Relay.{RelayError, disabled, failed}
use electrum_private_relay.Relay.Reject
use electrum_private_relay.Relay.SocksElectrum.{Network}
use electrum_private_relay.Relay.SocksElectrum.Answers.{IsLowerHexDigit}
use electrum_private_relay.Relay.SocksElectrum.Submission.{broadcast_outcomes}
use electrum_private_relay.Relay.Limited.{Limiter, LimitedRelay, admit, Reach}
use electrum_private_relay.Relay.Limited.Bounds.{total_bytes, admit-Admission, admit_iff}
use electrum_private_relay.Relay.Draining.{DrainState, enter, counted}
use electrum_private_relay.Main.{InnerRelay, serving, run, limiter, inner_broadcast, broadcast}
use electrum_private_relay.Main.Runs.{
  IsSelected, rejecting, submitting, run-IsRun, serving-IsSelected,
}

-- The answers of the inner relay that a configuration selects.
module _ (j : SerdeJson) (network : Network) where
  answers :
      (config : Config) (inner : InnerRelay) (raw : Str)
      → IsSelected config inner
      → let answer = inner_broadcast j network inner raw in
        (config.relay_mode ≡ reject → (answer ≡ err disabled) ⊎ (answer ≡ err failed))
        × (config.relay_mode ≡ socks_electrum
            → ((id : Str) × (answer ≡ ok id) × (length id ≡ 64) × All IsLowerHexDigit id)
              ⊎ (answer ≡ err failed))
  unfolding inner_broadcast Reject.broadcast
  answers config inner raw (rejecting m) = (λ _. inl refl, λ n. absurd (ground (arith, m, n)))
  answers config inner raw (submitting endpoint m e) =
      (λ n. absurd (ground (arith, m, n)), λ _. broadcast_outcomes j network _ raw)

-- The transactions that run, and one more, are within the budget when each fits in a frame.
total_bytes-le :
    (frame : ℕ) (running : List Str)
    → All (λ raw. len raw ≤ frame) running
    → total_bytes running ≤ length running * frame
unfolding total_bytes
total_bytes-le frame [] h = omega arith
total_bytes-le frame (raw ∷ rest) h = grind (arith, total_bytes-le frame rest h.1, h.0)

product-le : (n limit frame : ℕ) → n < limit → n * frame + frame ≤ limit * frame
product-le n limit frame h = grind arith

enter-err : (drain : DrainState) (e : RelayError) → enter drain ≡ err e → e ≡ failed
unfolding enter counted
enter-err drain e h = ground arith

module _ (semaphore : Semaphore) where
  -- With a configuration that was accepted, and transactions no longer than a frame, the budget of
  -- payload bytes never refuses a call: it is passed on to the inner relay exactly when fewer calls
  -- run than the configured number.
  pub admitted_iff_slot :
      (cli : Cli) (config : Config) (s : Limiter semaphore) (raw : Str)
      → try_from cli ≡ ok config
      → Reach semaphore (limiter semaphore config) s
      → All (λ running. len running ≤ config.max_frame_bytes) s.running
      → len raw ≤ config.max_frame_bytes
      → ((admit semaphore raw s.relay).0 ≡ ok tt)
        ↔ (length s.running < config.max_concurrent_broadcasts.get)
  unfolding limiter
  admitted_iff_slot cli config s raw h r short fits =
      let (acceptable, same) = (try_from_iff cli config).0 h in
      let b = acceptable.bounded in
      let budget : config.max_concurrent_broadcasts.get * config.max_frame_bytes ≤ 134_217_728 =
        ground (arith, same, b.payload) in
      let frame : config.max_frame_bytes ≤ 16_777_216 = ground (arith, same, b.frame) in
      let (admits, refuses) = admit_iff semaphore _ _ s raw r in
      (
        λ e. (admits.0 e).1,
        λ room. admits.1 (
          omega (arith, fits, frame),
          room,
          omega (
            arith,
            total_bytes-le config.max_frame_bytes s.running short,
            product-le (length s.running) _ config.max_frame_bytes room,
            fits,
            budget,
          ),
        ),
      )

  module _ (j : SerdeJson) (network : Network) where
    admitted_or_failed :
        (drain : DrainState) (limited : LimitedRelay semaphore) (inner : InnerRelay) (raw : Str)
        → (broadcast j network semaphore drain limited inner raw
            ≡ inner_broadcast j network inner raw)
          ⊎ (broadcast j network semaphore drain limited inner raw ≡ err failed)
    unfolding broadcast
    admitted_or_failed drain limited inner raw = elim (Result-cases (enter drain)) [
      | inr (e, q) ↦ inr (rw q (ap err (enter-err drain e q)))
      | inl (entered, q) ↦ elim ((admit-Admission semaphore raw limited).outcome) [
        | inl (a, _, _, _) ↦ inl (rw (q, a) refl)
        | inr (a, _, _, _) ↦ inr (rw (q, a) refl)
      ]
    ]

    -- Whatever the proxy, the relay and the network do, and whatever state the stack is in: with
    -- the default mode a broadcast is refused as disabled or failed; with the mode `socks-electrum`
    -- it returns a transaction ID of 64 lower-case hexadecimal digits, or fails.
    pub broadcast_answers :
        (cli : Cli) (config : Config) (drain : DrainState) (limited : LimitedRelay semaphore)
        (inner : InnerRelay) (raw : Str)
        → run cli ≡ serving config inner
        → let answer = broadcast j network semaphore drain limited inner raw in
          (config.relay_mode ≡ reject → (answer ≡ err disabled) ⊎ (answer ≡ err failed))
          × (config.relay_mode ≡ socks_electrum
              → ((id : Str) × (answer ≡ ok id) × (length id ≡ 64) × All IsLowerHexDigit id)
                ⊎ (answer ≡ err failed))
    broadcast_answers cli config drain limited inner raw h =
        elim (admitted_or_failed drain limited inner raw) [
          | inr e ↦ (λ m. inr e, λ m. inr e)
          | inl e ↦ rw e (
              answers j network config inner raw
                (serving-IsSelected cli config inner _ (run-IsRun cli) h).1)
        ]
