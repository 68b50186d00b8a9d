-- ===== src/Relay/Draining/Counting.antt =====
-- The count of active calls is right in every interleaving, and a shutdown admits nothing more.
use electrum_private_relay.Prelude.{
  ℕ, suc, ◌+◌, ◌≤◌, ◌<◌, ◌≡◌, refl, sym, ◌∙◌, ap, true, false, List, [], ◌∷◌, ◌++◌, ok, err, arith,
}
use electrum_private_relay.Relay.{failed}
use electrum_private_relay.Tokio.{Watch}
use electrum_private_relay.Relay.Draining.{
  DrainState, enter, leave, stop_accepting, Phase, entering, calling, publishing, SharedDrainState,
  new, Step, enters, announces, leaves, publishes, shuts_down, begin_shutdown, Reach, here, next,
}

-- The calls that were admitted and have not left.
pub live : List Phase → ℕ
live [] = 0
live (entering active ∷ phases) = suc (live phases)
live (calling ∷ phases) = suc (live phases)
live (publishing active ∷ phases) = live phases

live-insert :
    (before after : List Phase) (p : Phase)
    → live (before ++ p ∷ after) ≡ live (p ∷ before ++ after)
unfolding live
live-insert [] after p = refl
live-insert (entering a ∷ before) after (entering b) =
    ap suc (live-insert before after (entering b))
live-insert (entering a ∷ before) after calling = ap suc (live-insert before after calling)
live-insert (entering a ∷ before) after (publishing b) =
    ap suc (live-insert before after (publishing b))
live-insert (calling ∷ before) after (entering b) = ap suc (live-insert before after (entering b))
live-insert (calling ∷ before) after calling = ap suc (live-insert before after calling)
live-insert (calling ∷ before) after (publishing b) =
    ap suc (live-insert before after (publishing b))
live-insert (publishing a ∷ before) after (entering b) = live-insert before after (entering b)
live-insert (publishing a ∷ before) after calling = live-insert before after calling
live-insert (publishing a ∷ before) after (publishing b) = live-insert before after (publishing b)

enter-active :
    (s t : DrainState)
    → enter s ≡ ok t
    → (s.accepting ≡ true) × (t.accepting ≡ true) × (t.active ≡ s.active + 1)
unfolding enter
enter-active s t e = ground arith

leave-active : (s : DrainState) → 0 < s.active → (leave s).active + 1 ≡ s.active
unfolding leave
leave-active s h = ground arith

leave-fields :
    (s : DrainState) → ((leave s).accepting ≡ s.accepting) × ((leave s).active ≤ s.active)
unfolding leave
leave-fields s = ground arith

module _ (watch : Watch) where
  Step-active :
      {s t : SharedDrainState watch}
      → Step watch s t
      → s.state.active ≡ live s.phases
      → t.state.active ≡ live t.phases
  unfolding live stop_accepting begin_shutdown
  Step-active {s} (enters state e) h = omega (arith, h, (enter-active s.state state e).2)
  Step-active {s} (announces before after active e) h =
      h
      ∙ ap live e
      ∙ live-insert before after (entering active)
      ∙ sym (live-insert before after calling)
  Step-active {s} (leaves before after e) h =
      let was : live s.phases ≡ suc (live (before ++ after)) =
        ap live e ∙ live-insert before after calling in
      omega (
        arith,
        h,
        was,
        live-insert before after (publishing (leave s.state).active),
        leave-active s.state (omega (arith, h, was)),
      )
  Step-active {s} (publishes before after active e) h =
      h ∙ ap live e ∙ live-insert before after (publishing active)
  Step-active shuts_down h = h

  -- In every reachable state the count is that of the calls admitted and not yet ended, however
  -- the calls, their ends and a shutdown interleave.
  pub active_counts_live :
      (s : SharedDrainState watch) → Reach watch (new watch) s → s.state.active ≡ live s.phases
  unfolding new live
  active_counts_live s here = refl
  active_counts_live s (next {t} r step) = Step-active step (active_counts_live t r)

  -- What a shutdown fixes.
  pub record Closed (s t : SharedDrainState watch) : Type 0 where
    pub refusing : t.state.accepting ≡ false
    pub shrinking : t.state.active ≤ s.state.active
    pub admitted : t.admitted ≡ s.admitted

  Step-Closed :
      {s t : SharedDrainState watch} → Step watch s t → s.state.accepting ≡ false → Closed s t
  unfolding stop_accepting begin_shutdown
  Step-Closed {s} (enters state e) h = absurd (ground (arith, h, enter-active s.state state e))
  Step-Closed (announces before after active e) h = record {
    refusing = h;
    shrinking = omega arith;
    admitted = refl;
  }
  Step-Closed {s} (leaves before after e) h = record {
    refusing = (leave-fields s.state).0 ∙ h;
    shrinking = (leave-fields s.state).1;
    admitted = refl;
  }
  Step-Closed (publishes before after active e) h = record {
    refusing = h;
    shrinking = omega arith;
    admitted = refl;
  }
  Step-Closed shuts_down h = record { refusing = refl; shrinking = omega arith; admitted = refl }

  Reach-Closed : (s t u : SharedDrainState watch) → Closed s t → Reach watch t u → Closed s u
  Reach-Closed s t u c here = c
  Reach-Closed s t u c (next r step) =
      let before = Reach-Closed s t _ c r in
      let after = Step-Closed step before.refusing in
      record {
        refusing = after.refusing;
        shrinking = omega (arith, after.shrinking, before.shrinking);
        admitted = after.admitted ∙ before.admitted;
      }

  -- Once a shutdown has begun, in any state, nothing that follows admits a call: every later state
  -- refuses, has admitted as many calls as at the shutdown, and has no more active ones; every call
  -- is refused as failed.
  pub shutdown_is_final :
      (s t : SharedDrainState watch)
      → Reach watch (begin_shutdown watch s) t
      → Closed s t × (enter t.state ≡ err failed)
  unfolding enter begin_shutdown stop_accepting
  shutdown_is_final s t r =
      let closed =
        Reach-Closed s (begin_shutdown watch s) t
          (record { refusing = refl; shrinking = omega arith; admitted = refl }) r in
      (closed, ground (arith, closed.refusing))
