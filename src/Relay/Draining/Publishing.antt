-- ===== src/Relay/Draining/Publishing.antt =====
-- What the watch channel of the draining relay shows. The count is computed under the mutex and
-- sent outside of it, so that two calls which end together may publish in the wrong order.
use electrum_private_relay.Prelude.{◌≡◌, refl, ◌∙◌, false, [], ◌∷◌, arith}
use electrum_private_relay.Tokio.{Watch}
use electrum_private_relay.Relay.Draining.{
  leave, calling, publishing, wait_for_idle, SharedDrainState, leaves, publishes, Reach, here, next,
}

module _ (watch : Watch) where
  open watch use {State, send_replace, borrow, borrow-send}

  -- The state after two calls have left, the first to leave publishing last.
  abbrev pub stale : SharedDrainState watch → SharedDrainState watch
  stale s = record s {
    state = leave (leave s.state);
    active =
        send_replace (leave s.state).active (send_replace (leave (leave s.state)).active s.active);
    phases = [];
  }

  stale_reached :
      (s : SharedDrainState watch) → s.phases ≡ calling ∷ calling ∷ [] → Reach watch s (stale s)
  stale_reached s e =
      next
        (next
          (next (next here (leaves [] (calling ∷ []) e))
            (leaves (publishing (leave s.state).active ∷ []) [] refl))
          (publishes (publishing (leave s.state).active ∷ []) [] (leave (leave s.state)).active
            refl))
        (publishes [] [] (leave s.state).active refl)

  -- From every state in which exactly two calls run, a state can be reached in which both have
  -- ended and nothing more will be published, but the channel shows one active call: from then on
  -- `wait_for_idle` observes no change, and gives up at its deadline.
  pub idle_can_be_missed :
      (s : SharedDrainState watch)
      → s.phases ≡ calling ∷ calling ∷ []
      → s.state.active ≡ 2
      → (t : SharedDrainState watch) × Reach watch s t
        × (t.phases ≡ [])
        × (t.state.active ≡ 0)
        × (borrow t.active ≡ 1)
        × (wait_for_idle (borrow t.active) [] ≡ false)
  unfolding leave wait_for_idle
  idle_can_be_missed s e two = (
    stale s,
    stale_reached s e,
    refl,
    ground (arith, two),
    borrow-send _ _ ∙ ground (arith, two),
    rw (borrow-send (leave s.state).active (send_replace (leave (leave s.state)).active s.active))
        (ground (arith, two)),
  )
