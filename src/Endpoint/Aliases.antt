-- ===== src/Endpoint/Aliases.antt =====
-- `same_target` of src/endpoint.rs as a relation between endpoints.
use electrum_private_relay.Prelude.{◌≡◌, refl, sym, ◌∙◌, true}
use electrum_private_relay.Net.{SocketAddr}
use electrum_private_relay.Endpoint.{Endpoint, same_target, could_target_listener}
use electrum_private_relay.Endpoint.Targets.{same_target_iff, could_target_listener_iff}

-- Being the same target is an equivalence: every endpoint is the same target as itself, and the
-- relation is symmetric and transitive.
same_target_equivalence :
    (e f g : Endpoint)
    → (same_target e e ≡ true)
      × (same_target e f ≡ true → same_target f e ≡ true)
      × (same_target e f ≡ true → same_target f g ≡ true → same_target e g ≡ true)
same_target_equivalence e f g = (
  (same_target_iff e e).1 (refl, refl),
  λ h. let (port, same) = (same_target_iff e f).0 h in (same_target_iff f e).1 (sym port, sym same),
  λ h k.
      let (port, same) = (same_target_iff e f).0 h in
      let (port', same') = (same_target_iff f g).0 k in
      (same_target_iff e g).1 (port ∙ port', same ∙ same'),
)

-- The loop guard does not depend on the spelling: it gives the same answer for endpoints that are
-- the same target, at every listener.
could_target_listener-same_target :
    (e f : Endpoint) (listener : SocketAddr)
    → same_target e f ≡ true
    → could_target_listener e listener ≡ could_target_listener f listener
could_target_listener-same_target e f listener h =
    let (port, same) = (same_target_iff e f).0 h in
    rw (could_target_listener_iff e listener, could_target_listener_iff f listener, same, port)
