-- ===== src/Relay/Draining.antt =====
-- src/relay/draining.rs: the shutdown boundary of the relay. What is done under the mutex is one
-- step, and the `send_replace` that follows it another: other calls may come between the two.
pub mod Counting
pub mod Publishing
use electrum_private_relay.Prelude.{
  ℕ, zero, suc, ◌+◌, ◌-◌, ◌^◌, ◌≡◌, ◌<◌, Bool, true, false, not, Option, none, some, List, [], ◌∷◌,
  ◌++◌, ltb, ◌==◌, if◌then◌else◌, Result, ok, err,
}
use electrum_private_relay.Relay.{RelayError, failed}
use electrum_private_relay.Tokio.{Watch}

pub record DrainState : Type 0 where
  pub accepting : Bool
  pub active : ℕ

-- `usize::checked_add`
abbrev pub checked_add : ℕ → ℕ → Option ℕ
checked_add a b = if ltb (a + b) (2 ^ 64) then some (a + b) else none

unfoldable pub counted : DrainState → Option ℕ → Result RelayError DrainState
counted state none = err failed
counted state (some active) = ok (record state { active = active })

-- The critical section of `broadcast`.
unfoldable pub enter : DrainState → Result RelayError DrainState
unfolding counted
enter state = if not state.accepting then err failed else counted state (checked_add state.active 1)

-- The critical section of `ActiveRelayCall::drop`.
unfoldable pub leave : DrainState → DrainState
leave state = if ltb 0 state.active then record state { active = state.active - 1 } else state

-- The critical section of `begin_shutdown`.
unfoldable pub stop_accepting : DrainState → DrainState
stop_accepting state = record state { accepting = false }

-- Where a call stands: it has entered, and will publish the count; it waits for the inner relay; or
-- it has left, or begun a shutdown, and will publish the count.
pub data Phase : Type 0 where
  entering : ℕ → Phase
  calling : Phase
  publishing : ℕ → Phase

-- The loop of `wait_for_idle` over the values that it observes before its deadline.
unfoldable pub observe_idle : List ℕ → Bool
observe_idle [] = false
observe_idle (active ∷ later) = if active == 0 then true else observe_idle later

unfoldable pub wait_for_idle : ℕ → List ℕ → Bool
unfolding observe_idle
wait_for_idle current later = if current == 0 then true else observe_idle later

module _ (watch : Watch) where
  open watch use {State, channel, send_replace}

  -- The shared state, its watch channel, the calls in progress and how many were ever admitted.
  pub record SharedDrainState : Type 0 where
    pub state : DrainState
    pub active : State
    pub phases : List Phase
    pub admitted : ℕ

  -- `DrainingRelay::new`
  unfoldable pub new : SharedDrainState
  new = record {
    state = record { accepting = true; active = 0 };
    active = channel 0;
    phases = [];
    admitted = 0;
  }

  -- `begin_shutdown`, up to its publication of the count.
  unfoldable pub begin_shutdown : SharedDrainState → SharedDrainState
  begin_shutdown s = record s {
    state = stop_accepting s.state;
    phases = publishing (stop_accepting s.state).active ∷ s.phases;
  }

  -- A call refused by `enter` changes nothing and never reaches the inner relay.
  pub data Step (s : SharedDrainState) : SharedDrainState → Type 0 where
    enters :
        (state : DrainState)
        → enter s.state ≡ ok state
        → Step s (record s {
          state = state;
          phases = entering state.active ∷ s.phases;
          admitted = s.admitted + 1;
        })
    announces :
        (before after : List Phase) (active : ℕ)
        → s.phases ≡ before ++ entering active ∷ after
        → Step s
            (record s { active = send_replace active s.active; phases = before ++ calling ∷ after })
    leaves :
        (before after : List Phase)
        → s.phases ≡ before ++ calling ∷ after
        → Step s (record s {
          state = leave s.state;
          phases = before ++ publishing (leave s.state).active ∷ after;
        })
    publishes :
        (before after : List Phase) (active : ℕ)
        → s.phases ≡ before ++ publishing active ∷ after
        → Step s (record s { active = send_replace active s.active; phases = before ++ after })
    shuts_down : Step s (begin_shutdown s)

  pub data Reach (s : SharedDrainState) : SharedDrainState → Type 0 where
    here : Reach s s
    next : {t u : SharedDrainState} → Reach s t → Step t u → Reach s u
