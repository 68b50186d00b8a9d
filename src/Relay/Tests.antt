-- ===== src/Relay/Tests.antt =====
-- The theorems on the relays at small runs.
use electrum_private_relay.Prelude.{
  ◌+◌, ◌^◌, ◌≤◌, ◌<◌, ◌≡◌, ◌≢◌, ◌↔◌, refl, true, false, [], ◌∷◌, codes, len, length, bytes, ok, err,
}
use electrum_private_relay.Tokio.{counter, cell}
use electrum_private_relay.Relay.{failed}
use electrum_private_relay.Relay.Limited.{
  Limiter, start, with_payload_budget, admit, acquire_permits, acquire_request, acquire_payload,
  on_admission, calls, Reach, here, next,
}
use electrum_private_relay.Relay.Limited.Bounds.{total_bytes, running_bounded, admit_iff}
use electrum_private_relay.Relay.Draining.{
  Phase, entering, calling, publishing, SharedDrainState, new, enter, counted, wait_for_idle,
  observe_idle, stop_accepting, enters, announces, shuts_down, begin_shutdown,
}
use electrum_private_relay.Relay.Draining
use electrum_private_relay.Relay.Draining.Counting.{
  live, active_counts_live, Closed, shutdown_is_final,
}
use electrum_private_relay.Relay.Draining.Publishing.{idle_can_be_missed}

-- A limiter of one call and four bytes, with one call running.
abbrev busy : Limiter counter
busy =
    on_admission counter (codes "00") (start counter 1 4)
      (admit counter (codes "00") (start counter 1 4).relay)

busy-Reach : Reach counter (start counter 1 4) busy
busy-Reach = next here (calls (codes "00"))

refused : (admit counter (codes "11") busy.relay).0 ≡ err failed
unfolding start with_payload_budget admit acquire_permits acquire_request acquire_payload
    on_admission bytes
refused = refl

running_bounded_example :
    (length busy.running ≤ 1)
    × (total_bytes busy.running ≤ 4)
    × (busy.relay.requests + length busy.running ≡ 1)
    × (busy.relay.payload_bytes + total_bytes busy.running ≡ 4)
running_bounded_example = running_bounded counter 1 4 busy busy-Reach

admit_iff_example :
    let out = admit counter (codes "11") busy.relay in
    ((out.0 ≡ ok tt) ↔ (
      (len (codes "11") < 2 ^ 32)
      × (length busy.running < 1)
      × (total_bytes busy.running + len (codes "11") ≤ 4)))
    × (out.0 ≢ ok tt
        → (out.0 ≡ err failed)
          × ((out.1).requests ≡ busy.relay.requests)
          × ((out.1).payload_bytes ≡ busy.relay.payload_bytes))
admit_iff_example = admit_iff counter 1 4 busy (codes "11") busy-Reach

-- A draining relay with one call, before and after its shutdown begins.
abbrev entered : SharedDrainState cell
entered = record {
  state = record { accepting = true; active = 1 };
  active = 0;
  phases = entering 1 ∷ [];
  admitted = 1;
}

abbrev closing : SharedDrainState cell
closing = record {
  state = record { accepting = false; active = 1 };
  active = 0;
  phases = publishing 1 ∷ entering 1 ∷ [];
  admitted = 1;
}

entered-Reach : Draining.Reach cell (new cell) entered
unfolding new enter counted
entered-Reach =
    Draining.Reach.next Draining.Reach.here (enters (record { accepting = true; active = 1 }) refl)

closing-Reach : Draining.Reach cell (new cell) closing
unfolding stop_accepting begin_shutdown
closing-Reach = Draining.Reach.next entered-Reach shuts_down

active_counts_live_example : 1 ≡ live closing.phases
active_counts_live_example = active_counts_live cell closing closing-Reach

abbrev announced : SharedDrainState cell
announced = record closing { active = 1; phases = publishing 1 ∷ calling ∷ [] }

announced-Reach : Draining.Reach cell (begin_shutdown cell entered) announced
unfolding stop_accepting begin_shutdown
announced-Reach = Draining.Reach.next Draining.Reach.here (announces (publishing 1 ∷ []) [] 1 refl)

shutdown_is_final_example : Closed cell entered announced × (enter announced.state ≡ err failed)
shutdown_is_final_example = shutdown_is_final cell entered announced announced-Reach

abbrev two_calls : SharedDrainState cell
two_calls = record {
  state = record { accepting = true; active = 2 };
  active = 2;
  phases = calling ∷ calling ∷ [];
  admitted = 2;
}

idle_can_be_missed_example :
    (t : SharedDrainState cell) × Draining.Reach cell two_calls t
    × (t.phases ≡ [])
    × (t.state.active ≡ 0)
    × (t.active ≡ 1)
    × (wait_for_idle t.active [] ≡ false)
idle_can_be_missed_example = idle_can_be_missed cell two_calls refl refl
