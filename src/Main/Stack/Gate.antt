-- ===== src/Main/Stack/Gate.antt =====
-- What the relay stack of src/main.rs promises, with no permits and no counts: a gate that is open
-- or closed, and the calls that have passed it, each of which looks at the others to go on.
use electrum_private_relay.Prelude.{
  ℕ, ◌+◌, ◌^◌, ◌<◌, ◌≡◌, inl, inr, refl, ap, Bool, true, false, ◌&&◌, List, ◌∷◌, ◌++◌, Str, len,
  length, ltb, leb, if◌then◌else◌, Bool-cases, Option-cases, Result, ok, err, arith,
}
use electrum_private_relay.Tokio.{Semaphore}
use electrum_private_relay.Config.{Config}
use electrum_private_relay.Relay.{RelayError, failed}
use electrum_private_relay.Relay.Limited.{with_payload_budget}
use electrum_private_relay.Relay.Draining.{DrainState, enter, leave, counted, stop_accepting}
use electrum_private_relay.Main.Stack.{
  Call, entered, slotted, calling, returning, leaving, Stack, new, on_entered, submit, on_slot,
  on_permits, take_slot, on_payload, take_payload, end_call, drop_slot, leave_call, begin_shutdown,
  Move, takes_slot, takes_payload, ends_call, drops_slot, leaves_call, Step, submits, moves,
  shuts_down, Reach, here, next,
}
use electrum_private_relay.Main.Stack.Calls.{
  slot_of, bytes_of, slots, payload, slots-cons, payload-cons, slots_middle, payload_middle,
  length_middle,
}

pub record Gate : Type 0 where
  pub accepting : Bool
  pub calls : List Call

-- A call passes an open gate, unless 2^64 - 1 calls are inside; else it fails, and the gate is as it
-- was.
pub gate_submit : Str → Gate → Result RelayError (Unit {0}) × Gate
gate_submit raw g =
    if g.accepting && ltb (length g.calls + 1) (2 ^ 64)
    then (ok tt, record g { calls = entered raw ∷ g.calls })
    else (err failed, g)

-- A call inside goes on to `call`.
pub gate_move : List Call → Call → List Call → Gate → Gate
gate_move before call after g = record g { calls = before ++ call ∷ after }

-- It gets a slot while fewer than `limit` calls hold one, and has failed otherwise.
pub gate_slot : ℕ → List Call → Str → List Call → Gate → Gate
unfolding gate_move
gate_slot limit before raw after g =
    gate_move before
      (if ltb (len raw) (2 ^ 32) && ltb (slots g.calls) limit then slotted raw else leaving) after g

-- With a slot, it reaches the inner relay while the calls there have at most 128 MiB with it, and
-- has failed otherwise.
pub gate_payload : List Call → Str → List Call → Gate → Gate
unfolding gate_move
gate_payload before raw after g =
    gate_move before
      (if leb (payload g.calls + len raw) 134_217_728 then calling raw else returning raw) after g

pub gate_leave : List Call → List Call → Gate → Gate
gate_leave before after g = record g { calls = before ++ after }

pub gate_shutdown : Gate → Gate
gate_shutdown g = record g { accepting = false }

left : (drain : DrainState) → 0 < drain.active → (leave drain).active + 1 ≡ drain.active
unfolding leave
left drain h = ground arith

module _ (semaphore : Semaphore) where
  open semaphore use {
    State, try_acquire_many, drop_permits, available, available-new, available-drop, acquired,
    exhausted,
  }

  -- The gate that a stack stands for.
  abbrev pub gate_of : Stack semaphore → Gate
  gate_of s = record { accepting = s.drain.accepting; calls = s.calls }

  -- No call is counted twice or forgotten, and no permit is lost.
  pub record IsCounted (limit : ℕ) (s : Stack semaphore) : Type 0 where
    pub active : s.drain.active ≡ length s.calls
    pub slots : available s.limited.requests + slots s.calls ≡ limit
    pub bytes : available s.limited.payload_bytes + payload s.calls ≡ 134_217_728

  module _ (limit : ℕ) where
    -- A step that keeps the counts and does what the gate does.
    record Refines (out : Stack semaphore) (gate : Gate) : Type 0 where
      counted : IsCounted limit out
      same : gate_of out ≡ gate

    -- A call goes on, with other permits.
    move-IsCounted :
        (before after : List Call) (old call : Call) (requests payload_bytes : State)
        (s : Stack semaphore)
        → s.calls ≡ before ++ old ∷ after
        → available requests + slot_of call ≡ available s.limited.requests + slot_of old
        → available payload_bytes + bytes_of call ≡ available s.limited.payload_bytes + bytes_of old
        → IsCounted limit s
        → IsCounted limit (record s {
          limited = record { requests = requests; payload_bytes = payload_bytes };
          calls = before ++ call ∷ after;
        })
    move-IsCounted before after old call requests payload_bytes s e one many v = record {
      active = omega (
        arith,
        v.active,
        ap length e,
        length_middle before after old,
        length_middle before after call,
      );
      slots = omega (
        arith,
        v.slots,
        one,
        ap slots e,
        slots_middle before after old,
        slots_middle before after call,
      );
      bytes = omega (
        arith,
        v.bytes,
        many,
        ap payload e,
        payload_middle before after old,
        payload_middle before after call,
      );
    }

    submit-Refines :
        (raw : Str) (s : Stack semaphore)
        → IsCounted limit s
        → IsCounted limit (submit semaphore raw s).1
          × (((submit semaphore raw s).0, gate_of (submit semaphore raw s).1)
              ≡ gate_submit raw (gate_of s))
    unfolding submit on_entered enter counted gate_submit
    submit-Refines raw s v = elim (Bool-cases s.drain.accepting) [
      | inr shut ↦ (
        rw shut (record { active = v.active; slots = v.slots; bytes = v.bytes }),
        ground (arith, shut),
      )
      | inl accepts ↦ elim (Bool-cases (ltb (s.drain.active + 1) (2 ^ 64))) [
        | inl room ↦ (
          rw (accepts, room)
              (record {
                active = omega (arith, v.active);
                slots = omega (arith, v.slots, slots-cons (entered raw) s.calls);
                bytes = omega (arith, v.bytes, payload-cons (entered raw) s.calls);
              }),
          ground (arith, accepts, room, v.active),
        )
        | inr full ↦ (
          rw (accepts, full) (record { active = v.active; slots = v.slots; bytes = v.bytes }),
          ground (arith, accepts, full, v.active),
        )
      ]
    ]

    take_slot-Refines :
        (before after : List Call) (raw : Str) (s : Stack semaphore)
        → s.calls ≡ before ++ entered raw ∷ after
        → IsCounted limit s
        → Refines
            (take_slot semaphore before raw after s)
            (gate_slot limit before raw after (gate_of s))
    unfolding take_slot on_permits on_slot gate_slot gate_move
    take_slot-Refines before after raw s e v = elim (Bool-cases (ltb (len raw) (2 ^ 32))) [
      | inr long ↦ rw long (record {
        counted = move-IsCounted before after (entered raw) leaving _ _ s e refl refl v;
        same = refl;
      })
      | inl fits ↦ elim (Option-cases (try_acquire_many 1 s.limited.requests)) [
        | inl q ↦
            let full : ltb (slots s.calls) limit ≡ false =
              ground (arith, (exhausted 1 s.limited.requests).0 q, v.slots) in
            rw (fits, q, full)
              (record {
                counted = move-IsCounted before after (entered raw) leaving _ _ s e refl refl v;
                same = refl;
              })
        | inr (requests, q) ↦
            let one = acquired 1 s.limited.requests requests q in
            let room : ltb (slots s.calls) limit ≡ true = ground (arith, one, v.slots) in
            rw (fits, q, room)
              (record {
                counted =
                    move-IsCounted before after (entered raw) (slotted raw) requests _ s e
                      (omega (arith, one)) refl v;
                same = refl;
              })
      ]
    ]

    take_payload-Refines :
        (before after : List Call) (raw : Str) (s : Stack semaphore)
        → s.calls ≡ before ++ slotted raw ∷ after
        → IsCounted limit s
        → Refines
            (take_payload semaphore before raw after s)
            (gate_payload before raw after (gate_of s))
    unfolding take_payload on_payload gate_payload gate_move
    take_payload-Refines before after raw s e v =
        elim (Option-cases (try_acquire_many (len raw) s.limited.payload_bytes)) [
          | inl q ↦
              let full : leb (payload s.calls + len raw) 134_217_728 ≡ false =
                ground (arith, (exhausted (len raw) s.limited.payload_bytes).0 q, v.bytes) in
              rw (q, full)
                (record {
                  counted =
                      move-IsCounted before after (slotted raw) (returning raw) _ _ s e refl refl v;
                  same = refl;
                })
          | inr (bytes, q) ↦
              let many = acquired (len raw) s.limited.payload_bytes bytes q in
              let room : leb (payload s.calls + len raw) 134_217_728 ≡ true =
                ground (arith, many, v.bytes) in
              rw (q, room)
                (record {
                  counted =
                      move-IsCounted before after (slotted raw) (calling raw) _ bytes s e refl
                        (omega (arith, many)) v;
                  same = refl;
                })
        ]

    Move-IsCounted :
        {s t : Stack semaphore} → Move semaphore s t → IsCounted limit s → IsCounted limit t
    unfolding end_call drop_slot leave_call
    Move-IsCounted {s} (takes_slot before after raw e) v =
        (take_slot-Refines before after raw s e v).counted
    Move-IsCounted {s} (takes_payload before after raw e) v =
        (take_payload-Refines before after raw s e v).counted
    Move-IsCounted {s} (ends_call before after raw e) v =
        move-IsCounted before after (calling raw) (returning raw) _ _ s e refl
          (omega (arith, available-drop (len raw) s.limited.payload_bytes)) v
    Move-IsCounted {s} (drops_slot before after raw e) v =
        move-IsCounted before after (returning raw) leaving _ _ s e
          (omega (arith, available-drop 1 s.limited.requests)) refl v
    Move-IsCounted {s} (leaves_call before after e) v =
        let one = length_middle before after leaving in
        record {
          active = omega (
            arith,
            left s.drain (omega (arith, v.active, ap length e, one)),
            v.active,
            ap length e,
            one,
          );
          slots = omega (arith, v.slots, ap slots e, slots_middle before after leaving);
          bytes = omega (arith, v.bytes, ap payload e, payload_middle before after leaving);
        }

    Step-IsCounted :
        {s t : Stack semaphore} → Step semaphore s t → IsCounted limit s → IsCounted limit t
    unfolding begin_shutdown stop_accepting
    Step-IsCounted {s} (submits raw) v = (submit-Refines raw s v).0
    Step-IsCounted (moves step) v = Move-IsCounted step v
    Step-IsCounted shuts_down v = record { active = v.active; slots = v.slots; bytes = v.bytes }

  Reach-IsCounted :
      (config : Config) {s : Stack semaphore}
      → Reach semaphore (new semaphore config) s
      → IsCounted config.max_concurrent_broadcasts.get s
  unfolding new with_payload_budget
  Reach-IsCounted config here = record {
    active = refl;
    slots = omega (arith, available-new config.max_concurrent_broadcasts.get);
    bytes = omega (arith, available-new 134_217_728);
  }
  Reach-IsCounted config (next r step) =
      Step-IsCounted config.max_concurrent_broadcasts.get step (Reach-IsCounted config r)

  -- The relay stack does what the gate does, however its calls interleave. In every reachable state
  -- a call is let in or refused as at the gate; a call inside gets its slot, and then its payload,
  -- exactly when the calls that hold slots, and those in the inner relay, leave room for it; its
  -- end, its leaving and the shutdown are those of the gate. And in every reachable state the count
  -- of the drain is the number of calls inside, and the permits that are free are exactly those that
  -- no call holds.
  pub stack_is_gate :
      (config : Config) (s : Stack semaphore)
      → Reach semaphore (new semaphore config) s
      → ((raw : Str)
          → ((submit semaphore raw s).0, gate_of (submit semaphore raw s).1)
            ≡ gate_submit raw (gate_of s))
        × ((before after : List Call) (raw : Str)
            → s.calls ≡ before ++ entered raw ∷ after
            → gate_of (take_slot semaphore before raw after s)
              ≡ gate_slot config.max_concurrent_broadcasts.get before raw after (gate_of s))
        × ((before after : List Call) (raw : Str)
            → s.calls ≡ before ++ slotted raw ∷ after
            → gate_of (take_payload semaphore before raw after s)
              ≡ gate_payload before raw after (gate_of s))
        × ((before after : List Call) (raw : Str)
            → gate_of (end_call semaphore before raw after s)
              ≡ gate_move before (returning raw) after (gate_of s))
        × ((before after : List Call)
            → gate_of (drop_slot semaphore before after s)
              ≡ gate_move before leaving after (gate_of s))
        × ((before after : List Call)
            → gate_of (leave_call semaphore before after s) ≡ gate_leave before after (gate_of s))
        × (gate_of (begin_shutdown semaphore s) ≡ gate_shutdown (gate_of s))
        × IsCounted config.max_concurrent_broadcasts.get s
  unfolding end_call drop_slot leave_call leave begin_shutdown stop_accepting gate_move gate_leave
      gate_shutdown
  stack_is_gate config s r =
      let limit = config.max_concurrent_broadcasts.get in
      let v = Reach-IsCounted config r in
      (
        λ raw. (submit-Refines limit raw s v).1,
        λ before after raw e. (take_slot-Refines limit before after raw s e v).same,
        λ before after raw e. (take_payload-Refines limit before after raw s e v).same,
        λ before after raw. refl,
        λ before after. refl,
        λ before after. ground arith,
        refl,
        v,
      )
