-- ===== src/Proxy/Server/Counts.antt =====
-- The tasks of the server of src/proxy.rs and their slots add up.
use electrum_private_relay.Prelude.{
  ℕ, ◌+◌, ◌<◌, ◌≡◌, ◌≢◌, ◌⊎◌, inl, inr, refl, ap, Bool, true, false, Option, none, some, List, [],
  ◌∷◌, ◌++◌, length, length-append, Result, ok, err, arith,
}
use electrum_private_relay.Tokio.{Semaphore}
use electrum_private_relay.Config.{Config}
use electrum_private_relay.Proxy.Server.{
  ProxyError, io_error, connection_task_failed, ShutdownReport, ConnectionTask, connecting,
  proxying, returned, panicked, cancelled, Phase, accepting, draining, cancelling, ended, permits,
  live, Server, IsJoining, IsAborting, finish, cancel, on_permit, on_accepted, on_failed_join,
  on_joined, on_drained, end_task,
}

live-append : (xs ys : List ConnectionTask) → live (xs ++ ys) ≡ live xs + live ys
unfolding live
live-append [] ys = omega arith
live-append (x ∷ xs) ys = omega (arith, live-append xs ys)

live_middle :
    (xs ys : List ConnectionTask) (task : ConnectionTask)
    → live (xs ++ task ∷ ys) ≡ permits task + live (xs ++ ys)
unfolding live
live_middle xs ys task = omega (arith, live-append xs (task ∷ ys), live-append xs ys)

length_middle :
    (xs ys : List ConnectionTask) (task : ConnectionTask)
    → length (xs ++ task ∷ ys) ≡ 1 + length (xs ++ ys)
length_middle xs ys task = omega (arith, length-append xs (task ∷ ys), length-append xs ys)

-- A server that joins its tasks has no result yet.
pub joining-ne-aborting :
    (phase : Phase) (result : Result ProxyError ShutdownReport)
    → IsJoining phase
    → IsAborting phase result
    → ⊥
joining-ne-aborting phase result (inl p) (inl q) = ground (arith, p, q)
joining-ne-aborting phase result (inl p) (inr q) = ground (arith, p, q)
joining-ne-aborting phase result (inr p) (inl q) = ground (arith, p, q)
joining-ne-aborting phase result (inr p) (inr q) = ground (arith, p, q)

length_pos : (tasks : List ConnectionTask) → tasks ≢ [] → 0 < length tasks
length_pos [] h = absurd (h refl)
length_pos (task ∷ tasks) h = omega arith

-- What a report says of the counts: all tasks were joined, or not all.
pub record IsTrue (report : ShutdownReport) (spawned joined : ℕ) : Type 0 where
  pub says :
      ((report.all_connections_drained ≡ true) × (joined ≡ spawned))
      ⊎ ((report.all_connections_drained ≡ false) × (joined < spawned))

module _ (semaphore : Semaphore) where
  open semaphore use {State, try_acquire_many, available, available-new, acquired, available-drop}

  pub record Inv (config : Config) (s : Server semaphore) : Type 0 where
    pub slots : available s.connection_slots + live s.connections ≡ config.max_connections
    pub serving : IsJoining s.phase → s.joined + length s.connections ≡ s.spawned
    pub over :
        (result : Result ProxyError ShutdownReport)
        → s.phase ≡ ended result
        → result ≢ err io_error
        → s.connections ≡ []
    pub reported :
        (report : ShutdownReport)
        → IsAborting s.phase (ok report)
        → IsTrue report s.spawned s.joined

  module _ (config : Config) where
    on_permit-Inv :
        (s : Server semaphore) (o : Option State)
        → try_acquire_many 1 s.connection_slots ≡ o
        → s.phase ≡ accepting
        → Inv config s
        → Inv config (on_permit semaphore o s)
    unfolding on_permit live permits
    on_permit-Inv s none q p i = i
    on_permit-Inv s (some slots) q p i = record {
      slots = omega (arith, i.slots, acquired 1 s.connection_slots slots q);
      serving = λ h. omega (arith, i.serving h);
      over = λ r e. absurd (joining-ne-aborting s.phase r (inl p) (inr e));
      reported = λ r e. absurd (joining-ne-aborting s.phase (ok r) (inl p) e);
    }

    -- The server returns.
    pub finish-Inv :
        (s : Server semaphore) (result : Result ProxyError ShutdownReport)
        → available s.connection_slots + live s.connections ≡ config.max_connections
        → (result ≢ err io_error → s.connections ≡ [])
        → ((report : ShutdownReport) → result ≡ ok report → IsTrue report s.spawned s.joined)
        → Inv config (finish semaphore result s)
    unfolding finish
    finish-Inv s result slots empty report_true = record {
      slots = slots;
      serving = λ h. absurd (joining-ne-aborting (ended result) result h (inr refl));
      over = λ r e ne. empty (λ q. ne (ground (arith, e, q)));
      reported = λ r e. report_true r (ground (arith, e));
    }

    -- The server cancels its tasks, with a result.
    cancel-Inv :
        (s : Server semaphore) (result : Result ProxyError ShutdownReport)
        → available s.connection_slots + live s.connections ≡ config.max_connections
        → ((report : ShutdownReport) → result ≡ ok report → IsTrue report s.spawned s.joined)
        → Inv config (cancel semaphore result s)
    unfolding cancel
    cancel-Inv s result slots report_true = record {
      slots = slots;
      serving = λ h. absurd (joining-ne-aborting (cancelling result) result h (inl refl));
      over = λ r e. absurd cc;
      reported = λ r e. report_true r (ground (arith, e));
    }

    pub on_accepted-Inv :
        (s : Server semaphore) (good : Bool)
        → s.phase ≡ accepting
        → Inv config s
        → Inv config (on_accepted semaphore good s)
    unfolding on_accepted
    on_accepted-Inv s true p i = on_permit-Inv s _ refl p i
    on_accepted-Inv s false p i =
        finish-Inv s (err io_error) i.slots (λ ne. absurd (ne refl)) (λ r e. absurd cc)

    -- A task that has ended badly is taken out of the join set.
    on_failed_join-Inv :
        (s : Server semaphore) (phase : Phase)
        → s.phase ≡ phase
        → available s.connection_slots + live s.connections ≡ config.max_connections
        → s.joined + length s.connections + 1 ≡ s.spawned
        → IsJoining phase
        → Inv config (on_failed_join semaphore phase s)
    unfolding on_failed_join
    on_failed_join-Inv s accepting p slots count h =
        cancel-Inv s (err connection_task_failed) slots (λ r e. absurd cc)
    on_failed_join-Inv s draining p slots count h =
        cancel-Inv s (ok (record { all_connections_drained = false })) slots
          (λ r e. record { says = inr (ground arith, omega (arith, count)) })
    on_failed_join-Inv s (cancelling result) p slots count h =
        absurd (joining-ne-aborting (cancelling result) result h (inl refl))
    on_failed_join-Inv s (ended result) p slots count h =
        absurd (joining-ne-aborting (ended result) result h (inr refl))

    -- What is left when a task without a permit is taken out.
    removed_slots :
        (s : Server semaphore) (before after : List ConnectionTask) (task : ConnectionTask)
        → s.connections ≡ before ++ task ∷ after
        → permits task ≡ 0
        → Inv config s
        → available s.connection_slots + live (before ++ after) ≡ config.max_connections
    removed_slots s before after task e none_held i =
        omega (arith, i.slots, none_held, ap live e, live_middle before after task)

    failed-Inv :
        (s : Server semaphore) (task : ConnectionTask) (before after : List ConnectionTask)
        → IsJoining s.phase
        → s.connections ≡ before ++ task ∷ after
        → permits task ≡ 0
        → Inv config s
        → Inv config (on_failed_join semaphore s.phase (record s { connections = before ++ after }))
    failed-Inv s task before after h e none_held i =
        on_failed_join-Inv (record s { connections = before ++ after }) s.phase refl
          (removed_slots s before after task e none_held i)
          (omega (arith, i.serving h, ap length e, length_middle before after task)) h

    pub on_joined-Inv :
        (s : Server semaphore) (task : ConnectionTask) (before after : List ConnectionTask)
        → IsJoining s.phase
        → s.connections ≡ before ++ task ∷ after
        → Inv config s
        → Inv config (on_joined semaphore task (before ++ after) s)
    unfolding on_joined permits
    on_joined-Inv s returned before after h e i = record {
      slots = removed_slots s before after returned e refl i;
      serving = λ k. omega (arith, i.serving k, ap length e, length_middle before after returned);
      over = λ r q. absurd (joining-ne-aborting s.phase r h (inr q));
      reported = λ r q. absurd (joining-ne-aborting s.phase (ok r) h q);
    }
    on_joined-Inv s panicked before after h e i = failed-Inv s panicked before after h e refl i
    on_joined-Inv s cancelled before after h e i = failed-Inv s cancelled before after h e refl i
    on_joined-Inv s connecting before after h e i = i
    on_joined-Inv s proxying before after h e i = i

    -- A task that was cancelled is taken out.
    pub discard-Inv :
        (s : Server semaphore) (result : Result ProxyError ShutdownReport) (task : ConnectionTask)
        (before after : List ConnectionTask)
        → s.phase ≡ cancelling result
        → permits task ≡ 0
        → s.connections ≡ before ++ task ∷ after
        → Inv config s
        → Inv config (record s { connections = before ++ after })
    discard-Inv s result task before after p none_held e i = record {
      slots = removed_slots s before after task e none_held i;
      serving = λ k. absurd (joining-ne-aborting s.phase result k (inl p));
      over = λ r q. absurd (ground (arith, p, q));
      reported = i.reported;
    }

    -- A task changes, and keeps its place in the join set.
    pub replace-Inv :
        (s : Server semaphore) (old task : ConnectionTask) (before after : List ConnectionTask)
        (slots : State)
        → s.connections ≡ before ++ old ∷ after
        → available slots + permits task ≡ available s.connection_slots + permits old
        → Inv config s
        → Inv config (record s { connections = before ++ task ∷ after; connection_slots = slots })
    replace-Inv s old task before after slots e balance i = record {
      slots = omega (
        arith,
        i.slots,
        balance,
        ap live e,
        live_middle before after old,
        live_middle before after task,
      );
      serving = λ h. omega (
        arith,
        i.serving h,
        ap length e,
        length_middle before after old,
        length_middle before after task,
      );
      over = λ r q ne.
          absurd
            (omega (arith, ap length e, ap length (i.over r q ne), length_middle before after old));
      reported = i.reported;
    }

    pub end_task-Inv :
        (s : Server semaphore) (old task : ConnectionTask) (before after : List ConnectionTask)
        → s.connections ≡ before ++ old ∷ after
        → permits old ≡ 1
        → permits task ≡ 0
        → Inv config s
        → Inv config (end_task semaphore task before after s)
    unfolding end_task
    end_task-Inv s old task before after e one released i =
        replace-Inv s old task before after _ e
          (omega (arith, one, released, available-drop 1 s.connection_slots)) i

    -- Every task was joined, or the time is over with some left.
    pub on_drained-Inv :
        (s : Server semaphore) (drained : Bool)
        → s.phase ≡ draining
        → ((drained ≡ true) × (s.connections ≡ [])) ⊎ ((drained ≡ false) × (s.connections ≢ []))
        → Inv config s
        → Inv config (on_drained semaphore drained s)
    unfolding on_drained
    on_drained-Inv s true p (inl (d, empty)) i =
        finish-Inv s _ i.slots (λ ne. empty)
          (λ r e. record {
            says = inl (ground arith, omega (arith, i.serving (inr p), ap length empty));
          })
    on_drained-Inv s true p (inr (d, some_left)) i = absurd cc
    on_drained-Inv s false p (inl (d, empty)) i = absurd cc
    on_drained-Inv s false p (inr (d, some_left)) i = cancel-Inv s _ i.slots (λ r e. record {
      says =
          inr (ground arith, omega (arith, i.serving (inr p), length_pos s.connections some_left));
    })
