-- ===== src/Proxy/Server/Outcomes.antt =====
-- What the server of src/proxy.rs admits, and what its report says.
use electrum_private_relay.Prelude.{
  ◌+◌, ◌≤◌, ◌<◌, ◌≡◌, ◌≢◌, ◌↔◌, inl, inr, refl, ap, Bool, true, false, List, [], ◌∷◌, ◌++◌,
  Option-cases, Result, ok, err, ◌∙◌, arith,
}
use electrum_private_relay.Tokio.{Semaphore}
use electrum_private_relay.Config.{Config}
use electrum_private_relay.Proxy.Server.{
  ProxyError, ShutdownReport, ConnectionTask, connecting, proxying, returned, panicked, cancelled,
  Phase, io_error, accepting, draining, cancelling, ended, cancel, is_cancelled, discards, finishes,
  permits, live, Server, serve_until, finish, on_permit, on_accepted, on_failed_join, on_joined,
  on_shutdown, on_drained, end_task, Step, accepts, joins, shuts_down, drains, expires, connects,
  gives_up, closes, panics, Reach, here, next,
}
use electrum_private_relay.Proxy.Server.Counts.{
  Inv, joining-ne-aborting, finish-Inv, discard-Inv, on_accepted-Inv, on_joined-Inv, replace-Inv,
  end_task-Inv, on_drained-Inv,
}

live-nil : live [] ≡ 0
unfolding live
live-nil = refl

module _ (semaphore : Semaphore) where
  open semaphore use {State, try_acquire_many, available, available-new, acquired, exhausted}

  Step-Inv :
      (config : Config) {s t : Server semaphore}
      → Step semaphore s t
      → Inv semaphore config s
      → Inv semaphore config t
  unfolding on_shutdown permits
  Step-Inv config {s} (accepts good p) i = on_accepted-Inv semaphore config s good p i
  Step-Inv config {s} (joins task before after h e) i =
      on_joined-Inv semaphore config s task before after h e i
  Step-Inv config {s} (shuts_down p) i = record {
    slots = i.slots;
    serving = λ h. i.serving (inl p);
    over = λ r q ne. absurd (ground arith);
    reported = λ r q. absurd (joining-ne-aborting draining (ok r) (inr refl) q);
  }
  Step-Inv config {s} (drains p e) i = on_drained-Inv semaphore config s true p (inl (refl, e)) i
  Step-Inv config {s} (expires p e) i = on_drained-Inv semaphore config s false p (inr (refl, e)) i
  Step-Inv config {s} (connects before after e) i =
      replace-Inv semaphore config s connecting proxying before after s.connection_slots e refl i
  Step-Inv config {s} (gives_up before after e) i =
      end_task-Inv semaphore config s connecting returned before after e refl refl i
  Step-Inv config {s} (closes before after e) i =
      end_task-Inv semaphore config s proxying returned before after e refl refl i
  Step-Inv config {s} (panics task before after one e) i =
      end_task-Inv semaphore config s task panicked before after e one refl i
  Step-Inv config {s} (is_cancelled result task before after p one e) i =
      end_task-Inv semaphore config s task cancelled before after e one refl i
  Step-Inv config {s} (discards result task before after p none_held e) i =
      discard-Inv semaphore config s result task before after p none_held e i
  Step-Inv config {s} (finishes result p empty) i =
      finish-Inv semaphore config s result i.slots (λ ne. empty)
        (λ r e. i.reported r (inl (p ∙ ap cancelling e)))

  serve_until-Inv :
      (config : Config) (bound : Bool) → Inv semaphore config (serve_until semaphore bound config)
  unfolding serve_until live
  serve_until-Inv config true = record {
    slots = omega (arith, available-new config.max_connections);
    serving = λ h. refl;
    over = λ r q ne. refl;
    reported = λ r q. absurd (joining-ne-aborting accepting (ok r) (inl refl) q);
  }
  serve_until-Inv config false = record {
    slots = omega (arith, available-new config.max_connections);
    serving = λ h. refl;
    over = λ r q ne. refl;
    reported = λ r q. absurd (elim q [ inl e ↦ cc | inr e ↦ cc ]);
  }

  Reach-Inv :
      (config : Config) (bound : Bool) {s : Server semaphore}
      → Reach semaphore (serve_until semaphore bound config) s
      → Inv semaphore config s
  Reach-Inv config bound here = serve_until-Inv config bound
  Reach-Inv config bound (next r step) = Step-Inv config step (Reach-Inv config bound r)

  -- However wallets connect, tasks end and the shutdown comes, the tasks that connect or proxy never
  -- exceed the configured number of connections, and the free slots are exactly the rest.
  pub connections_bounded :
      (config : Config) (bound : Bool) (s : Server semaphore)
      → Reach semaphore (serve_until semaphore bound config) s
      → (live s.connections ≤ config.max_connections)
        × (available s.connection_slots + live s.connections ≡ config.max_connections)
  connections_bounded config bound s r =
      let i = Reach-Inv config bound r in (omega (arith, i.slots), i.slots)

  -- A server that accepts starts a task for a wallet, in one more slot and with the others as they
  -- are, exactly when fewer tasks than the configured number hold a slot; else it drops the
  -- connection and its state stays as it is.
  pub accepted_iff_slot :
      (config : Config) (bound : Bool) (s : Server semaphore)
      → Reach semaphore (serve_until semaphore bound config) s
      → let t = on_accepted semaphore true s in
        (live s.connections < config.max_connections
          → (t.connections ≡ connecting ∷ s.connections)
            × (t.spawned ≡ s.spawned + 1)
            × (t.phase ≡ s.phase)
            × (available s.connection_slots ≡ available t.connection_slots + 1))
        × (config.max_connections ≤ live s.connections → t ≡ s)
  unfolding on_accepted
  accepted_iff_slot config bound s r =
      let i = Reach-Inv config bound r in
      elim (Option-cases (try_acquire_many 1 s.connection_slots)) [
        | inl q ↦ rw q (
          λ room. absurd (omega (arith, i.slots, (exhausted 1 s.connection_slots).0 q)),
          λ full. unfold on_permit in refl,
        )
        | inr (slots, q) ↦
            let taken = acquired 1 s.connection_slots slots q in
            rw q (
              λ room. unfold on_permit in (refl, refl, refl, taken),
              λ full. absurd (omega (arith, i.slots, taken)),
            )
      ]

  -- When the server has ended, but for an error of the listener, no task is left and every slot is
  -- free. After an error of the listener tasks may be left, which nothing waits for, and the slots
  -- are free but for those of the tasks that still run. A report says that all connections were
  -- drained exactly when every task that was ever started has been joined without a panic.
  pub report_is_true :
      (config : Config) (bound : Bool) (s : Server semaphore)
      (result : Result ProxyError ShutdownReport)
      → Reach semaphore (serve_until semaphore bound config) s
      → s.phase ≡ ended result
      → (result ≢ err io_error
          → (s.connections ≡ []) × (available s.connection_slots ≡ config.max_connections))
        × (available s.connection_slots + live s.connections ≡ config.max_connections)
        × ((report : ShutdownReport)
            → result ≡ ok report
            → (report.all_connections_drained ≡ true) ↔ (s.joined ≡ s.spawned))
  report_is_true config bound s result r p =
      let i = Reach-Inv config bound r in
      (
        λ ne.
            let empty = i.over result p ne in
            (empty, omega (arith, i.slots, ap live empty, live-nil)),
        i.slots,
        λ report q. ground (arith, (i.reported report (inr (p ∙ ap ended q))).says),
      )

  -- The server takes no wallet any more.
  pub record IsClosed (s t : Server semaphore) : Type 0 where
    pub closed : t.phase ≢ accepting
    pub told : t.shutdown_sent ≡ true
    pub spawned : t.spawned ≡ s.spawned

  finish-IsClosed :
      (s t : Server semaphore) (result : Result ProxyError ShutdownReport)
      → IsClosed s t
      → IsClosed s (finish semaphore result t)
  unfolding finish
  finish-IsClosed s t result c = record {
    closed = λ q. absurd cc;
    told = c.told;
    spawned = c.spawned;
  }

  cancel-IsClosed :
      (s t : Server semaphore) (result : Result ProxyError ShutdownReport)
      → IsClosed s t
      → IsClosed s (cancel semaphore result t)
  unfolding cancel
  cancel-IsClosed s t result c = record {
    closed = λ q. absurd cc;
    told = c.told;
    spawned = c.spawned;
  }

  on_failed_join-IsClosed :
      (s t : Server semaphore) (phase : Phase)
      → IsClosed s t
      → IsClosed s (on_failed_join semaphore phase t)
  unfolding on_failed_join
  on_failed_join-IsClosed s t accepting c = cancel-IsClosed s t _ c
  on_failed_join-IsClosed s t draining c = cancel-IsClosed s t _ c
  on_failed_join-IsClosed s t (cancelling result) c = c
  on_failed_join-IsClosed s t (ended result) c = c

  -- Only the tasks and the slots change.
  tasks-IsClosed :
      (s t : Server semaphore) (tasks : List ConnectionTask) (slots : State)
      → IsClosed s t
      → IsClosed s (record t { connections = tasks; connection_slots = slots })
  tasks-IsClosed s t tasks slots c = record {
    closed = c.closed;
    told = c.told;
    spawned = c.spawned;
  }

  on_joined-IsClosed :
      (s t : Server semaphore) (task : ConnectionTask) (rest : List ConnectionTask)
      → IsClosed s t
      → IsClosed s (on_joined semaphore task rest t)
  unfolding on_joined
  on_joined-IsClosed s t returned rest c = record {
    closed = c.closed;
    told = c.told;
    spawned = c.spawned;
  }
  on_joined-IsClosed s t panicked rest c =
      on_failed_join-IsClosed s (record t { connections = rest }) t.phase
        (tasks-IsClosed s t rest t.connection_slots c)
  on_joined-IsClosed s t cancelled rest c =
      on_failed_join-IsClosed s (record t { connections = rest }) t.phase
        (tasks-IsClosed s t rest t.connection_slots c)
  on_joined-IsClosed s t connecting rest c = c
  on_joined-IsClosed s t proxying rest c = c

  on_drained-IsClosed :
      (s t : Server semaphore) (drained : Bool)
      → IsClosed s t
      → IsClosed s (on_drained semaphore drained t)
  unfolding on_drained
  on_drained-IsClosed s t true c = finish-IsClosed s t _ c
  on_drained-IsClosed s t false c = cancel-IsClosed s t _ c

  Step-IsClosed :
      (s : Server semaphore) {t u : Server semaphore}
      → Step semaphore t u
      → IsClosed s t
      → IsClosed s u
  unfolding end_task
  Step-IsClosed s (accepts good p) c = absurd (c.closed p)
  Step-IsClosed s {t} (joins task before after h e) c =
      on_joined-IsClosed s t task (before ++ after) c
  Step-IsClosed s (shuts_down p) c = absurd (c.closed p)
  Step-IsClosed s {t} (drains p e) c = on_drained-IsClosed s t true c
  Step-IsClosed s {t} (expires p e) c = on_drained-IsClosed s t false c
  Step-IsClosed s {t} (connects before after e) c = tasks-IsClosed s t _ t.connection_slots c
  Step-IsClosed s {t} (gives_up before after e) c = tasks-IsClosed s t _ _ c
  Step-IsClosed s {t} (closes before after e) c = tasks-IsClosed s t _ _ c
  Step-IsClosed s {t} (panics task before after one e) c = tasks-IsClosed s t _ _ c
  Step-IsClosed s {t} (is_cancelled result task before after p one e) c = tasks-IsClosed s t _ _ c
  Step-IsClosed s {t} (discards result task before after p none_held e) c =
      tasks-IsClosed s t _ t.connection_slots c
  Step-IsClosed s {t} (finishes result p e) c = finish-IsClosed s t result c

  Reach-IsClosed : (s t u : Server semaphore) → IsClosed s t → Reach semaphore t u → IsClosed s u
  Reach-IsClosed s t u c here = c
  Reach-IsClosed s t u c (next r step) = Step-IsClosed s step (Reach-IsClosed s t _ c r)

  -- After the shutdown of a server in any state, whatever happens, it does not accept again, its
  -- connections have been told to stop, and no task has been started since.
  pub shutdown_takes_no_wallet :
      (s t : Server semaphore) → Reach semaphore (on_shutdown semaphore s) t → IsClosed s t
  unfolding on_shutdown
  shutdown_takes_no_wallet s t r =
      Reach-IsClosed s _ t (record { closed = λ q. absurd cc; told = refl; spawned = refl }) r
