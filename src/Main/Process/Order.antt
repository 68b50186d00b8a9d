-- ===== src/Main/Process/Order.antt =====
-- The order of a shutdown in src/main.rs: the relay stack closes before the server does.
use electrum_private_relay.Prelude.{
  ◌≡◌, refl, ◌∙◌, ap, Bool, true, false, ℕ, Option, none, some, List, Str, len, Result, ok, err,
  arith,
}
use electrum_private_relay.Tokio.{Semaphore}
use electrum_private_relay.Config.{Config}
use electrum_private_relay.Relay.{failed}
use electrum_private_relay.Relay.Draining.{DrainState, enter, leave, stop_accepting}
use electrum_private_relay.Relay.Limited.{u32_try_from}
use electrum_private_relay.Main.Stack.{
  Call, Stack, submit, on_entered, on_slot, on_permits, on_payload, take_slot, take_payload,
  end_call, drop_slot, leave_call, begin_shutdown, Move, takes_slot, takes_payload, ends_call,
  drops_slot, leaves_call,
}
use electrum_private_relay.Proxy.Server.{ProxyError, ShutdownReport, ended, serve_until}
use electrum_private_relay.Main.Process.{
  SignalTask, waiting, stopping, finished, aborted, abort_signal, ExitCode, success, exit_code,
  Process, start, on_signal, send_shutdown, on_server_result, is_shutdown, is_signalled,
  sends_shutdown, serves, calls, relays, returns, Reach, here, next,
}
use electrum_private_relay.Main.Process
use electrum_private_relay.Main.Process.Asked.{has_stopped, IsAsked, Step-IsAsked, Step-ended}

-- The signal task is past `ctrl_c`.
abbrev has_begun : SignalTask → Bool
has_begun stopping = true
has_begun finished = true
has_begun _ = false

module _ (semaphore : Semaphore) where
  open semaphore use {State, try_acquire_many}

  -- A closed stack refuses every call.
  submit-closed :
      (raw : Str) (s : Stack semaphore)
      → s.drain.accepting ≡ false
      → submit semaphore raw s ≡ (err failed, s)
  unfolding submit on_entered enter
  submit-closed raw s h = rw h refl

  on_slot-accepting :
      (before after : List Call) (raw : Str) (s : Stack semaphore) (o : Option State)
      → (on_slot semaphore before raw after s o).drain ≡ s.drain
  unfolding on_slot
  on_slot-accepting before after raw s none = refl
  on_slot-accepting before after raw s (some requests) = refl

  on_permits-accepting :
      (before after : List Call) (raw : Str) (s : Stack semaphore) (o : Option ℕ)
      → (on_permits semaphore before raw after s o).drain ≡ s.drain
  unfolding on_permits
  on_permits-accepting before after raw s none = refl
  on_permits-accepting before after raw s (some permits) =
      on_slot-accepting before after raw s (try_acquire_many 1 s.limited.requests)

  on_payload-accepting :
      (before after : List Call) (raw : Str) (s : Stack semaphore) (o : Option State)
      → (on_payload semaphore before raw after s o).drain ≡ s.drain
  unfolding on_payload
  on_payload-accepting before after raw s none = refl
  on_payload-accepting before after raw s (some bytes) = refl

  -- No call inside opens the stack again.
  Move-closed :
      {s t : Stack semaphore}
      → Move semaphore s t
      → s.drain.accepting ≡ false
      → t.drain.accepting ≡ false
  unfolding take_slot take_payload end_call drop_slot leave_call leave
  Move-closed {s} (takes_slot before after raw e) h =
      ap (λ (d : DrainState). d.accepting)
        (on_permits-accepting before after raw s (u32_try_from (len raw)))
      ∙ h
  Move-closed {s} (takes_payload before after raw e) h =
      ap (λ (d : DrainState). d.accepting)
        (on_payload-accepting before after raw s
          (try_acquire_many (len raw) s.limited.payload_bytes))
      ∙ h
  Move-closed (ends_call before after raw e) h = h
  Move-closed (drops_slot before after raw e) h = h
  Move-closed (leaves_call before after e) h = ground (arith, h)

  record InOrder (s : Process semaphore) : Type 0 where
    asked : IsAsked semaphore s.shutdown_sent s.server
    sent : s.shutdown_sent ≡ true → s.signal_task ≡ finished
    closed : has_begun s.signal_task ≡ true → s.stack.drain.accepting ≡ false
    kept :
        (result : Result ProxyError ShutdownReport)
        → s.result ≡ some result
        → s.server.phase ≡ ended result

  start-InOrder : (bound : Bool) (config : Config) → InOrder (start semaphore bound config)
  unfolding start serve_until
  start-InOrder true config = record {
    asked = record { stopped = λ h. absurd cc; told = λ h. absurd cc };
    sent = λ h. absurd cc;
    closed = λ h. absurd cc;
    kept = λ result h. absurd cc;
  }
  start-InOrder false config = record {
    asked = record { stopped = λ h. absurd cc; told = λ h. absurd cc };
    sent = λ h. absurd cc;
    closed = λ h. absurd cc;
    kept = λ result h. absurd cc;
  }

  -- An abort of the signal task stops it only in `ctrl_c`.
  abort_signal-begun :
      (task : SignalTask) → has_begun (abort_signal task) ≡ true → has_begun task ≡ true
  unfolding abort_signal
  abort_signal-begun waiting h = absurd cc
  abort_signal-begun stopping h = refl
  abort_signal-begun finished h = refl
  abort_signal-begun aborted h = absurd cc

  abort_signal-finished : (task : SignalTask) → task ≡ finished → abort_signal task ≡ finished
  unfolding abort_signal
  abort_signal-finished waiting h = absurd cc
  abort_signal-finished stopping h = h
  abort_signal-finished finished h = h
  abort_signal-finished aborted h = h

  Step-InOrder : {s t : Process semaphore} → Process.Step semaphore s t → InOrder s → InOrder t
  unfolding on_signal begin_shutdown stop_accepting send_shutdown on_server_result
  Step-InOrder (is_signalled at) v = record {
    asked = v.asked;
    sent = λ h. absurd (ground (arith, v.sent h, at));
    closed = λ h. refl;
    kept = v.kept;
  }
  Step-InOrder {s} (sends_shutdown at) v = record {
    asked = record { stopped = λ h. refl; told = λ h. refl };
    sent = λ h. refl;
    closed = λ h. v.closed (ap has_begun at);
    kept = v.kept;
  }
  Step-InOrder (serves step asked) v = record {
    asked = Step-IsAsked semaphore step asked v.asked;
    sent = v.sent;
    closed = v.closed;
    kept = λ result h. Step-ended semaphore result step (v.kept result h);
  }
  Step-InOrder {s} (calls raw before after q) v = record {
    asked = v.asked;
    sent = v.sent;
    closed = λ h. rw (submit-closed raw s.stack (v.closed h)) (v.closed h);
    kept = v.kept;
  }
  Step-InOrder (relays step) v = record {
    asked = v.asked;
    sent = v.sent;
    closed = λ h. Move-closed step (v.closed h);
    kept = v.kept;
  }
  Step-InOrder (returns (ok report) at over joined) v = record {
    asked = v.asked;
    sent = v.sent;
    closed = v.closed;
    kept = λ result h. ground (arith, h, over);
  }
  Step-InOrder {s} (returns (err error) at over joined) v = record {
    asked = v.asked;
    sent = λ h. abort_signal-finished s.signal_task (v.sent h);
    closed = λ h. v.closed (abort_signal-begun s.signal_task h);
    kept = λ result h. ground (arith, h, over);
  }

  Reach-InOrder :
      (bound : Bool) (config : Config) {s : Process semaphore}
      → Reach semaphore (start semaphore bound config) s
      → InOrder s
  Reach-InOrder bound config here = start-InOrder bound config
  Reach-InOrder bound config (next r step) = Step-InOrder step (Reach-InOrder bound config r)

  success_is_ok :
      (result : Result ProxyError ShutdownReport)
      → exit_code result ≡ success
      → (report : ShutdownReport) × (result ≡ ok report)
  unfolding exit_code
  success_is_ok (ok report) h = (report, refl)
  success_is_ok (err error) h = absurd cc

  -- In every reachable state of the process: once the server has told its connections to stop, the
  -- relay stack refuses every call and does not change; a server that has ended with a report never
  -- keeps `run` waiting for a signal; what `run` has returned is what the server ended with; and
  -- the process succeeds only after a shutdown, with the relay closed.
  pub relay_closes_first :
      (bound : Bool) (config : Config) (s : Process semaphore)
      → Reach semaphore (start semaphore bound config) s
      → (s.server.shutdown_sent ≡ true
          → (raw : Str) → submit semaphore raw s.stack ≡ (err failed, s.stack))
        × ((report : ShutdownReport)
            → s.server.phase ≡ ended (ok report)
            → s.signal_task ≡ finished)
        × ((result : Result ProxyError ShutdownReport)
            → s.result ≡ some result
            → (s.server.phase ≡ ended result)
              × (exit_code result ≡ success
                  → (s.signal_task ≡ finished) × (s.stack.drain.accepting ≡ false)))
  relay_closes_first bound config s r =
      let v = Reach-InOrder bound config r in
      let over : (report : ShutdownReport)
          → s.server.phase ≡ ended (ok report)
          → s.signal_task ≡ finished =
        λ report h. v.sent (v.asked.stopped (ap has_stopped h)) in
      (
        λ told raw.
            submit-closed raw s.stack (v.closed (ap has_begun (v.sent (v.asked.told told)))),
        over,
        λ result h.
            let phase = v.kept result h in
            (
              phase,
              λ good.
                  let (report, q) = success_is_ok result good in
                  let signalled = over report (phase ∙ ap ended q) in
                  (signalled, v.closed (ap has_begun signalled)),
            ),
      )
