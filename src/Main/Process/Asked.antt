-- ===== src/Main/Process/Asked.antt =====
-- What `serve_until` of src/proxy.rs does only after the shutdown that src/main.rs sends, and that
-- its result is final.
use electrum_private_relay.Prelude.{
  ◌≡◌, refl, ap, Bool, true, false, Option, none, some, Result, ok, err, inl, inr, arith,
}
use electrum_private_relay.Tokio.{Semaphore}
use electrum_private_relay.Proxy.Server.{
  ProxyError, ShutdownReport, connecting, proxying, returned, panicked, cancelled, Phase, accepting,
  draining, cancelling, cancel, is_cancelled, discards, finishes, ended, Server, finish, on_permit,
  on_accepted, on_failed_join, on_joined, on_shutdown, on_drained, end_task, Step, accepts, joins,
  shuts_down, drains, expires, connects, gives_up, closes, panics,
}
use electrum_private_relay.Main.Process.{is_shutdown}

-- The server has seen the shutdown.
abbrev pub has_stopped : Phase → Bool
has_stopped draining = true
has_stopped (cancelling (ok report)) = true
has_stopped (ended (ok report)) = true
has_stopped _ = false

module _ (semaphore : Semaphore) where
  open semaphore use {State, try_acquire_many}

  -- What the server does only when it was asked to.
  pub record IsAsked (sent : Bool) (s : Server semaphore) : Type 0 where
    pub stopped : has_stopped s.phase ≡ true → sent ≡ true
    pub told : s.shutdown_sent ≡ true → sent ≡ true

  on_permit-IsAsked :
      (slots : Option State) (sent : Bool) (s : Server semaphore)
      → IsAsked sent s
      → IsAsked sent (on_permit semaphore slots s)
  unfolding on_permit
  on_permit-IsAsked none sent s v = v
  on_permit-IsAsked (some slots) sent s v = record { stopped = v.stopped; told = v.told }

  on_failed_join-IsAsked :
      (phase : Phase) (sent : Bool) (s : Server semaphore)
      → s.phase ≡ phase
      → IsAsked sent s
      → IsAsked sent (on_failed_join semaphore phase s)
  unfolding on_failed_join cancel
  on_failed_join-IsAsked accepting sent s at v = record { stopped = λ h. absurd cc; told = v.told }
  on_failed_join-IsAsked draining sent s at v = record {
    stopped = λ h. v.stopped (ap has_stopped at);
    told = v.told;
  }
  on_failed_join-IsAsked (cancelling result) sent s at v = v
  on_failed_join-IsAsked (ended result) sent s at v = v

  pub Step-IsAsked :
      {sent : Bool} {s t : Server semaphore} (step : Step semaphore s t)
      → (is_shutdown semaphore step ≡ true → sent ≡ true)
      → IsAsked sent s
      → IsAsked sent t
  unfolding on_accepted finish cancel on_joined on_shutdown on_drained end_task
  Step-IsAsked {sent} {s} (accepts true at) asked v =
      on_permit-IsAsked (try_acquire_many 1 s.connection_slots) sent s v
  Step-IsAsked (accepts false at) asked v = record { stopped = λ h. absurd cc; told = v.told }
  Step-IsAsked (joins connecting before after h q) asked v = v
  Step-IsAsked (joins proxying before after h q) asked v = v
  Step-IsAsked (joins returned before after h q) asked v = record {
    stopped = v.stopped;
    told = v.told;
  }
  Step-IsAsked {sent} {s} (joins panicked before after h q) asked v =
      on_failed_join-IsAsked s.phase sent _ refl (record { stopped = v.stopped; told = v.told })
  Step-IsAsked {sent} {s} (joins cancelled before after h q) asked v =
      on_failed_join-IsAsked s.phase sent _ refl (record { stopped = v.stopped; told = v.told })
  Step-IsAsked (shuts_down at) asked v = record {
    stopped = λ h. asked refl;
    told = λ h. asked refl;
  }
  Step-IsAsked (drains at q) asked v = record {
    stopped = λ h. v.stopped (ap has_stopped at);
    told = v.told;
  }
  Step-IsAsked (expires at q) asked v = record {
    stopped = λ h. v.stopped (ap has_stopped at);
    told = v.told;
  }
  Step-IsAsked (connects before after q) asked v = record { stopped = v.stopped; told = v.told }
  Step-IsAsked (gives_up before after q) asked v = record { stopped = v.stopped; told = v.told }
  Step-IsAsked (closes before after q) asked v = record { stopped = v.stopped; told = v.told }
  Step-IsAsked (panics task before after one q) asked v = record {
    stopped = v.stopped;
    told = v.told;
  }
  Step-IsAsked (is_cancelled result task before after p one q) asked v = record {
    stopped = v.stopped;
    told = v.told;
  }
  Step-IsAsked (discards result task before after p none_held q) asked v = record {
    stopped = v.stopped;
    told = v.told;
  }
  Step-IsAsked (finishes (ok report) p q) asked v = record {
    stopped = λ h. v.stopped (ap has_stopped p);
    told = v.told;
  }
  Step-IsAsked (finishes (err error) p q) asked v = record {
    stopped = λ h. absurd cc;
    told = v.told;
  }

  -- The server's result is final.
  pub Step-ended :
      {s t : Server semaphore} (result : Result ProxyError ShutdownReport)
      → Step semaphore s t
      → s.phase ≡ ended result
      → t.phase ≡ ended result
  unfolding on_joined end_task
  Step-ended result (accepts good at) h = absurd (ground (arith, at, h))
  Step-ended result (joins task before after (inl at) q) h = absurd (ground (arith, at, h))
  Step-ended result (joins task before after (inr at) q) h = absurd (ground (arith, at, h))
  Step-ended result (shuts_down at) h = absurd (ground (arith, at, h))
  Step-ended result (drains at q) h = absurd (ground (arith, at, h))
  Step-ended result (expires at q) h = absurd (ground (arith, at, h))
  Step-ended result (connects before after q) h = h
  Step-ended result (gives_up before after q) h = h
  Step-ended result (closes before after q) h = h
  Step-ended result (panics task before after one q) h = h
  Step-ended result (is_cancelled other task before after p one q) h = h
  Step-ended result (discards other task before after p none_held q) h = h
  Step-ended result (finishes other p q) h = absurd (ground (arith, p, h))
