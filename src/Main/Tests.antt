-- ===== src/Main/Tests.antt =====
-- The stack of the sample command line for the private relay.
use electrum_private_relay.Prelude.{
  List, [], ◌∷◌, ◌++◌, some, false, Result, ◌≤◌, true, len, bytes, arith, ◌≡◌, ◌↔◌, ◌⊎◌, ◌<◌, refl,
  Str, length, All, ok, err,
}
use electrum_private_relay.Tokio.{counter}
use electrum_private_relay.Samples.{sample, raw_sample}
use electrum_private_relay.Config.{reject, socks_electrum}
use electrum_private_relay.Config.Samples.{socks, socks_config, relay, local, accepted}
use electrum_private_relay.Relay.{disabled, failed}
use electrum_private_relay.Relay.SocksElectrum.{Network, elapsed}
use electrum_private_relay.Relay.SocksElectrum.Answers.{IsLowerHexDigit}
use electrum_private_relay.Relay.Limited.{
  Limiter, admit, start, with_payload_budget, acquire_permits, acquire_request, acquire_payload,
  on_admission, calls, here, next, Reach,
}
use electrum_private_relay.Main.{
  InnerRelay, socks_relay, serving, socks_electrum_relay, select_relay, run_config, run, limiter,
  broadcast,
}
use electrum_private_relay.Main
use electrum_private_relay.Main.Stack.{
  Call, entered, slotted, returning, leaving, Stack, new, on_entered, submit, take_slot,
  take_payload, end_call, drop_slot, leave_call, begin_shutdown, submits, moves, takes_slot,
}
use electrum_private_relay.Relay.Draining.{enter, counted}
use electrum_private_relay.Main.Process.{
  Process, finished, ExitCode, success, exit_code, start as boot, on_signal, send_shutdown,
  on_server_result, is_signalled, sends_shutdown, serves, returns,
}
use electrum_private_relay.Main.Process.Order.{relay_closes_first}
use electrum_private_relay.Proxy.Server.{
  ProxyError, ShutdownReport, ended, serve_until, on_shutdown, on_drained, finish, shuts_down,
  drains,
}
use electrum_private_relay.Main.Stack.Gate.{
  gate_of, gate_submit, gate_slot, gate_payload, gate_move, gate_leave, gate_shutdown, IsCounted,
  stack_is_gate,
}
use electrum_private_relay.Main.Guarantees.{admitted_iff_slot, broadcast_answers}

abbrev socks_inner : InnerRelay
socks_inner = socks_relay (record { socks5_proxy = local 9_050; endpoint = relay; timeout = 30 })

abbrev unreachable : Network
unreachable = record {
  Stream = Unit;
  connect = λ limit proxy target. elapsed;
  write_all = λ limit bytes stream. elapsed;
  respond = λ limit stream. elapsed;
}

run-socks : run socks ≡ serving socks_config socks_inner
unfolding run run_config select_relay socks_electrum_relay
run-socks = rw accepted refl

-- The limiter with one call running.
abbrev busy : Limiter counter
busy =
    on_admission counter raw_sample (limiter counter socks_config)
      (admit counter raw_sample (limiter counter socks_config).relay)

busy-Reach : Reach counter (limiter counter socks_config) busy
busy-Reach = next here (calls raw_sample)

raw_sample_fits : len raw_sample ≤ socks_config.max_frame_bytes
unfolding bytes
raw_sample_fits = omega arith

busy_fits : All (λ running. len running ≤ socks_config.max_frame_bytes) busy.running
unfolding on_admission admit acquire_permits acquire_request acquire_payload limiter start
    with_payload_budget bytes
busy_fits = (omega arith, tt)

admitted_iff_slot_example :
    ((admit counter raw_sample busy.relay).0 ≡ ok tt) ↔ (length busy.running < 8)
admitted_iff_slot_example =
    admitted_iff_slot counter socks socks_config busy raw_sample accepted busy-Reach busy_fits
      raw_sample_fits

broadcast_answers_example :
    let answer =
      broadcast sample unreachable counter
        (record { accepting = true; active = 0 })
        (limiter counter socks_config).relay
        socks_inner
        raw_sample in
    (socks_config.relay_mode ≡ reject → (answer ≡ err disabled) ⊎ (answer ≡ err failed))
    × (socks_config.relay_mode ≡ socks_electrum
        → ((id : Str) × (answer ≡ ok id) × (length id ≡ 64) × All IsLowerHexDigit id)
          ⊎ (answer ≡ err failed))
broadcast_answers_example =
    broadcast_answers counter sample unreachable socks socks_config
      (record { accepting = true; active = 0 }) (limiter counter socks_config).relay socks_inner
      raw_sample run-socks

-- The stack with one call that has a slot.
abbrev one_inside : Stack counter
one_inside =
    take_slot counter [] raw_sample [] (submit counter raw_sample (new counter socks_config)).1

one_inside-Reach : Main.Stack.Reach counter (new counter socks_config) one_inside
unfolding submit on_entered enter counted new
one_inside-Reach =
    Main.Stack.next (Main.Stack.next Main.Stack.here (submits raw_sample))
      (moves (takes_slot [] [] raw_sample refl))

stack_is_gate_example :
    ((raw : Str)
      → ((submit counter raw one_inside).0, gate_of counter (submit counter raw one_inside).1)
        ≡ gate_submit raw (gate_of counter one_inside))
    × ((before after : List Call) (raw : Str)
        → one_inside.calls ≡ before ++ entered raw ∷ after
        → gate_of counter (take_slot counter before raw after one_inside)
          ≡ gate_slot 8 before raw after (gate_of counter one_inside))
    × ((before after : List Call) (raw : Str)
        → one_inside.calls ≡ before ++ slotted raw ∷ after
        → gate_of counter (take_payload counter before raw after one_inside)
          ≡ gate_payload before raw after (gate_of counter one_inside))
    × ((before after : List Call) (raw : Str)
        → gate_of counter (end_call counter before raw after one_inside)
          ≡ gate_move before (returning raw) after (gate_of counter one_inside))
    × ((before after : List Call)
        → gate_of counter (drop_slot counter before after one_inside)
          ≡ gate_move before leaving after (gate_of counter one_inside))
    × ((before after : List Call)
        → gate_of counter (leave_call counter before after one_inside)
          ≡ gate_leave before after (gate_of counter one_inside))
    × (gate_of counter (begin_shutdown counter one_inside)
        ≡ gate_shutdown (gate_of counter one_inside))
    × IsCounted counter 8 one_inside
stack_is_gate_example = stack_is_gate counter socks_config one_inside one_inside-Reach

shutdown : Unit {0}
unfolding boot on_signal send_shutdown on_server_result begin_shutdown serve_until on_shutdown
    on_drained finish exit_code
shutdown = tt

abbrev drained : Result ProxyError ShutdownReport
drained = ok (record { all_connections_drained = true })

-- The process after its signal, when the server has no connection.
abbrev stopped : Process counter
stopped =
    let signalled = send_shutdown counter (on_signal counter (boot counter true socks_config)) in
    record signalled { server = on_drained counter true (on_shutdown counter signalled.server) }

abbrev done : Process counter
done = on_server_result counter drained stopped

done-Reach : Main.Process.Reach counter (boot counter true socks_config) done
unfolding shutdown
done-Reach =
    Main.Process.next
      (Main.Process.next
        (Main.Process.next
          (Main.Process.next (Main.Process.next Main.Process.here (is_signalled refl))
            (sends_shutdown refl))
          (serves (shuts_down refl) (λ h. refl)))
        (serves (drains refl refl) (λ h. refl)))
      (returns drained refl refl refl)

relay_closes_first_example :
    (done.server.shutdown_sent ≡ true
      → (raw : Str) → submit counter raw done.stack ≡ (err failed, done.stack))
    × ((report : ShutdownReport)
        → done.server.phase ≡ ended (ok report)
        → done.signal_task ≡ finished)
    × ((result : Result ProxyError ShutdownReport)
        → done.result ≡ some result
        → (done.server.phase ≡ ended result)
          × (exit_code result ≡ success
              → (done.signal_task ≡ finished) × (done.stack.drain.accepting ≡ false)))
relay_closes_first_example = relay_closes_first counter true socks_config done done-Reach
