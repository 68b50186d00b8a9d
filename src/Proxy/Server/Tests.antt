-- ===== src/Proxy/Server/Tests.antt =====
-- A server that takes one wallet and shuts down.
use electrum_private_relay.Prelude.{
  ◌+◌, ◌≤◌, ◌<◌, ◌≡◌, ◌↔◌, refl, true, false, [], ◌∷◌, ok, err, inl, inr, ◌≢◌, Result,
}
use electrum_private_relay.Tokio.{counter}
use electrum_private_relay.Config.Samples.{socks_config}
use electrum_private_relay.Proxy.Server.{
  ShutdownReport, ProxyError, connecting, returned, accepting, draining, ended, live, Server,
  serve_until, cancelled, io_error, permits, cancel, is_cancelled, discards, finishes, expires,
  finish, on_permit, on_accepted, on_joined, on_shutdown, on_drained, end_task, accepts, joins,
  shuts_down, drains, gives_up, Reach, here, next,
}
use electrum_private_relay.Proxy.Server.Outcomes.{
  connections_bounded, accepted_iff_slot, report_is_true, IsClosed, shutdown_takes_no_wallet,
}

abbrev one_wallet : Server counter
one_wallet = record {
  phase = accepting;
  connection_slots = 127;
  connections = connecting ∷ [];
  shutdown_sent = false;
  spawned = 1;
  joined = 0;
}

abbrev shut_down : Server counter
shut_down = record one_wallet { phase = draining; shutdown_sent = true }

abbrev given_up : Server counter
given_up = record shut_down { connection_slots = 128; connections = returned ∷ [] }

abbrev joined_all : Server counter
joined_all = record given_up { connections = []; joined = 1 }

abbrev stopped : Server counter
stopped = record joined_all { phase = ended (ok (record { all_connections_drained = true })) }

one_wallet-Reach : Reach counter (serve_until counter true socks_config) one_wallet
unfolding serve_until on_accepted on_permit
one_wallet-Reach = next here (accepts true refl)

stopped-Reach-shut_down : Reach counter (on_shutdown counter one_wallet) stopped
unfolding end_task on_joined on_drained on_shutdown finish live
stopped-Reach-shut_down =
    next (next (next here (gives_up [] [] refl)) (joins returned [] [] (inr refl) refl))
      (drains refl refl)

stopped-Reach : Reach counter (serve_until counter true socks_config) stopped
unfolding end_task on_joined on_drained on_shutdown finish live
stopped-Reach =
    next
      (next (next (next one_wallet-Reach (shuts_down refl)) (gives_up [] [] refl))
        (joins returned [] [] (inr refl) refl))
      (drains refl refl)

connections_bounded_example :
    (live one_wallet.connections ≤ 128) × (127 + live one_wallet.connections ≡ 128)
connections_bounded_example =
    connections_bounded counter socks_config true one_wallet one_wallet-Reach

accepted_iff_slot_example :
    let t = on_accepted counter true one_wallet in
    (live one_wallet.connections < 128
      → (t.connections ≡ connecting ∷ one_wallet.connections)
        × (t.spawned ≡ 2)
        × (t.phase ≡ accepting)
        × (127 ≡ t.connection_slots + 1))
    × (128 ≤ live one_wallet.connections → t ≡ one_wallet)
accepted_iff_slot_example = accepted_iff_slot counter socks_config true one_wallet one_wallet-Reach

-- The time of the drain is over while the wallet's task still connects: the task is cancelled, and
-- the server waits for it.
abbrev cut_off : Server counter
cut_off = record one_wallet {
  phase = ended (ok (record { all_connections_drained = false }));
  connection_slots = 128;
  connections = [];
  shutdown_sent = true;
}

cut_off-Reach : Reach counter (serve_until counter true socks_config) cut_off
unfolding end_task on_drained on_shutdown cancel finish live permits
cut_off-Reach =
    next
      (next
        (next (next (next one_wallet-Reach (shuts_down refl)) (expires refl (λ q. absurd cc)))
          (is_cancelled _ connecting [] [] (inl refl) refl refl))
        (discards _ cancelled [] [] refl refl refl))
      (finishes _ refl refl)

report_is_true_example :
    let result : Result ProxyError ShutdownReport =
      ok (record { all_connections_drained = false }) in
    (result ≢ err io_error → (cut_off.connections ≡ []) × (cut_off.connection_slots ≡ 128))
    × (128 + live cut_off.connections ≡ 128)
    × ((report : ShutdownReport)
        → result ≡ ok report
        → (report.all_connections_drained ≡ true) ↔ (cut_off.joined ≡ cut_off.spawned))
report_is_true_example =
    report_is_true counter socks_config true cut_off
      (ok (record { all_connections_drained = false })) cut_off-Reach refl

shutdown_takes_no_wallet_example : IsClosed counter one_wallet stopped
shutdown_takes_no_wallet_example =
    shutdown_takes_no_wallet counter one_wallet stopped stopped-Reach-shut_down
