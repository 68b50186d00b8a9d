-- ===== src/Main/Process.antt =====
-- The rest of `run` of src/main.rs, after its configuration is accepted: the relay stack, the task
-- that waits for a signal, and the server, which runs until that task has sent the shutdown.
pub mod Asked
pub mod Order
use electrum_private_relay.Prelude.{
  Bool, true, false, Option, none, some, List, ◌∷◌, ◌++◌, ◌≡◌, Str, Result, ok, err,
}
use electrum_private_relay.Tokio.{Semaphore}
use electrum_private_relay.Config.{Config}
use electrum_private_relay.Main.Stack.{Stack, submit, begin_shutdown}
use electrum_private_relay.Main.Stack
use electrum_private_relay.Proxy.Server.{
  ProxyError, ShutdownReport, proxying, accepting, ended, Server, serve_until, shuts_down,
}
use electrum_private_relay.Proxy.Server

-- Where the task of `signal_task` stands: in `ctrl_c`, between `begin_shutdown` and `send`, or at
-- its end.
pub data SignalTask : Type 0 where
  waiting stopping finished aborted : SignalTask

-- `JoinHandle::abort`: with no `await` after `ctrl_c`, a task that is past it still ends.
unfoldable pub abort_signal : SignalTask → SignalTask
abort_signal waiting = aborted
abort_signal task = task

-- `std::process::ExitCode`
pub data ExitCode : Type 0 where
  success failure : ExitCode

-- The `match run().await` of `main`.
unfoldable pub exit_code : Result ProxyError ShutdownReport → ExitCode
exit_code (ok report) = success
exit_code (err error) = failure

module _ (semaphore : Semaphore) where
  -- `shutdown_sent` is the channel of one message from the signal task to the server, and `result`
  -- what `run` has returned.
  pub record Process : Type 0 where
    pub stack : Stack semaphore
    pub signal_task : SignalTask
    pub shutdown_sent : Bool
    pub server : Server semaphore
    pub result : Option (Result ProxyError ShutdownReport)

  -- `run` when its listener is bound, or when that has failed.
  unfoldable pub start : Bool → Config → Process
  start bound config = record {
    stack = Stack.new semaphore config;
    signal_task = waiting;
    shutdown_sent = false;
    server = serve_until semaphore bound config;
    result = none;
  }

  -- `ctrl_c` has returned, well or not, and `signal_drain.begin_shutdown()` with it.
  unfoldable pub on_signal : Process → Process
  on_signal s = record s { stack = begin_shutdown semaphore s.stack; signal_task = stopping }

  -- `shutdown_sender.send(())`
  unfoldable pub send_shutdown : Process → Process
  send_shutdown s = record s { shutdown_sent = true; signal_task = finished }

  -- The `match server_result`: an error aborts the signal task; a report waits for it.
  unfoldable pub on_server_result : Result ProxyError ShutdownReport → Process → Process
  on_server_result (ok report) s = record s { result = some (ok report) }
  on_server_result (err error) s = record s {
    signal_task = abort_signal s.signal_task;
    result = some (err error);
  }

  -- The server sees that its `shutdown` future is ready.
  abbrev pub is_shutdown : {s t : Server semaphore} → Server.Step semaphore s t → Bool
  is_shutdown (shuts_down at) = true
  is_shutdown _ = false

  -- `signal_task.await` can go on.
  abbrev pub CanJoin : Result ProxyError ShutdownReport → Process → Type 0
  CanJoin (ok report) s = s.signal_task ≡ finished
  CanJoin (err error) s = Unit

  -- The signal task, the server and the calls of the relay interleave. A call is made by a task of
  -- the server that proxies; what it does then is up to it and the other calls.
  pub data Step (s : Process) : Process → Type 0 where
    is_signalled : s.signal_task ≡ waiting → Step s (on_signal s)
    sends_shutdown : s.signal_task ≡ stopping → Step s (send_shutdown s)
    serves :
        {server : Server semaphore} (step : Server.Step semaphore s.server server)
        → (is_shutdown step ≡ true → s.shutdown_sent ≡ true)
        → Step s (record s { server = server })
    calls :
        (raw : Str) (before after : List Server.ConnectionTask)
        → s.server.connections ≡ before ++ proxying ∷ after
        → Step s (record s { stack = (submit semaphore raw s.stack).1 })
    relays :
        {stack : Stack semaphore}
        → Stack.Move semaphore s.stack stack
        → Step s (record s { stack = stack })
    returns :
        (result : Result ProxyError ShutdownReport)
        → s.result ≡ none
        → s.server.phase ≡ ended result
        → CanJoin result s
        → Step s (on_server_result result s)

  pub data Reach (s : Process) : Process → Type 0 where
    here : Reach s s
    next : {t u : Process} → Reach s t → Step t u → Reach s u
