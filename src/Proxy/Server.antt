-- ===== src/Proxy/Server.antt =====
-- `serve_until` of src/proxy.rs: the listener's loop, the slots of its connections, and the bounded
-- shutdown. A connection is here only its task; what runs in it is Proxy/Connection.
pub mod Counts
pub mod Outcomes
mod Tests
use electrum_private_relay.Prelude.{
  ℕ, ◌+◌, ◌≡◌, ◌≢◌, ◌⊎◌, Bool, true, false, Option, none, some, List, [], ◌∷◌, ◌++◌, if◌then◌else◌,
  Result, ok, err,
}
use electrum_private_relay.Tokio.{Semaphore}
use electrum_private_relay.Config.{Config}

-- `ProxyError`, by where it comes from: the listener, or a task that ended in a panic.
pub data ProxyError : Type 0 where
  io_error connection_task_failed : ProxyError

pub record ShutdownReport : Type 0 where
  pub all_connections_drained : Bool

-- A task of the join set: it connects to the upstream, or runs `proxy_streams_until`, or has ended
-- and waits to be joined.
pub data ConnectionTask : Type 0 where
  connecting proxying returned panicked cancelled : ConnectionTask

-- The loop of `select!`, the drain under its timeout, `connections.shutdown().await` before the
-- result, or the result.
pub data Phase : Type 0 where
  accepting draining : Phase
  cancelling ended : Result ProxyError ShutdownReport → Phase

-- A task holds its permit until it ends.
unfoldable pub permits : ConnectionTask → ℕ
permits connecting = 1
permits proxying = 1
permits _ = 0

unfoldable pub live : List ConnectionTask → ℕ
unfolding permits
live [] = 0
live (task ∷ tasks) = permits task + live tasks

-- `connections` is joined in the loop and in the drain.
abbrev pub IsJoining : Phase → Type 0
IsJoining phase = (phase ≡ accepting) ⊎ (phase ≡ draining)

-- The tasks have been told to abort.
abbrev pub IsAborting : Phase → Result ProxyError ShutdownReport → Type 0
IsAborting phase result = (phase ≡ cancelling result) ⊎ (phase ≡ ended result)

module _ (semaphore : Semaphore) where
  open semaphore use {State, new, try_acquire_many, drop_permits}

  -- `spawned` counts the tasks that were ever started and `joined` those joined without an error.
  pub record Server : Type 0 where
    pub phase : Phase
    pub connection_slots : State
    pub connections : List ConnectionTask
    pub shutdown_sent : Bool
    pub spawned : ℕ
    pub joined : ℕ

  -- `serve_until` after `TcpListener::bind`.
  unfoldable pub serve_until : Bool → Config → Server
  serve_until bound config = record {
    phase = if bound then accepting else ended (err io_error);
    connection_slots = new config.max_connections;
    connections = [];
    shutdown_sent = false;
    spawned = 0;
    joined = 0;
  }

  -- `serve_until` returns. The join set is dropped: what tasks are left are told to abort, and
  -- nothing waits for them.
  unfoldable pub finish : Result ProxyError ShutdownReport → Server → Server
  finish result s = record s { phase = ended result }

  -- `connections.shutdown().await` begins: the tasks that are left are told to abort.
  unfoldable pub cancel : Result ProxyError ShutdownReport → Server → Server
  cancel result s = record s { phase = cancelling result }

  unfoldable pub on_permit : Option State → Server → Server
  on_permit none s = s
  on_permit (some slots) s = record s {
    connection_slots = slots;
    connections = connecting ∷ s.connections;
    spawned = s.spawned + 1;
  }

  -- `listener.accept()` has returned, well or not.
  unfoldable pub on_accepted : Bool → Server → Server
  on_accepted true s = on_permit (try_acquire_many 1 s.connection_slots) s
  on_accepted false s = finish (err io_error) s

  -- What follows a failed join: an error in the loop, and the end of the drain in the drain; both
  -- cancel the other tasks.
  unfoldable pub on_failed_join : Phase → Server → Server
  on_failed_join accepting s = cancel (err connection_task_failed) s
  on_failed_join draining s = cancel (ok (record { all_connections_drained = false })) s
  on_failed_join _ s = s

  -- `connections.join_next()` has given `task`, and `rest` is left; a task that runs is not joined.
  unfoldable pub on_joined : ConnectionTask → List ConnectionTask → Server → Server
  on_joined returned rest s = record s { connections = rest; joined = s.joined + 1 }
  on_joined panicked rest s = on_failed_join s.phase (record s { connections = rest })
  on_joined cancelled rest s = on_failed_join s.phase (record s { connections = rest })
  on_joined _ rest s = s

  -- The `shutdown` future is ready: the listener is dropped and `true` is sent.
  unfoldable pub on_shutdown : Server → Server
  on_shutdown s = record s { phase = draining; shutdown_sent = true }

  -- The `while let` has ended, or its timeout has elapsed, and then the tasks are cancelled.
  unfoldable pub on_drained : Bool → Server → Server
  on_drained true s = finish (ok (record { all_connections_drained = true })) s
  on_drained false s = cancel (ok (record { all_connections_drained = false })) s

  -- A task ends, and with it its permit.
  unfoldable pub end_task :
      ConnectionTask → List ConnectionTask → List ConnectionTask → Server → Server
  end_task task before after s = record s {
    connections = before ++ task ∷ after;
    connection_slots = drop_permits 1 s.connection_slots;
  }

  -- The server's loop, its drain and its tasks interleave. A task that connects ends when that
  -- fails, or when it sees the shutdown; a task that proxies ends when `proxy_streams_until`
  -- returns; either may panic, and an abort reaches each at a time of its own.
  pub data Step (s : Server) : Server → Type 0 where
    accepts : (good : Bool) → s.phase ≡ accepting → Step s (on_accepted good s)
    joins :
        (task : ConnectionTask) (before after : List ConnectionTask)
        → IsJoining s.phase
        → s.connections ≡ before ++ task ∷ after
        → Step s (on_joined task (before ++ after) s)
    shuts_down : s.phase ≡ accepting → Step s (on_shutdown s)
    drains : s.phase ≡ draining → s.connections ≡ [] → Step s (on_drained true s)
    expires : s.phase ≡ draining → s.connections ≢ [] → Step s (on_drained false s)
    connects :
        (before after : List ConnectionTask)
        → s.connections ≡ before ++ connecting ∷ after
        → Step s (record s { connections = before ++ proxying ∷ after })
    gives_up :
        (before after : List ConnectionTask)
        → s.connections ≡ before ++ connecting ∷ after
        → Step s (end_task returned before after s)
    closes :
        (before after : List ConnectionTask)
        → s.connections ≡ before ++ proxying ∷ after
        → Step s (end_task returned before after s)
    panics :
        (task : ConnectionTask) (before after : List ConnectionTask)
        → permits task ≡ 1
        → s.connections ≡ before ++ task ∷ after
        → Step s (end_task panicked before after s)
    is_cancelled :
        (result : Result ProxyError ShutdownReport) (task : ConnectionTask)
        (before after : List ConnectionTask)
        → IsAborting s.phase result
        → permits task ≡ 1
        → s.connections ≡ before ++ task ∷ after
        → Step s (end_task cancelled before after s)
    discards :
        (result : Result ProxyError ShutdownReport) (task : ConnectionTask)
        (before after : List ConnectionTask)
        → s.phase ≡ cancelling result
        → permits task ≡ 0
        → s.connections ≡ before ++ task ∷ after
        → Step s (record s { connections = before ++ after })
    finishes :
        (result : Result ProxyError ShutdownReport)
        → s.phase ≡ cancelling result
        → s.connections ≡ []
        → Step s (finish result s)

  pub data Reach (s : Server) : Server → Type 0 where
    here : Reach s s
    next : {t u : Server} → Reach s t → Step t u → Reach s u
