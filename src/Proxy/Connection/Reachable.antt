-- ===== src/Proxy/Connection/Reachable.antt =====
-- The invariant of a connection in every state that its tasks can reach.
use electrum_private_relay.Prelude.{
  ◌≡◌, refl, subst, Bool, true, false, Option, none, some, List, Bytes, Str, if◌then◌else◌, Result,
  ok, err, arith,
}
use electrum_private_relay.Wire.{SerdeJson, Value, UpstreamEnvelope}
use electrum_private_relay.Proxy.Pending.{PendingRequest, PendingRequests, get}
use electrum_private_relay.Proxy.Pending.Laws.{remove-IsWellFormed}
use electrum_private_relay.Proxy.Framing.{IoErrorKind, Input, read_frame}
use electrum_private_relay.Proxy.State.{
  is_open, ConnectionLimits, Connection, TaskEnd, ClientTask, writing, relaying, replying,
  rejecting, FinishedTask, writer_task, upstream_task, client_task, send, abort_client, release,
}
use electrum_private_relay.Proxy.Writer.{
  abort_task, writer_received, writer_drained, writer_wrote, writer_closed,
}
use electrum_private_relay.Proxy.Connection.{
  request_id_key, client_shutdown, client_written, relay_response, on_relay_response,
  relay_returned, client_replied, client_rejected, on_correlated, on_response_key, on_envelope,
  on_upstream_frame, on_upstream_read, upstream_read, upstream_sent, proxy_streams_until,
}
use electrum_private_relay.Proxy.Connection.Invariant.{HoldsBroadcast, IsSlotted, IsSoundState, Inv}
use electrum_private_relay.Proxy.Connection.Preservation.{
  HoldsBroadcast-release, IsSlotted-remove, client_read-Inv,
}
use electrum_private_relay.Proxy.Connection.Steps.{
  Step, client_reads, client_stops, client_writes, relay_answers, client_replies, client_rejects,
  upstream_reads, upstream_sends, writer_receives, writer_drains, writer_writes, writer_closes,
  is_aborted, turns, Reach, here, next,
}

module _ (j : SerdeJson) (limits : ConnectionLimits) where
  open j use {Number, envelope_from_slice}

  release-IsSound :
      (key : Option Str) (p : PendingRequests) (sent : List Bytes) (relayed : List Str)
      → IsSoundState j limits p sent relayed
      → IsSoundState j limits (release key p) sent relayed
  unfolding release
  release-IsSound none p sent relayed s = s
  release-IsSound (some key) p sent relayed s = record {
    pending = remove-IsWellFormed limits.max_pending_requests key p s.pending;
    writes = s.writes;
    calls = s.calls;
  }

  on_relay_response-Inv :
      (key : Option Str) (frame : Option Bytes) (c : Connection Number)
      → HoldsBroadcast key c.pending
      → Inv j limits c
      → Inv j limits (on_relay_response j key frame c)
  unfolding on_relay_response
  on_relay_response-Inv key none c h v = record { sound = v.sound; slot = tt }
  on_relay_response-Inv key (some frame) c h v = record {
    sound = release-IsSound key c.pending c.upstream_writes c.relay_calls v.sound;
    slot = HoldsBroadcast-release key c.pending h;
  }

  abort_client-IsSlotted :
      (task : ClientTask Number) (p : PendingRequests)
      → IsSlotted j task p
      → IsSlotted j (abort_client task) p
  abort_client-IsSlotted ClientTask.reading p h = tt
  abort_client-IsSlotted (writing frame) p h = tt
  abort_client-IsSlotted (relaying id key raw) p h = tt
  abort_client-IsSlotted (replying frame) p h = tt
  abort_client-IsSlotted (rejecting frame) p h = tt
  abort_client-IsSlotted (ClientTask.finished end) p h = tt

  abort_task-Inv :
      (task : FinishedTask) (c : Connection Number)
      → Inv j limits c
      → Inv j limits (abort_task task c)
  unfolding abort_task
  abort_task-Inv writer_task c v = record { sound = v.sound; slot = v.slot }
  abort_task-Inv upstream_task c v = record { sound = v.sound; slot = v.slot }
  abort_task-Inv client_task c v = record {
    sound = v.sound;
    slot = abort_client-IsSlotted c.client c.pending v.slot;
  }

  on_correlated-Inv :
      (frame : Bytes) (key : Str) (found : Option PendingRequest) (c : Connection Number)
      → get key c.pending ≡ found
      → Inv j limits c
      → Inv j limits (on_correlated j frame key found c)
  unfolding on_correlated
  on_correlated-Inv frame key none c e v = v
  on_correlated-Inv frame key (some PendingRequest.broadcast) c e v = v
  on_correlated-Inv frame key (some PendingRequest.upstream) c e v = record {
    sound =
        unfold release in
        release-IsSound (some key) c.pending c.upstream_writes c.relay_calls v.sound;
    slot = IsSlotted-remove j limits c.client key c.pending e v.slot;
  }

  on_response_key-Inv :
      (frame : Bytes) (key : Option Str) (c : Connection Number)
      → Inv j limits c
      → Inv j limits (on_response_key j frame key c)
  unfolding on_response_key
  on_response_key-Inv frame none c v = record { sound = v.sound; slot = v.slot }
  on_response_key-Inv frame (some key) c v =
      on_correlated-Inv frame key (get key c.pending) c refl v

  on_envelope-Inv :
      (frame : Bytes) (id : Option (Value Number)) (method : Option Str) (c : Connection Number)
      → Inv j limits c
      → Inv j limits (on_envelope j frame id method c)
  unfolding on_envelope
  on_envelope-Inv frame (some id) none c v = on_response_key-Inv frame (request_id_key j id) c v
  on_envelope-Inv frame none (some method) c v = record { sound = v.sound; slot = v.slot }
  on_envelope-Inv frame none none c v = record { sound = v.sound; slot = v.slot }
  on_envelope-Inv frame (some id) (some method) c v = record { sound = v.sound; slot = v.slot }

  on_upstream_frame-Inv :
      (frame : Bytes) (envelope : Option (UpstreamEnvelope Number)) (c : Connection Number)
      → Inv j limits c
      → Inv j limits (on_upstream_frame j frame envelope c)
  unfolding on_upstream_frame
  on_upstream_frame-Inv frame none c v = record { sound = v.sound; slot = v.slot }
  on_upstream_frame-Inv frame (some e) c v = on_envelope-Inv frame e.id e.method c v

  on_upstream_read-Inv :
      (r : Result IoErrorKind (Option Bytes × Input)) (c : Connection Number)
      → Inv j limits c
      → Inv j limits (on_upstream_read j r c)
  unfolding on_upstream_read
  on_upstream_read-Inv (ok (none, rest)) c v = record { sound = v.sound; slot = v.slot }
  on_upstream_read-Inv (ok (some frame, rest)) c v =
      on_upstream_frame-Inv frame (envelope_from_slice frame) (record c { upstream_input = rest })
        (record { sound = v.sound; slot = v.slot })
  on_upstream_read-Inv (err error) c v = record { sound = v.sound; slot = v.slot }

  IsSlotted-next :
      (alive : Bool) (p : PendingRequests)
      → HoldsBroadcast none p
      → IsSlotted j (if alive then ClientTask.reading else ClientTask.finished TaskEnd.returned) p
  IsSlotted-next true p h = h
  IsSlotted-next false p h = tt

  -- Every step of either task, in any order, keeps the invariant.
  pub Step-Inv : {c d : Connection Number} → Step j limits c d → Inv j limits c → Inv j limits d
  unfolding client_shutdown client_written relay_returned client_replied client_rejected send
      upstream_read upstream_sent writer_received writer_drained writer_wrote writer_closed
  Step-Inv {c} (client_reads at) v = client_read-Inv j limits c at v
  Step-Inv (client_stops at) v = record { sound = v.sound; slot = tt }
  Step-Inv {c} (client_writes frame true at) v = record {
    sound = v.sound;
    slot = subst (λ t. IsSlotted j t c.pending) at v.slot;
  }
  Step-Inv (client_writes frame false at) v = record { sound = v.sound; slot = tt }
  Step-Inv {c} (relay_answers id key raw result at) v =
      on_relay_response-Inv key (relay_response j id result) c
        (subst (λ t. IsSlotted j t c.pending) at v.slot).1 v
  Step-Inv {c} (client_replies frame at room) v = record {
    sound = v.sound;
    slot =
        IsSlotted-next (is_open c.writer) c.pending
          (subst (λ t. IsSlotted j t c.pending) at v.slot);
  }
  Step-Inv (client_rejects frame at room) v = record { sound = v.sound; slot = tt }
  Step-Inv {c} (upstream_reads at) v =
      on_upstream_read-Inv (read_frame limits.max_frame_bytes c.upstream_input) c v
  Step-Inv (upstream_sends frame at room) v = record { sound = v.sound; slot = v.slot }
  Step-Inv (writer_receives frame rest at queued) v = record { sound = v.sound; slot = v.slot }
  Step-Inv (writer_drains at empty client upstream) v = record { sound = v.sound; slot = v.slot }
  Step-Inv (writer_writes frame true at) v = record { sound = v.sound; slot = v.slot }
  Step-Inv (writer_writes frame false at) v = record { sound = v.sound; slot = v.slot }
  Step-Inv (writer_closes true at) v = record { sound = v.sound; slot = v.slot }
  Step-Inv (writer_closes false at) v = record { sound = v.sound; slot = v.slot }
  Step-Inv {c} (is_aborted task told alive) v = abort_task-Inv task c v
  Step-Inv (turns turn) v = record { sound = v.sound; slot = v.slot }

  start-Inv : (client upstream : Input) → Inv j limits (proxy_streams_until j client upstream)
  unfolding proxy_streams_until get
  start-Inv client upstream = record {
    sound = record { pending = omega arith; writes = tt; calls = tt };
    slot = λ k e. cc;
  }

  pub Reach-Inv :
      (client upstream : Input) {c : Connection Number}
      → Reach j limits (proxy_streams_until j client upstream) c
      → Inv j limits c
  Reach-Inv client upstream here = start-Inv client upstream
  Reach-Inv client upstream (next r step) = Step-Inv step (Reach-Inv client upstream r)
