-- ===== src/Proxy/Connection/Tests.antt =====
-- The theorems about single steps and reachable states, at the states of the sample connection.
use electrum_private_relay.Prelude.{
  ◌≡◌, ◌≢◌, refl, inr, true, none, some, [], ◌∷◌, ◌++◌, All, Str, codes, length, ◌≤◌, str_eq, ok,
  err, arith, if◌then◌else◌,
}
use electrum_private_relay.Protocol.{
  broadcast, classify, invalid_frame_response, pending_request_limit_response,
}
use electrum_private_relay.Relay.{disabled}
use electrum_private_relay.Proxy.Pending.{PendingRequest, get, remove}
use electrum_private_relay.Proxy.Pending.Laws.{IsWellFormed}
use electrum_private_relay.Proxy.Framing.{Input, closed, read_frame}
use electrum_private_relay.Proxy.State.{
  is_open, ConnectionLimits, Connection, ClientTask, panicked, relaying, replying, forwarding,
  from_proxy,
}
use electrum_private_relay.Proxy.Connection.{
  client_read, client_rejected, request_id_key, relay_returned, relay_response, client_replied,
  on_upstream_frame,
}
use electrum_private_relay.Proxy.Connection.Safety.{
  IsPublic, upstream_writes-IsPublic, pending_bounds, colliding_response_dropped,
}
use electrum_private_relay.Proxy.Connection.Rounds.{
  refusing_with, refused_with, broadcast_round, request_refused, response_correlated,
}
use electrum_private_relay.Proxy.Connection.Panics.{PrintsAll, client_never_panics}
use electrum_private_relay.Wire.{Value, null, boolean, number, string, array, object, pos, negsuc}
use electrum_private_relay.Samples.{
  integer, float, sample, sample_to_string, frame, id_of, raw_sample, envelope_of, SampleNumber,
}
use electrum_private_relay.Proxy.Connection.Samples.{
  tasks, limits, wallet, silent, written, waiting, written-Reach, waiting-Reach, waiting_task,
}

waiting_logs :
    (waiting.upstream_writes ≡ frame (codes "query") ∷ []) × (waiting.relay_calls ≡ raw_sample ∷ [])
unfolding tasks
waiting_logs = (refl, refl)

upstream_writes-IsPublic_example : All (IsPublic sample limits) waiting.upstream_writes
upstream_writes-IsPublic_example =
    upstream_writes-IsPublic sample limits wallet silent waiting waiting-Reach

pending_bounds_example :
    IsWellFormed 2 written.pending
    × (written.client ≡ ClientTask.reading
        → (key : Str) → get key written.pending ≢ some PendingRequest.broadcast)
pending_bounds_example = pending_bounds sample limits wallet silent written written-Reach

keyed : request_id_key sample (id_of 2) ≡ some (codes "2")
unfolding tasks
keyed = refl

colliding_response_dropped_example :
    (on_upstream_frame sample (frame (codes "noise")) (some (envelope_of 2)) waiting ≡ waiting)
    × (get (codes "2") waiting.pending ≡ some PendingRequest.broadcast)
colliding_response_dropped_example =
    colliding_response_dropped sample limits wallet silent waiting waiting-Reach (id_of 2) (id_of 2)
      raw_sample (codes "2") (frame (codes "noise")) (envelope_of 2) waiting_task refl refl keyed

abbrev after_broadcast : Input
after_broadcast = record { unread = []; ending = closed }

arrived :
    read_frame 64 written.client_input ≡ ok (some (frame (codes "broadcast")), after_broadcast)
unfolding tasks
arrived = refl

is_broadcast : classify sample (frame (codes "broadcast")) ≡ ok (broadcast (id_of 2) raw_sample)
unfolding tasks
is_broadcast = refl

free : get (codes "2") written.pending ≡ none
unfolding tasks
free = refl

answered : relay_response sample (id_of 2) (err disabled) ≡ some (frame (codes "answer"))
unfolding tasks
answered = refl

alive : is_open written.writer ≡ true
unfolding tasks
alive = refl

broadcast_round_example :
    (waiting.client ≡ relaying (id_of 2) (some (codes "2")) raw_sample)
    × ((relay_returned sample (id_of 2) (some (codes "2")) (err disabled) waiting).client
        ≡ replying (frame (codes "answer")))
    × (client_replied sample
          (frame (codes "answer"))
          (relay_returned sample (id_of 2) (some (codes "2")) (err disabled) waiting)
        ≡ record written {
          client_input = after_broadcast;
          client = ClientTask.reading;
          relay_calls = written.relay_calls ++ raw_sample ∷ [];
          client_output = written.client_output ++ from_proxy (frame (codes "answer")) ∷ [];
          queue = written.queue ++ frame (codes "answer") ∷ [];
        })
unfolding tasks
broadcast_round_example =
    broadcast_round sample limits written (frame (codes "broadcast")) after_broadcast arrived
      (id_of 2) raw_sample (codes "2") (frame (codes "answer")) (err disabled) is_broadcast keyed
      free (omega arith) answered alive

abbrev narrow : ConnectionLimits
narrow = record { max_frame_bytes = 64; max_pending_requests = 1 }

prints_invalid : invalid_frame_response sample ≡ some (frame (codes "answer"))
unfolding tasks
prints_invalid = refl

prints_limited : pending_request_limit_response sample (id_of 2) ≡ some (frame (codes "answer"))
unfolding tasks
prints_limited = refl

abbrev refused : Connection SampleNumber
refused = client_read sample narrow written

request_refused_example :
    (get (codes "2") written.pending ≢ none
      → (refused ≡ refusing_with sample after_broadcast (frame (codes "answer")) written)
        × (client_rejected sample (frame (codes "answer")) refused
            ≡ refused_with sample after_broadcast (frame (codes "answer")) written))
    × (get (codes "2") written.pending ≡ none
        → 1 ≤ length written.pending
        → (refused ≡ refusing_with sample after_broadcast (frame (codes "answer")) written)
          × (client_rejected sample (frame (codes "answer")) refused
              ≡ refused_with sample after_broadcast (frame (codes "answer")) written))
request_refused_example =
    request_refused sample narrow written (frame (codes "broadcast")) after_broadcast arrived
      (broadcast (id_of 2) raw_sample) (id_of 2) (codes "2") (frame (codes "answer"))
      (frame (codes "answer")) is_broadcast (inr (raw_sample, refl)) keyed prints_invalid
      prints_limited alive

keyed_query : request_id_key sample (id_of 1) ≡ some (codes "1")
unfolding tasks
keyed_query = refl

abbrev answering : Connection SampleNumber
answering = on_upstream_frame sample (frame (codes "noise")) (some (envelope_of 1)) written

response_correlated_example :
    (get (codes "1") written.pending ≡ some PendingRequest.upstream
      → (answering ≡ record written {
        pending = remove (codes "1") written.pending;
        upstream = forwarding (frame (codes "noise"));
      })
        × ((k : Str)
            → get k answering.pending
              ≡ (if str_eq (codes "1") k then none else get k written.pending))
        × (on_upstream_frame sample (frame (codes "noise")) (some (envelope_of 1)) answering
            ≡ answering))
    × (get (codes "1") written.pending ≢ some PendingRequest.upstream → answering ≡ written)
response_correlated_example =
    response_correlated sample written (frame (codes "noise")) (codes "1") (id_of 1) (envelope_of 1)
      refl refl keyed_query

sample_to_string-ne-none : (v : Value SampleNumber) → sample_to_string v ≢ none
unfolding sample_to_string
sample_to_string-ne-none (number (integer (pos n))) h = absurd cc
sample_to_string-ne-none (number (integer (negsuc n))) h = absurd cc
sample_to_string-ne-none (number (float f)) h = absurd cc
sample_to_string-ne-none (string s) h = absurd cc
sample_to_string-ne-none null h = absurd cc
sample_to_string-ne-none (boolean b) h = absurd cc
sample_to_string-ne-none (array vs) h = absurd cc
sample_to_string-ne-none (object fs) h = absurd cc

sample-PrintsAll : PrintsAll sample
sample-PrintsAll = record { to_vec = λ v h. absurd cc; to_string = sample_to_string-ne-none }

client_never_panics_example : waiting.client ≢ ClientTask.finished panicked
client_never_panics_example =
    client_never_panics sample limits sample-PrintsAll wallet silent waiting waiting-Reach
