-- ===== src/Proxy/Connection/Rounds.antt =====
-- What one request does to a connection: whole rounds of the two tasks of src/proxy.rs.
use electrum_private_relay.Prelude.{
  ℕ, ◌≤◌, ◌<◌, ◌≡◌, ◌≢◌, ◌⊎◌, inl, inr, refl, ◌∙◌, ap, true, Option, none, some, [], ◌∷◌, ◌++◌,
  Bytes, Str, str_eq, str_eq_refl, length, if◌then◌else◌, ok, arith,
}
use electrum_private_relay.Wire.{SerdeJson, Value, UpstreamEnvelope}
use electrum_private_relay.Protocol.{
  ClientFrame, broadcast, passthrough, classify, invalid_frame_response,
  pending_request_limit_response,
}
use electrum_private_relay.Relay.{RelayResult}
use electrum_private_relay.Proxy.Pending.{
  PendingRequest, PendingRequests, reserved, get, remove, reserve_request,
}
use electrum_private_relay.Proxy.Pending.Laws.{
  get-remove, contains_key_iff, remove-reserve, reserve_request_outcomes,
}
use electrum_private_relay.Proxy.Framing.{Input, read_frame}
use electrum_private_relay.Proxy.State.{
  is_open, ConnectionLimits, Connection, ClientTask, relaying, replying, forwarding, from_proxy,
  send, release, rejecting, returned,
}
use electrum_private_relay.Proxy.Connection.{
  request_id_key, reject, write_upstream, call_relay, on_reservation, on_passthrough, on_broadcast,
  on_classified, on_client_read, client_read, relay_response, on_relay_response, relay_returned,
  client_replied, client_rejected, on_correlated, on_response_key, on_envelope, on_upstream_frame,
}

module _ (j : SerdeJson) where
  open j use {Number}

  -- A classified frame that asks for an answer under `id`.
  abbrev pub Asks : ClientFrame Number → Value Number → Type 0
  Asks out id = (out ≡ passthrough (some id)) ⊎ ((raw : Str) × (out ≡ broadcast id raw))

  -- The connection after a frame that was refused: the wallet's task is about to send `answer`.
  abbrev pub refusing_with : Input → Bytes → Connection Number → Connection Number
  refusing_with rest answer c = record c { client_input = rest; client = rejecting answer }

  -- And after the answer: the task has returned.
  abbrev pub refused_with : Input → Bytes → Connection Number → Connection Number
  refused_with rest answer c = record c {
    client_input = rest;
    client = ClientTask.finished returned;
    client_output = c.client_output ++ from_proxy answer ∷ [];
    queue = c.queue ++ answer ∷ [];
  }

  reserved_of :
      (max : ℕ) (p : PendingRequests) (key : Str) (request : PendingRequest)
      → get key p ≡ none
      → length p < max
      → reserve_request p key request max ≡ (reserved, (key, request) ∷ p)
  unfolding reserve_request
  reserved_of max p key request free room = ground (arith, (contains_key_iff key p).1 free)

  module _ (limits : ConnectionLimits) (c : Connection Number) (frame : Bytes) (rest : Input)
      (arrived : read_frame limits.max_frame_bytes c.client_input ≡ ok (some frame, rest)) where
    client_read_classified :
        (out : ClientFrame Number)
        → classify j frame ≡ ok out
        → client_read j limits c
          ≡ on_classified j limits frame (ok out) (record c { client_input = rest })
    unfolding client_read on_client_read
    client_read_classified out e = rw (arrived, e)

    broadcast_admitted :
        (id : Value Number) (raw key : Str)
        → classify j frame ≡ ok (broadcast id raw)
        → request_id_key j id ≡ some key
        → get key c.pending ≡ none
        → length c.pending < limits.max_pending_requests
        → client_read j limits c ≡ record c {
          client_input = rest;
          pending = (key, PendingRequest.broadcast) ∷ c.pending;
          client = relaying id (some key) raw;
          relay_calls = c.relay_calls ++ raw ∷ [];
        }
    unfolding on_classified on_broadcast on_reservation call_relay
    broadcast_admitted id raw key e keyed free room =
        client_read_classified (broadcast id raw) e
        ∙ ground (
          arith,
          keyed,
          reserved_of limits.max_pending_requests c.pending key PendingRequest.broadcast free room,
        )

    broadcast_answered :
        (id : Value Number) (raw key response : Str) (result : RelayResult)
        → get key c.pending ≡ none
        → relay_response j id result ≡ some response
        → relay_returned j id (some key) result (record c {
          client_input = rest;
          pending = (key, PendingRequest.broadcast) ∷ c.pending;
          client = relaying id (some key) raw;
          relay_calls = c.relay_calls ++ raw ∷ [];
        })
          ≡ record c {
            client_input = rest;
            client = replying response;
            relay_calls = c.relay_calls ++ raw ∷ [];
          }
    unfolding relay_returned on_relay_response release
    broadcast_answered id raw key response result free answer = ground (
      arith,
      answer,
      remove-reserve key PendingRequest.broadcast c.pending
          ((contains_key_iff key c.pending).1 free),
    )

    -- A broadcast that is admitted goes to the relay alone, once; whatever the relay answers, the
    -- wallet then gets the response to that answer, the table is as it was, nothing was written
    -- upstream, and the client task reads on.
    pub broadcast_round :
        (id : Value Number) (raw key response : Str) (result : RelayResult)
        → classify j frame ≡ ok (broadcast id raw)
        → request_id_key j id ≡ some key
        → get key c.pending ≡ none
        → length c.pending < limits.max_pending_requests
        → relay_response j id result ≡ some response
        → is_open c.writer ≡ true
        → let waiting = client_read j limits c in
          let answered = relay_returned j id (some key) result waiting in
          (waiting.client ≡ relaying id (some key) raw)
          × (answered.client ≡ replying response)
          × (client_replied j response answered ≡ record c {
            client_input = rest;
            client = ClientTask.reading;
            relay_calls = c.relay_calls ++ raw ∷ [];
            client_output = c.client_output ++ from_proxy response ∷ [];
            queue = c.queue ++ response ∷ [];
          })
    unfolding client_replied send
    broadcast_round id raw key response result is_broadcast keyed free room answer alive =
        rw
          (
            broadcast_admitted id raw key is_broadcast keyed free room,
            broadcast_answered id raw key response result free answer,
          )
          (refl, refl, ground (arith, alive))

    on_classified-Asks :
        (out : ClientFrame Number) (id : Value Number) (key : Str)
        → Asks out id
        → request_id_key j id ≡ some key
        → (d : Connection Number)
        → (go : Connection Number → Connection Number) × (request : PendingRequest) × (on_classified
              j limits frame
              (ok out)
              d
            ≡ on_reservation j id go
                (reserve_request d.pending key request limits.max_pending_requests)
                d)
    unfolding on_classified on_broadcast on_passthrough
    on_classified-Asks out id key (inl e) keyed d =
        (write_upstream j frame, PendingRequest.upstream, rw e (ground (arith, keyed)))
    on_classified-Asks out id key (inr (raw, e)) keyed d =
        (call_relay j id (some key) raw, PendingRequest.broadcast, rw e (ground (arith, keyed)))

    client_rejected-refused :
        (answer : Bytes)
        → is_open c.writer ≡ true
        → client_rejected j answer (refusing_with rest answer c) ≡ refused_with rest answer c
    unfolding client_rejected send
    client_rejected-refused answer alive = ground (arith, alive)

    -- What `reject` makes of a refusal that leaves the table.
    reject-refusing :
        (response : Option Bytes) (answer : Bytes)
        → response ≡ some answer
        → reject j response (record c { client_input = rest; pending = c.pending })
          ≡ refusing_with rest answer c
    unfolding reject
    reject-refusing response answer e = rw e refl

    -- While the writer lives, a query with an ID, or a broadcast, is refused without being sent
    -- anywhere: if its ID is pending already the wallet gets the answer to an invalid frame, and if
    -- the ID is free and the table is full the limit error under its ID. Then the client task has
    -- ended, and nothing else has changed: not the table, nor what was written upstream or handed to
    -- the relay.
    pub request_refused :
        (out : ClientFrame Number) (id : Value Number) (key : Str) (invalid limited : Bytes)
        → classify j frame ≡ ok out
        → Asks out id
        → request_id_key j id ≡ some key
        → invalid_frame_response j ≡ some invalid
        → pending_request_limit_response j id ≡ some limited
        → is_open c.writer ≡ true
        → let refused = client_read j limits c in
          (get key c.pending ≢ none
            → (refused ≡ refusing_with rest invalid c)
              × (client_rejected j invalid refused ≡ refused_with rest invalid c))
          × (get key c.pending ≡ none
              → limits.max_pending_requests ≤ length c.pending
              → (refused ≡ refusing_with rest limited c)
                × (client_rejected j limited refused ≡ refused_with rest limited c))
    unfolding on_reservation
    request_refused out id key invalid limited e asks keyed is_invalid is_limited alive =
        let d : Connection Number = record c { client_input = rest } in
        let (go, request, q) = on_classified-Asks out id key asks keyed d in
        let read = client_read_classified out e ∙ q in
        elim (reserve_request_outcomes limits.max_pending_requests c.pending key request) [
          | inl (taken, r) ↦
              let same = read ∙ rw r (reject-refusing _ invalid is_invalid) in
              (
                λ _. (same, rw same (client_rejected-refused invalid alive)),
                λ free. absurd (taken free),
              )
          | inr (inl (free, full, r)) ↦
              let same = read ∙ rw r (reject-refusing _ limited is_limited) in
              (
                λ taken. absurd (taken free),
                λ _ _. (same, rw same (client_rejected-refused limited alive)),
              )
          | inr (inr (p, free, room, r, within, gets, removes)) ↦
              (λ taken. absurd (taken free), λ _ full. absurd (omega arith))
        ]

  module _ (c : Connection Number) (frame key : Str) (id : Value Number)
      (envelope : UpstreamEnvelope Number) (has_id : envelope.id ≡ some id)
      (no_method : envelope.method ≡ none) (keyed : request_id_key j id ≡ some key) where
    -- A response of the upstream goes to the wallet once: if its ID is pending for the upstream it
    -- is forwarded and the ID alone is released, so that the same response is dropped the next
    -- time; under any other ID it changes nothing.
    pub response_correlated :
        (get key c.pending ≡ some PendingRequest.upstream
          → let d = on_upstream_frame j frame (some envelope) c in
            (d ≡ record c { pending = remove key c.pending; upstream = forwarding frame })
            × ((k : Str) → get k d.pending ≡ (if str_eq key k then none else get k c.pending))
            × (on_upstream_frame j frame (some envelope) d ≡ d))
        × (get key c.pending ≢ some PendingRequest.upstream
            → on_upstream_frame j frame (some envelope) c ≡ c)
    unfolding on_upstream_frame on_envelope on_response_key on_correlated
    response_correlated = (
      λ held.
          let e : on_upstream_frame j frame (some envelope) c
              ≡ record c { pending = remove key c.pending; upstream = forwarding frame } =
            ground (arith, has_id, no_method, keyed, held) in
          (
            e,
            λ k. ap (λ (d : Connection Number). get k d.pending) e ∙ get-remove k key c.pending,
            rw e (
                ground
                  (arith, has_id, no_method, keyed, get-remove key key c.pending, str_eq_refl key)),
          ),
      λ other. ground (arith, has_id, no_method, keyed, other),
    )
