-- ===== src/Proxy/Connection/Queries/Table.antt =====
-- How the calls of the wallet's task in src/proxy.rs change the number of open queries.
use electrum_private_relay.Prelude.{
  ℕ, suc, ◌≤◌, ◌≡◌, inl, inr, refl, ap, Option, none, some, [], ◌∷◌, Bytes, Str, length,
  length-append, Option-cases, Result, ok, err, arith, Bool-cases, leb,
}
use electrum_private_relay.Wire.{SerdeJson, Value}
use electrum_private_relay.Protocol.{
  ProtocolError, ClientFrame, passthrough, broadcast, classify, response, invalid_frame_response,
  pending_request_limit_response,
}
use electrum_private_relay.Proxy.Pending.{
  PendingRequest, PendingRequests, Reservation, reserved, duplicate, limit_exceeded, get,
  contains_key, remove, reserve_request,
}
use electrum_private_relay.Proxy.Framing.{IoErrorKind, invalid_data, other, Input, read_frame}
use electrum_private_relay.Proxy.State.{ConnectionLimits, Connection, release}
use electrum_private_relay.Proxy.Connection.{
  request_id_key, reject, write_upstream, call_relay, on_reservation, on_passthrough, on_broadcast,
  on_classified, on_client_read, client_read,
}
use electrum_private_relay.Proxy.Connection.Queries.{open_queries, WritesQueries}

open_queries-remove-le :
    (key : Str) (p : PendingRequests) → open_queries (remove key p) ≤ open_queries p
unfolding remove
open_queries-remove-le key [] = omega arith
open_queries-remove-le key ((k, PendingRequest.upstream) ∷ p) =
    ground (arith, open_queries-remove-le key p)
open_queries-remove-le key ((k, PendingRequest.broadcast) ∷ p) =
    ground (arith, open_queries-remove-le key p)

-- A key that is found with a query is one entry less.
pub open_queries-remove-lt :
    (key : Str) (p : PendingRequests)
    → get key p ≡ some PendingRequest.upstream
    → suc (open_queries (remove key p)) ≤ open_queries p
unfolding remove get
open_queries-remove-lt key [] h = absurd cc
open_queries-remove-lt key ((k, PendingRequest.upstream) ∷ p) h =
    ground (arith, open_queries-remove-lt key p, open_queries-remove-le key p)
open_queries-remove-lt key ((k, PendingRequest.broadcast) ∷ p) h =
    ground (arith, open_queries-remove-lt key p)

pub open_queries-release-le :
    (key : Option Str) (p : PendingRequests) → open_queries (release key p) ≤ open_queries p
unfolding release
open_queries-release-le none p = omega arith
open_queries-release-le (some key) p = open_queries-remove-le key p

-- What a reservation leaves, by its outcome.
reserved_table :
    (p q : PendingRequests) (key : Str) (request : PendingRequest) (max : ℕ) (outcome : Reservation)
    → reserve_request p key request max ≡ (outcome, q)
    → q ≡ (elim outcome [ reserved ↦ (key, request) ∷ p | duplicate ↦ p | limit_exceeded ↦ p ])
unfolding reserve_request
reserved_table p q key request max outcome h = elim (Bool-cases (contains_key key p)) [
  | inl taken ↦ ground (arith, rw taken at h)
  | inr free ↦ elim (Bool-cases (leb max (length p))) [
    | inl full ↦ ground (arith, rw (free, full) at h)
    | inr room ↦ ground (arith, rw (free, room) at h)
  ]
]

module _ (j : SerdeJson) (limits : ConnectionLimits) where
  open j use {Number}

  reject-WritesQueries :
      (frame : Option Bytes) (c : Connection Number) → WritesQueries j c (reject j frame c)
  unfolding reject
  reject-WritesQueries none c = record {
    output = refl;
    upstream = refl;
    input = refl;
    queries = omega arith;
  }
  reject-WritesQueries (some frame) c = record {
    output = refl;
    upstream = refl;
    input = refl;
    queries = omega arith;
  }

  write_upstream-WritesQueries :
      (frame : Bytes) (q : PendingRequests) (c : Connection Number)
      → open_queries q ≤ suc (open_queries c.pending)
      → WritesQueries j c (write_upstream j frame (record c { pending = q }))
  unfolding write_upstream
  write_upstream-WritesQueries frame q c h = record {
    output = refl;
    upstream = refl;
    input = refl;
    queries = omega (arith, h, length-append c.upstream_writes (frame ∷ []));
  }

  -- A refused reservation leaves the table as it was.
  refused-WritesQueries :
      (frame : Option Bytes) (q : PendingRequests) (c : Connection Number)
      → q ≡ c.pending
      → WritesQueries j c (reject j frame (record c { pending = q }))
  refused-WritesQueries frame q c h =
      let m = reject-WritesQueries frame (record c { pending = q }) in
      record {
        output = m.output;
        upstream = m.upstream;
        input = m.input;
        queries = omega (arith, m.queries, ap open_queries h);
      }

  on_reservation-WritesQueries :
      (id : Value Number) (go : Connection Number → Connection Number) (key : Str)
      (request : PendingRequest) (c : Connection Number)
      → WritesQueries j c (go (record c { pending = (key, request) ∷ c.pending }))
      → WritesQueries j c (
          on_reservation j id go
            (reserve_request c.pending key request limits.max_pending_requests)
            c)
  on_reservation-WritesQueries id go key request c h =
      split (reserve_request c.pending key request limits.max_pending_requests) refl
    where
      split :
          (r : Reservation × PendingRequests)
          → reserve_request c.pending key request limits.max_pending_requests ≡ r
          → WritesQueries j c (on_reservation j id go r c)
      split (reserved, q) e =
          unfold on_reservation in rw (reserved_table c.pending q key request _ reserved e) h
      split (duplicate, q) e =
          unfold on_reservation in
          refused-WritesQueries (invalid_frame_response j) q c
            (reserved_table c.pending q key request _ duplicate e)
      split (limit_exceeded, q) e =
          unfold on_reservation in
          refused-WritesQueries (pending_request_limit_response j id) q c
            (reserved_table c.pending q key request _ limit_exceeded e)

  on_classified-WritesQueries :
      (frame : Bytes) (r : Result (ProtocolError Number) (ClientFrame Number))
      (c : Connection Number)
      → WritesQueries j c (on_classified j limits frame r c)
  unfolding on_classified on_passthrough on_broadcast call_relay
  on_classified-WritesQueries frame (ok (passthrough none)) c =
      write_upstream-WritesQueries frame c.pending c (omega arith)
  on_classified-WritesQueries frame (ok (passthrough (some id))) c =
      elim (Option-cases (request_id_key j id)) [
        | inl e ↦
            rw (e, on_passthrough)
              (record { output = refl; upstream = refl; input = refl; queries = omega arith })
        | inr (key, e) ↦
            rw (e, on_passthrough)
              (on_reservation-WritesQueries id (write_upstream j frame) key PendingRequest.upstream
                c
                (write_upstream-WritesQueries frame ((key, PendingRequest.upstream) ∷ c.pending) c
                  (omega arith)))
      ]
  on_classified-WritesQueries frame (ok (broadcast id raw)) c =
      elim (Option-cases (request_id_key j id)) [
        | inl e ↦
            rw (e, on_broadcast)
              (record { output = refl; upstream = refl; input = refl; queries = omega arith })
        | inr (key, e) ↦
            rw (e, on_broadcast)
              (on_reservation-WritesQueries id (call_relay j id (some key) raw) key
                PendingRequest.broadcast c
                (record { output = refl; upstream = refl; input = refl; queries = omega arith }))
      ]
  on_classified-WritesQueries frame (err error) c = reject-WritesQueries (response j error) c

  -- A round of the wallet's task.
  pub client_read-WritesQueries :
      (c : Connection Number) → WritesQueries j c (client_read j limits c)
  unfolding client_read on_client_read
  client_read-WritesQueries c = go (read_frame limits.max_frame_bytes c.client_input)
    where
      go :
          (r : Result IoErrorKind (Option Bytes × Input))
          → WritesQueries j c (on_client_read j limits r c)
      go (ok (none, rest)) = record {
        output = refl;
        upstream = refl;
        input = refl;
        queries = omega arith;
      }
      go (ok (some frame, rest)) =
          let m =
            on_classified-WritesQueries frame (classify j frame)
              (record c { client_input = rest }) in
          record { output = m.output; upstream = m.upstream; input = m.input; queries = m.queries }
      go (err invalid_data) = reject-WritesQueries (invalid_frame_response j) c
      go (err other) = record {
        output = refl;
        upstream = refl;
        input = refl;
        queries = omega arith;
      }
