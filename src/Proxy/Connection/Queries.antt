-- ===== src/Proxy/Connection/Queries.antt =====
-- The answers of the upstream server in src/proxy.rs, counted against the queries of the wallet.
pub mod Table
pub mod Bounded
use electrum_private_relay.Prelude.{
  ℕ, suc, ◌+◌, ◌≤◌, ◌≡◌, Bool, true, false, Option, none, some, List, [], ◌∷◌, Bytes, Str, length,
  if◌then◌else◌,
}
use electrum_private_relay.Wire.{SerdeJson, Value, UpstreamEnvelope}
use electrum_private_relay.Proxy.Pending.{PendingRequest, PendingRequests}
use electrum_private_relay.Proxy.State.{
  UpstreamTask, forwarding, Output, from_proxy, from_upstream, Connection,
}

-- The entries of the table that are queries.
abbrev pub open_queries : PendingRequests → ℕ
open_queries [] = 0
open_queries ((key, PendingRequest.upstream) ∷ rest) = suc (open_queries rest)
open_queries ((key, PendingRequest.broadcast) ∷ rest) = open_queries rest

-- A frame with an ID and no method is an answer; one with a method and no ID is a notification.
abbrev pub has_answer : {N : Type 0} → Option (Value N) → Option Str → Bool
has_answer (some id) none = true
has_answer _ _ = false

abbrev pub is_answer_envelope : {N : Type 0} → Option (UpstreamEnvelope N) → Bool
is_answer_envelope none = false
is_answer_envelope (some envelope) = has_answer envelope.id envelope.method

module _ (j : SerdeJson) where
  open j use {Number, envelope_from_slice}

  abbrev pub one_if_answer : Bytes → ℕ
  one_if_answer frame = if is_answer_envelope (envelope_from_slice frame) then 1 else 0

  -- The answers of the upstream that the channel to the wallet has taken.
  abbrev pub answers : List Output → ℕ
  answers [] = 0
  answers (from_proxy frame ∷ rest) = answers rest
  answers (from_upstream frame ∷ rest) = one_if_answer frame + answers rest

  -- The answer that the upstream task holds.
  abbrev pub answer_in_hand : UpstreamTask → ℕ
  answer_in_hand (forwarding frame) = one_if_answer frame
  answer_in_hand _ = 0

  abbrev pub IsBalanced : Connection Number → Type 0
  IsBalanced c =
      answers c.client_output + answer_in_hand c.upstream + open_queries c.pending
      ≤ length c.upstream_writes

  -- What a step of the wallet's task does: every query that it adds to the table is also written.
  pub record WritesQueries (c d : Connection Number) : Type 0 where
    pub output : d.client_output ≡ c.client_output
    pub upstream : d.upstream ≡ c.upstream
    pub input : d.upstream_input ≡ c.upstream_input
    pub queries :
        open_queries d.pending + length c.upstream_writes
        ≤ open_queries c.pending + length d.upstream_writes
