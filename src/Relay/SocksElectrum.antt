-- ===== src/Relay/SocksElectrum.antt =====
-- src/relay/socks_electrum.rs: one submission to the private relay through the SOCKS5 proxy. The
-- network is a parameter: each of its three operations runs under a timeout.
pub mod Answers
pub mod Submission
mod Tests
use electrum_private_relay.Prelude.{
  ℕ, ◌+◌, ◌*◌, Bool, true, false, not, ◌&&◌, ◌||◌, Option, none, some, [], ◌∷◌, ◌++◌, Bytes, Str,
  codes, bytes, len, length, all, is_empty, is_ascii_hexdigit, to_ascii_lowercase, str_eq, ltb,
  ◌==◌, if◌then◌else◌, Result, ok, err, ok_or, map_err, refuse_if, ◌>>=◌, ◌>>◌,
}
use electrum_private_relay.Wire.{
  SerdeJson, Value, string, array, object, nil, cons, end, field, as_str, RelayResponse,
}
use electrum_private_relay.Net.{SocketAddr}
use electrum_private_relay.Endpoint.{Endpoint}
use electrum_private_relay.Protocol.{broadcast_method}
use electrum_private_relay.Proxy.Framing.{
  IoErrorKind, Input, newline, read_until, ends_with_newline,
}
use electrum_private_relay.Relay.{RelayError, failed, RelayResult}

abbrev pub relay_request_id : Str
relay_request_id = codes "electrum-private-relay"

abbrev pub max_relay_response_bytes : ℕ
max_relay_response_bytes = 64 * 1024

pub record SocksElectrumRelay : Type 0 where
  pub socks5_proxy : SocketAddr
  pub endpoint : Endpoint
  pub timeout : ℕ

-- What `timeout(limit, operation).await` gives.
pub data Timed (A : Type 0) : Type 0 where
  elapsed : Timed A
  io_failed : Timed A
  done : A → Timed A

-- tokio_socks and the stream that it opens. `respond` is what the relay sends, unless its time
-- elapses before the read has ended.
pub record Network : Type 1 where
  pub Stream : Type 0
  pub connect : ℕ → SocketAddr → Str × ℕ → Timed Stream
  pub write_all : ℕ → Bytes → Stream → Timed Stream
  pub respond : ℕ → Stream → Timed Input

-- `.map_err(|_| RelayError::failed())?` twice: on the timeout and on the operation.
abbrev pub in_time : {A : Type 0} → Timed A → Result RelayError A
in_time elapsed = err failed
in_time io_failed = err failed
in_time (done a) = ok a

-- The condition on the bytes that were read.
unfoldable pub checked_response : Bytes → Result RelayError Bytes
checked_response response =
    if is_empty response
      || ltb max_relay_response_bytes (length response)
      || not (ends_with_newline response)
    then err failed
    else ok response

unfoldable pub read_response : Input → Result RelayError Bytes
read_response input = do
  read ← map_err (λ e. failed) (read_until (max_relay_response_bytes + 1) input.unread input.ending)
  checked_response read.0

-- `candidate.len() == 64 && candidate.bytes().all(..)`
unfoldable pub is_transaction_id : Str → Bool
is_transaction_id candidate = len candidate == 64 && all is_ascii_hexdigit (bytes candidate)

-- `.result.as_ref().and_then(Value::as_str).filter(..)`
unfoldable pub transaction_id : {N : Type 0} → Option (Value N) → Option Str
transaction_id none = none
transaction_id (some result) = elim (as_str result) [
  | none ↦ none
  | some candidate ↦ if is_transaction_id candidate then some candidate else none
]

abbrev pub is_some : {A : Type 0} → Option A → Bool
is_some none = false
is_some (some a) = true

-- `id.as_str() == Some(RELAY_REQUEST_ID)`
unfoldable pub is_relay_id : {N : Type 0} → Value N → Bool
is_relay_id (string id) = str_eq id relay_request_id
is_relay_id _ = false

-- The checks of a response that serde has read, and its transaction ID.
unfoldable pub accepted : {N : Type 0} → RelayResponse N → RelayResult
accepted response = do
  refuse_if (not (is_relay_id response.id) || is_some response.error) failed
  candidate ← ok_or (transaction_id response.result) failed
  ok (to_ascii_lowercase candidate)

-- The `json!` object of the request.
abbrev pub relay_request : {N : Type 0} → Str → Value N
relay_request raw_transaction = object (
    field (codes "id") (string relay_request_id) (
      field (codes "method") (string broadcast_method)
        (field (codes "params") (array (cons (string raw_transaction) nil)) end)))

module _ (j : SerdeJson) (network : Network) where
  open j use {to_vec, response_from_slice}
  open network use {Stream, connect, write_all, respond}

  -- `broadcast` up to the bytes of the response.
  unfoldable pub exchange : SocksElectrumRelay → Str → Result RelayError Bytes
  exchange relay raw_transaction = do
    stream ←
        in_time
          (connect relay.timeout relay.socks5_proxy (relay.endpoint.host, relay.endpoint.port))
    request ← ok_or (to_vec (relay_request raw_transaction)) failed
    stream ← in_time (write_all relay.timeout (request ++ newline ∷ []) stream)
    input ← in_time (respond relay.timeout stream)
    read_response input

  unfoldable pub broadcast : SocksElectrumRelay → Str → RelayResult
  broadcast relay raw_transaction = do
    bytes ← exchange relay raw_transaction
    response ← ok_or (response_from_slice bytes) failed
    accepted response
