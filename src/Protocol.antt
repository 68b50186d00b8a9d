-- ===== src/Protocol.antt =====
-- src/protocol.rs: classification of one client frame, and the responses that the proxy writes.
-- A response is `none` where the `expect` of `encode_response` would panic.
pub mod Payload
pub mod Classify
pub mod Refusals
mod Tests
use electrum_private_relay.Prelude.{
  ℕ, ◌+◌, ◌%◌, Bool, true, false, not, ◌&&◌, ◌||◌, Option, none, some, List, [], ◌∷◌, ◌++◌, Bytes,
  Str, codes, len, bytes, str_eq, all, is_empty, is_ascii_hexdigit, leb, ◌==◌, if◌then◌else◌,
  Result, ok, err, ok_or, refuse_if, ◌>>=◌, ◌>>◌,
}
use electrum_private_relay.Wire.{
  SerdeJson, Value, null, number, string, array, object, nil, cons, end, field, as_str, Request, ℤ,
  neg,
}

abbrev pub broadcast_method : Str
broadcast_method = codes "blockchain.transaction.broadcast"

abbrev pub max_request_id_string_bytes : ℕ
max_request_id_string_bytes = 256

pub data ClientFrame (N : Type 0) : Type 0 where
  broadcast : Value N → Str → ClientFrame N
  passthrough : Option (Value N) → ClientFrame N

pub record ProtocolError (N : Type 0) : Type 0 where
  pub id : Value N
  pub code : ℤ
  pub message : Str

abbrev pub invalid_request : {N : Type 0} → ProtocolError N
invalid_request = record {
  id = null;
  code = neg 32_600;
  message = codes "invalid Electrum request";
}

abbrev pub invalid_params : {N : Type 0} → Value N → ProtocolError N
invalid_params id = record {
  id = id;
  code = neg 32_602;
  message = codes "broadcast expects one hex-encoded transaction";
}

-- The one text among the parameters: the only element of an array, or the parameter itself.
unfoldable pub raw_param : {N : Type 0} → Option (Value N) → Option Str
raw_param (some (array (cons value nil))) = as_str value
raw_param (some (string value)) = some value
raw_param _ = none

-- The test of a raw transaction that `classify` makes.
unfoldable pub is_hex_payload : Str → Bool
is_hex_payload raw =
    not (is_empty (bytes raw) || not (len raw % 2 == 0) || not (all is_ascii_hexdigit (bytes raw)))

abbrev pub unwrap_or {ℓ} : {A : Type ℓ} → Option A → A → A
unwrap_or none a = a
unwrap_or (some b) a = b

module _ (j : SerdeJson) where
  open j use {Number, is_i64, is_u64, from_i64, to_vec, request_from_slice}

  unfoldable pub is_valid_request_id : Value Number → Bool
  is_valid_request_id (number n) = is_i64 n || is_u64 n
  is_valid_request_id (string value) = leb (len value) max_request_id_string_bytes
  is_valid_request_id _ = false

  -- The first `match` of `classify`.
  unfoldable pub checked_id :
      Option (Value Number) → Result (ProtocolError Number) (Option (Value Number))
  checked_id none = ok none
  checked_id (some id) = if is_valid_request_id id then ok (some id) else err invalid_request

  -- The rest of `classify`, for a broadcast.
  unfoldable pub classify_broadcast :
      Value Number → Option (Value Number) → Result (ProtocolError Number) (ClientFrame Number)
  classify_broadcast id params = do
    raw ← ok_or (raw_param params) (invalid_params id)
    refuse_if (not (is_hex_payload raw)) (invalid_params id)
    ok (broadcast id raw)

  unfoldable pub classify_request :
      Request Number → Result (ProtocolError Number) (ClientFrame Number)
  classify_request request = do
    id ← checked_id request.id
    if not (str_eq request.method broadcast_method)
        then ok (passthrough id)
        else classify_broadcast (unwrap_or id null) request.params

  unfoldable pub classify : Bytes → Result (ProtocolError Number) (ClientFrame Number)
  classify frame = do
    request ← ok_or (request_from_slice frame) invalid_request
    classify_request request

  unfoldable pub encode_response : Value Number → Option Bytes
  encode_response value = elim (to_vec value) [
    | none ↦ none
    | some response ↦ some (response ++ b'\n' ∷ [])
  ]

  -- `json!({ "id": id, "error": { "code": code, "message": message } })`
  abbrev pub error_object : Value Number → ℤ → Str → Value Number
  error_object id code message = object (
      field (codes "id") id (
        field (codes "error")
          (object (
            field (codes "code") (number (from_i64 code))
              (field (codes "message") (string message) end)))
          end))

  -- `ProtocolError::response`
  unfoldable pub response : ProtocolError Number → Option Bytes
  response e = encode_response (error_object e.id e.code e.message)

  unfoldable pub success_response : Value Number → Str → Option Bytes
  success_response id transaction_id =
      encode_response
        (object (field (codes "id") id (field (codes "result") (string transaction_id) end)))

  unfoldable pub relay_error_response : Value Number → Bool → Option Bytes
  relay_error_response id relay_is_disabled =
      if relay_is_disabled
      then encode_response
          (error_object id (neg 32_090) (codes "private broadcasting is not configured"))
      else encode_response (
          error_object id (neg 32_091)
            (codes "private broadcast failed; no public fallback was attempted"))

  unfoldable pub invalid_frame_response : Option Bytes
  invalid_frame_response = response invalid_request

  unfoldable pub pending_request_limit_response : Value Number → Option Bytes
  pending_request_limit_response id =
      encode_response (error_object id (neg 32_092) (codes "too many pending requests"))
