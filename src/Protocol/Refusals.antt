-- ===== src/Protocol/Refusals.antt =====
-- How src/protocol.rs refuses a frame, and for which frames.
use electrum_private_relay.Prelude.{
  ◌≡◌, ◌⊎◌, inl, inr, sym, subst, Option, none, some, Bytes, Str, str_eq, str_eq_iff, Bool-cases,
  Option-cases, err, Result-cases, arith,
}
use electrum_private_relay.Wire.{SerdeJson, Value, null, Request}
use electrum_private_relay.Protocol.{
  broadcast_method, ProtocolError, invalid_request, invalid_params, unwrap_or, checked_id,
  classify_broadcast, classify_request, classify,
}
use electrum_private_relay.Protocol.Payload.{IsHexPayload, is_hex_payload_iff}
use electrum_private_relay.Protocol.Classify.{
  HoldsRaw, AllCorrelatable, is_valid_request_id_iff, raw_param_iff, checked_id-eq-ok,
}

module _ (j : SerdeJson) where
  open j use {Number, request_from_slice}

  -- Serde reads no request, or one whose ID cannot be correlated.
  abbrev pub IsMalformed : Bytes → Type 0
  IsMalformed frame =
      (request_from_slice frame ≡ none)
      ⊎ ((request : Request Number) × (request_from_slice frame ≡ some request)
          × ¬ AllCorrelatable j request.id)

  -- A broadcast whose parameters do not hold one transaction in hexadecimal.
  pub record IsBadBroadcast (frame : Bytes) (e : ProtocolError Number) : Type 0 where
    pub request : Request Number
    pub parsed : request_from_slice frame ≡ some request
    pub method : request.method ≡ broadcast_method
    pub correlatable : AllCorrelatable j request.id
    pub no_payload : (raw : Str) → HoldsRaw request.params raw → ¬ IsHexPayload raw
    pub answer : e ≡ invalid_params (unwrap_or request.id null)

  checked_id-eq-err :
      (id : Option (Value Number)) (e : ProtocolError Number)
      → checked_id j id ≡ err e
      → (e ≡ invalid_request) × ¬ AllCorrelatable j id
  unfolding checked_id
  checked_id-eq-err none e h = absurd (ground arith)
  checked_id-eq-err (some id) e h =
      (ground arith, λ c. ground (arith, (is_valid_request_id_iff j id).1 c))

  classify_broadcast-eq-err :
      (id : Value Number) (params : Option (Value Number)) (e : ProtocolError Number)
      → classify_broadcast j id params ≡ err e
      → (e ≡ invalid_params id) × ((raw : Str) → HoldsRaw params raw → ¬ IsHexPayload raw)
  unfolding classify_broadcast
  classify_broadcast-eq-err id params e h = (
    ground arith,
    λ raw held payload.
        ground (arith, (raw_param_iff params raw).1 held, (is_hex_payload_iff raw).1 payload),
  )

  -- A frame is refused in two ways only: as an invalid request (-32600, null ID) when it is
  -- malformed, or as invalid parameters (-32602, with the ID of the request, null if it has none)
  -- when it is a broadcast with a usable ID whose parameters hold no payload in hexadecimal.
  pub classify_refusals :
      (frame : Bytes) (e : ProtocolError Number)
      → classify j frame ≡ err e
      → ((e ≡ invalid_request) × IsMalformed frame) ⊎ IsBadBroadcast frame e
  unfolding classify classify_request
  classify_refusals frame e h = elim (Option-cases (request_from_slice frame)) [
    | inl q ↦ inl (ground arith, inl q)
    | inr (request, q) ↦ elim (Result-cases (checked_id j request.id)) [
      | inr (e', c) ↦
          let (same, unfit) = checked_id-eq-err request.id e' c in
          inl (ground (arith, same), inr (request, q, unfit))
      | inl (i, c) ↦ elim (Bool-cases (str_eq request.method broadcast_method)) [
        | inr other ↦ absurd (ground arith)
        | inl same ↦
            let (given, fits) = (checked_id-eq-ok j request.id i).0 c in
            let (answer, no_payload) =
              classify_broadcast-eq-err (unwrap_or i null) request.params e (ground arith) in
            inr (record {
              request = request;
              parsed = q;
              method = (str_eq_iff _ _).0 same;
              correlatable = subst (AllCorrelatable j) (sym given) fits;
              no_payload = no_payload;
              answer = ground (arith, answer, given);
            })
      ]
    ]
  ]
