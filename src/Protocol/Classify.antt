-- ===== src/Protocol/Classify.antt =====
-- Which frames src/protocol.rs takes for broadcasts, which it lets through, and how it refuses.
use electrum_private_relay.Prelude.{
  ◌≤◌, ◌≡◌, ◌≢◌, ◌↔◌, ◌⊎◌, inl, inr, refl, sym, ◌∙◌, subst, true, Option, none, some, Bytes, Str,
  len, str_eq, str_eq_iff, Bool-cases, Option-cases, ok, Result-cases, arith,
}
use electrum_private_relay.Wire.{
  SerdeJson, Value, null, boolean, number, string, array, object, nil, cons, Request,
}
use electrum_private_relay.Protocol.{
  broadcast_method, ClientFrame, broadcast, passthrough, raw_param, unwrap_or, is_valid_request_id,
  checked_id, classify_broadcast, classify_request, classify,
}
use electrum_private_relay.Protocol.Payload.{IsHexPayload, is_hex_payload_iff}

-- The parameters hold the text `raw`, alone or as the only element of an array.
abbrev pub HoldsRaw : {N : Type 0} → Option (Value N) → Str → Type 0
HoldsRaw params raw = (params ≡ some (string raw)) ⊎ (params ≡ some (array (cons (string raw) nil)))

pub raw_param_iff :
    {N : Type 0} (params : Option (Value N)) (raw : Str)
    → (raw_param params ≡ some raw) ↔ HoldsRaw params raw
unfolding raw_param
raw_param_iff none raw = ground arith
raw_param_iff (some null) raw = ground arith
raw_param_iff (some (boolean b)) raw = ground arith
raw_param_iff (some (number n)) raw = ground arith
raw_param_iff (some (string s)) raw = ground arith
raw_param_iff (some (array nil)) raw = ground arith
raw_param_iff (some (array (cons (string s) nil))) raw = ground arith
raw_param_iff (some (array (cons v nil))) raw = ground arith
raw_param_iff (some (array (cons v (cons w vs)))) raw = ground arith
raw_param_iff (some (object fs)) raw = ground arith

module _ (j : SerdeJson) where
  open j use {Number, is_i64, is_u64, request_from_slice}

  -- An exact integer of 64 bits, or a text of at most 256 bytes.
  abbrev pub IsCorrelatable : Value Number → Type 0
  IsCorrelatable (number n) = (is_i64 n ≡ true) ⊎ (is_u64 n ≡ true)
  IsCorrelatable (string s) = len s ≤ 256
  IsCorrelatable _ = ⊥

  pub is_valid_request_id_iff :
      (id : Value Number) → (is_valid_request_id j id ≡ true) ↔ IsCorrelatable id
  unfolding is_valid_request_id
  is_valid_request_id_iff null = ground arith
  is_valid_request_id_iff (boolean b) = ground arith
  is_valid_request_id_iff (number n) = ground arith
  is_valid_request_id_iff (string s) = ground arith
  is_valid_request_id_iff (array vs) = ground arith
  is_valid_request_id_iff (object fs) = ground arith

  -- What a request must be for its transaction `raw` to go to the relay under `id`.
  pub record IsBroadcast (request : Request Number) (id : Value Number) (raw : Str) : Type 0 where
    pub method : request.method ≡ broadcast_method
    pub identified :
        ((request.id ≡ none) × (id ≡ null)) ⊎ ((request.id ≡ some id) × IsCorrelatable id)
    pub held : HoldsRaw request.params raw
    pub payload : IsHexPayload raw

  abbrev pub AllCorrelatable : Option (Value Number) → Type 0
  AllCorrelatable none = Unit
  AllCorrelatable (some id) = IsCorrelatable id

  -- What a request must be to go to the upstream.
  pub record IsQuery (request : Request Number) (id : Option (Value Number)) : Type 0 where
    pub method : request.method ≢ broadcast_method
    pub same_id : request.id ≡ id
    pub correlatable : AllCorrelatable id

  pub checked_id-eq-ok :
      (id r : Option (Value Number)) → (checked_id j id ≡ ok r) ↔ ((id ≡ r) × AllCorrelatable r)
  unfolding checked_id
  checked_id-eq-ok none none = ground arith
  checked_id-eq-ok none (some v) = ground arith
  checked_id-eq-ok (some id) none = ground arith
  checked_id-eq-ok (some id) (some v) = (
    λ h. (
      ground arith,
      subst IsCorrelatable (ground arith) ((is_valid_request_id_iff id).0 (ground arith)),
    ),
    λ h. ground (arith, (is_valid_request_id_iff id).1 (subst IsCorrelatable (ground arith) h.1)),
  )

  classify_broadcast-eq-ok :
      (id id' : Value Number) (params : Option (Value Number)) (raw : Str)
      → (classify_broadcast j id params ≡ ok (broadcast id' raw))
        ↔ ((id ≡ id') × HoldsRaw params raw × IsHexPayload raw)
  unfolding classify_broadcast
  classify_broadcast-eq-ok id id' params raw = (
    λ h.
        let e : raw_param params ≡ some raw = ground arith in
        (
          ground arith,
          (raw_param_iff params raw).0 e,
          (is_hex_payload_iff raw).0 (ground (arith, e)),
        ),
    λ h. ground (arith, (raw_param_iff params raw).1 h.1, (is_hex_payload_iff raw).1 h.2),
  )

  classify_broadcast-ne-passthrough :
      (id : Value Number) (params : Option (Value Number)) (id' : Option (Value Number))
      → classify_broadcast j id params ≢ ok (passthrough id')
  unfolding classify_broadcast
  classify_broadcast-ne-passthrough id params id' h = ground arith

  -- The ID under which a broadcast is answered.
  abbrev Identified : Option (Value Number) → Value Number → Type 0
  Identified given id = ((given ≡ none) × (id ≡ null)) ⊎ ((given ≡ some id) × IsCorrelatable id)

  Identified-iff :
      (given i : Option (Value Number)) (id : Value Number)
      → given ≡ i
      → (AllCorrelatable i × (unwrap_or i null ≡ id)) ↔ (AllCorrelatable i × Identified given id)
  Identified-iff given none id e = ground arith
  Identified-iff given (some v) id e =
      (λ h. (h.0, inr (ground arith, subst IsCorrelatable h.1 h.0)), λ h. ground arith)

  Identified-AllCorrelatable :
      (given : Option (Value Number)) (id : Value Number)
      → Identified given id
      → AllCorrelatable given
  Identified-AllCorrelatable none id h = tt
  Identified-AllCorrelatable (some v) id (inl h) = cc
  Identified-AllCorrelatable (some v) id (inr h) = subst AllCorrelatable (sym h.0) h.1

  classify_request-broadcast_iff :
      (request : Request Number) (id : Value Number) (raw : Str)
      → (classify_request j request ≡ ok (broadcast id raw)) ↔ IsBroadcast request id raw
  unfolding classify_request
  classify_request-broadcast_iff request id raw = (to, from)
    where
      to : classify_request j request ≡ ok (broadcast id raw) → IsBroadcast request id raw
      to h = elim (Result-cases (checked_id j request.id)) [
        | inr (e, q) ↦ absurd (ground arith)
        | inl (i, q) ↦ elim (Bool-cases (str_eq request.method broadcast_method)) [
          | inr other ↦ absurd (ground arith)
          | inl same ↦
              let (given, fits) = (checked_id-eq-ok request.id i).0 q in
              let (e, held, payload) =
                (classify_broadcast-eq-ok (unwrap_or i null) id request.params raw).0
                  (ground arith) in
              record {
                method = (str_eq_iff _ _).0 same;
                identified = ((Identified-iff request.id i id given).0 (fits, e)).1;
                held = held;
                payload = payload;
              }
        ]
      ]

      from : IsBroadcast request id raw → classify_request j request ≡ ok (broadcast id raw)
      from h =
          let fits = Identified-AllCorrelatable request.id id h.identified in
          let e = ((Identified-iff request.id request.id id refl).1 (fits, h.identified)).1 in
          let q = (checked_id-eq-ok request.id request.id).1 (refl, fits) in
          let same = (str_eq_iff request.method broadcast_method).1 h.method in
          rw (q, same)
            ((classify_broadcast-eq-ok (unwrap_or request.id null) id request.params raw).1
              (e, h.held, h.payload))

  classify_request-passthrough_iff :
      (request : Request Number) (id : Option (Value Number))
      → (classify_request j request ≡ ok (passthrough id)) ↔ IsQuery request id
  unfolding classify_request
  classify_request-passthrough_iff request id = (to, from)
    where
      to : classify_request j request ≡ ok (passthrough id) → IsQuery request id
      to h = elim (Result-cases (checked_id j request.id)) [
        | inr (e, q) ↦ absurd (ground arith)
        | inl (i, q) ↦ elim (Bool-cases (str_eq request.method broadcast_method)) [
          | inl same ↦ absurd (
              classify_broadcast-ne-passthrough (unwrap_or i null) request.params id (ground arith))
          | inr other ↦
              let (given, fits) = (checked_id-eq-ok request.id i).0 q in
              let e : i ≡ id = ground arith in
              record {
                method = λ m. ground (arith, (str_eq_iff request.method broadcast_method).1 m);
                same_id = given ∙ e;
                correlatable = subst AllCorrelatable e fits;
              }
        ]
      ]

      from : IsQuery request id → classify_request j request ≡ ok (passthrough id)
      from h =
          let q = (checked_id-eq-ok request.id id).1 (h.same_id, h.correlatable) in
          elim (Bool-cases (str_eq request.method broadcast_method)) [
            | inl same ↦ absurd (h.method ((str_eq_iff _ _).0 same))
            | inr other ↦ rw (q, other)
          ]

  parsed_iff :
      (frame : Bytes) (out : ClientFrame Number)
      → (classify j frame ≡ ok out) ↔ (
          (request : Request Number) × (request_from_slice frame ≡ some request)
          × (classify_request j request ≡ ok out))
  unfolding classify
  parsed_iff frame out = (to, λ h. rw h.1 h.2)
    where
      to :
          classify j frame ≡ ok out
          → (request : Request Number) × (request_from_slice frame ≡ some request)
            × (classify_request j request ≡ ok out)
      to h = elim (Option-cases (request_from_slice frame)) [
        | inl e ↦ absurd (ground arith)
        | inr (request, e) ↦ (request, e, ground arith)
      ]

  -- A frame is classified as a broadcast of `raw` under `id` exactly when serde reads a request
  -- from it with the broadcast method, an absent ID (then `id` is null) or a correlatable one, and
  -- parameters that hold `raw`, a nonempty text of hexadecimal digits of even length.
  pub classify-broadcast_iff :
      (frame : Bytes) (id : Value Number) (raw : Str)
      → (classify j frame ≡ ok (broadcast id raw)) ↔ (
          (request : Request Number) × (request_from_slice frame ≡ some request)
          × IsBroadcast request id raw)
  classify-broadcast_iff frame id raw = (
    λ h.
        let (request, e, q) = (parsed_iff frame (broadcast id raw)).0 h in
        (request, e, (classify_request-broadcast_iff request id raw).0 q),
    λ h.
        (parsed_iff frame (broadcast id raw)).1
          (h.0, h.1, (classify_request-broadcast_iff h.0 id raw).1 h.2),
  )

  -- A frame is let through with `id` exactly when serde reads a request from it whose method is
  -- not the broadcast method and whose ID is `id`, absent or correlatable.
  pub classify-passthrough_iff :
      (frame : Bytes) (id : Option (Value Number))
      → (classify j frame ≡ ok (passthrough id)) ↔ (
          (request : Request Number) × (request_from_slice frame ≡ some request)
          × IsQuery request id)
  classify-passthrough_iff frame id = (
    λ h.
        let (request, e, q) = (parsed_iff frame (passthrough id)).0 h in
        (request, e, (classify_request-passthrough_iff request id).0 q),
    λ h.
        (parsed_iff frame (passthrough id)).1
          (h.0, h.1, (classify_request-passthrough_iff h.0 id).1 h.2),
  )
