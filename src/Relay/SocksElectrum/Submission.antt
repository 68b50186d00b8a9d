-- ===== src/Relay/SocksElectrum/Submission.antt =====
-- The submission of src/relay/socks_electrum.rs as a whole: exactly when it succeeds, and what it
-- can return.
use electrum_private_relay.Prelude.{
  ℕ, ◌≡◌, ◌↔◌, ◌⊎◌, inl, inr, refl, sym, ap, subst, Option, some, [], ◌∷◌, ◌++◌, map, Bytes, Str,
  length, All, to_lower, to_ascii_lowercase, Bool, ◌∙◌, ok_or, refuse_if, ◌>>=◌, Result, ok, err,
  Option-cases, Result-cases, bind-eq-ok, arith,
}
use electrum_private_relay.Wire.{SerdeJson, RelayResponse}
use electrum_private_relay.Protocol.Payload.{IsHexDigit}
use electrum_private_relay.Proxy.Framing.{Input, newline}
use electrum_private_relay.Relay.{RelayError, failed}
use electrum_private_relay.Relay.SocksElectrum.{
  SocksElectrumRelay, Network, Timed, done, in_time, checked_response, read_response,
  transaction_id, accepted, relay_request, exchange, broadcast,
}
use electrum_private_relay.Relay.SocksElectrum.Answers.{
  IsLowerHexDigit, IsTransactionId, IsAnswer, IsResponseLine, accepted_iff, read_response_iff,
  in_time_iff,
}

-- No error but the failed one.
record OnlyFailed {A : Type 0} (r : Result RelayError A) : Type 0 where
  only : (e : RelayError) → r ≡ err e → e ≡ failed

bind-OnlyFailed :
    {A B : Type 0} (r : Result RelayError A) (f : A → Result RelayError B)
    → OnlyFailed r
    → ((a : A) → OnlyFailed (f a))
    → OnlyFailed (r >>= f)
bind-OnlyFailed (ok a) f h k = k a
bind-OnlyFailed (err e) f h k = record { only = λ d q. ground (arith, h.only e refl) }

ok_or-OnlyFailed : {A : Type 0} (o : Option A) → OnlyFailed (ok_or o failed)
ok_or-OnlyFailed o = record { only = λ e q. ground arith }

refuse_if-OnlyFailed : (test : Bool) → OnlyFailed (refuse_if test failed)
refuse_if-OnlyFailed test = record { only = λ e q. ground arith }

in_time-OnlyFailed : {A : Type 0} (t : Timed A) → OnlyFailed (in_time t)
in_time-OnlyFailed t = record { only = λ e q. ground arith }

read_response-OnlyFailed : (input : Input) → OnlyFailed (read_response input)
unfolding read_response checked_response
read_response-OnlyFailed input = record { only = λ e q. ground arith }

accepted-OnlyFailed : {N : Type 0} (response : RelayResponse N) → OnlyFailed (accepted response)
unfolding accepted
accepted-OnlyFailed response = bind-OnlyFailed _ _ (refuse_if-OnlyFailed _) (λ u.
    bind-OnlyFailed _ _ (ok_or-OnlyFailed (transaction_id response.result))
      (λ c. record { only = λ e q. absurd (ground arith) }))

to_lower-IsLowerHexDigit : (c : ℕ) → IsHexDigit c → IsLowerHexDigit (to_lower c)
to_lower-IsLowerHexDigit c h = ground arith

lower_hex : (s : Str) → All IsHexDigit s → All IsLowerHexDigit (map to_lower s)
lower_hex [] h = tt
lower_hex (c ∷ s) h = (to_lower-IsLowerHexDigit c h.0, lower_hex s h.1)

length-to_lower : (s : Str) → length (map to_lower s) ≡ length s
length-to_lower [] = refl
length-to_lower (c ∷ s) = omega (arith, length-to_lower s)

lower-IsTransactionId :
    (s : Str)
    → IsTransactionId s
    → (length (to_ascii_lowercase s) ≡ 64) × All IsLowerHexDigit (to_ascii_lowercase s)
unfolding to_ascii_lowercase
lower-IsTransactionId s t = (length-to_lower s ∙ t.long, lower_hex s t.digits)

module _ (j : SerdeJson) (network : Network) (relay : SocksElectrumRelay) where
  open j use {Number, to_vec, response_from_slice}
  open network use {Stream, connect, write_all, respond}

  -- The network does its part: the proxy connects to the relay's endpoint, the request for `raw` is
  -- written as one line, and the relay sends the line `response`, all in time.
  pub record IsDelivered (raw : Str) (response : Bytes) : Type 0 where
    pub stream : Stream
    pub connected :
        connect relay.timeout relay.socks5_proxy (relay.endpoint.host, relay.endpoint.port)
        ≡ done stream
    pub request : Bytes
    pub printed : to_vec (relay_request raw) ≡ some request
    pub sent : Stream
    pub written : write_all relay.timeout (request ++ newline ∷ []) stream ≡ done sent
    pub input : Input
    pub answered : respond relay.timeout sent ≡ done input
    pub received : IsResponseLine input response

  exchange_iff :
      (raw : Str) (response : Bytes)
      → (exchange j network relay raw ≡ ok response) ↔ IsDelivered raw response
  unfolding exchange
  exchange_iff raw response = (to, from)
    where
      to : exchange j network relay raw ≡ ok response → IsDelivered raw response
      to h =
          let (stream, q, h) = bind-eq-ok _ _ response h in
          let (request, p, h) =
            bind-eq-ok (ok_or (to_vec (relay_request raw)) failed) _ response h in
          let (sent, w, h) =
            bind-eq-ok (in_time (write_all relay.timeout (request ++ newline ∷ []) stream)) _
              response h in
          let (input, a, h) =
            bind-eq-ok (in_time (respond relay.timeout sent)) read_response response h in
          record {
            stream = stream;
            connected = (in_time_iff _ stream).0 q;
            request = request;
            printed = ground arith;
            sent = sent;
            written = (in_time_iff _ sent).0 w;
            input = input;
            answered = (in_time_iff _ input).0 a;
            received = (read_response_iff input response).0 h;
          }

      from : IsDelivered raw response → exchange j network relay raw ≡ ok response
      from h =
          rw (h.connected, h.printed, h.written, h.answered)
            ((read_response_iff h.input response).1 h.received)

  exchange-OnlyFailed : (raw : Str) → OnlyFailed (exchange j network relay raw)
  unfolding exchange
  exchange-OnlyFailed raw = bind-OnlyFailed _ _ (in_time-OnlyFailed _) (λ stream.
      bind-OnlyFailed _ _ (ok_or-OnlyFailed (to_vec (relay_request raw))) (λ request.
        bind-OnlyFailed {A = Stream} _ _
          (in_time-OnlyFailed (write_all relay.timeout (request ++ newline ∷ []) stream))
          (λ sent.
            bind-OnlyFailed _ _ (in_time-OnlyFailed (respond relay.timeout sent))
              read_response-OnlyFailed)))

  broadcast-OnlyFailed : (raw : Str) → OnlyFailed (broadcast j network relay raw)
  unfolding broadcast
  broadcast-OnlyFailed raw = bind-OnlyFailed _ _ (exchange-OnlyFailed raw) (λ line.
      bind-OnlyFailed _ _ (ok_or-OnlyFailed (response_from_slice line)) accepted-OnlyFailed)

  -- A submission succeeds with `id` exactly when the network delivers the request and one line of
  -- at most 64 KiB as its answer, serde reads a response from that line, and the response has the
  -- relay's request ID, no error and a result of 64 hexadecimal digits, which are `id` in lower
  -- case.
  pub broadcast_iff :
      (raw id : Str)
      → (broadcast j network relay raw ≡ ok id) ↔ (
          (line : Bytes) × (response : RelayResponse Number) × IsDelivered raw line
          × (response_from_slice line ≡ some response)
          × IsAnswer response id)
  unfolding broadcast
  broadcast_iff raw id = (to, from)
    where
      to :
          broadcast j network relay raw ≡ ok id
          → (line : Bytes) × (response : RelayResponse Number) × IsDelivered raw line
            × (response_from_slice line ≡ some response)
            × IsAnswer response id
      to h = elim (Result-cases (exchange j network relay raw)) [
        | inr (e, q) ↦ absurd (ground arith)
        | inl (line, q) ↦ elim (Option-cases (response_from_slice line)) [
          | inl p ↦ absurd (ground arith)
          | inr (response, p) ↦ (
            line,
            response,
            (exchange_iff raw line).0 q,
            p,
            (accepted_iff response id).0 (ground arith),
          )
        ]
      ]

      from :
          (line : Bytes) × (response : RelayResponse Number) × IsDelivered raw line
            × (response_from_slice line ≡ some response)
            × IsAnswer response id
          → broadcast j network relay raw ≡ ok id
      from (line, response, delivered, p, answer) =
          rw ((exchange_iff raw line).1 delivered, p) ((accepted_iff response id).1 answer)

  -- Whatever the proxy, the relay and the network do, a submission returns 64 lower-case
  -- hexadecimal digits or the failed error, and never the disabled error.
  pub broadcast_outcomes :
      (raw : Str)
      → ((id : Str) × (broadcast j network relay raw ≡ ok id)
          × (length id ≡ 64)
          × All IsLowerHexDigit id)
        ⊎ (broadcast j network relay raw ≡ err failed)
  broadcast_outcomes raw = elim (Result-cases (broadcast j network relay raw)) [
    | inr (e, q) ↦ inr (q ∙ ap err ((broadcast-OnlyFailed raw).only e q))
    | inl (id, q) ↦
        let (line, response, delivered, p, a) = (broadcast_iff raw id).0 q in
        let (long, hex) = lower-IsTransactionId a.candidate a.transaction in
        inl (id, q, ap length a.lower ∙ long, subst (All IsLowerHexDigit) (sym a.lower) hex)
  ]
