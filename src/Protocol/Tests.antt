-- ===== src/Protocol/Tests.antt =====
-- `classify` at the frames of the sample, and its theorems at them.
use electrum_private_relay.Prelude.{◌≡◌, ◌↔◌, ◌⊎◌, refl, some, codes, bytes, str_eq, ok, err}
use electrum_private_relay.Wire.{Request}
use electrum_private_relay.Protocol.{
  broadcast, passthrough, invalid_request, invalid_params, classify, classify_request, checked_id,
  classify_broadcast, is_valid_request_id, is_hex_payload, raw_param,
}
use electrum_private_relay.Protocol.Classify.{
  IsBroadcast, IsQuery, classify-broadcast_iff, classify-passthrough_iff,
}
use electrum_private_relay.Protocol.Refusals.{IsMalformed, IsBadBroadcast, classify_refusals}
use electrum_private_relay.Samples.{sample, sample_request, frame, id_of, raw_sample, SampleNumber}

classifies : Unit {0}
unfolding classify classify_request checked_id classify_broadcast is_valid_request_id is_hex_payload
    raw_param sample_request str_eq bytes
classifies = tt

runs :
    (classify sample (frame (codes "query")) ≡ ok (passthrough (some (id_of 1))))
    × (classify sample (frame (codes "broadcast")) ≡ ok (broadcast (id_of 2) raw_sample))
    × (classify sample (frame (codes "bad")) ≡ err (invalid_params (id_of 3)))
    × (classify sample (codes "[]") ≡ err invalid_request)
unfolding classifies
runs = (refl, refl, refl, refl)

classify-broadcast_iff_example :
    (classify sample (frame (codes "broadcast")) ≡ ok (broadcast (id_of 2) raw_sample)) ↔ (
      (request : Request SampleNumber) × (sample_request (frame (codes "broadcast")) ≡ some request)
      × IsBroadcast sample request (id_of 2) raw_sample)
classify-broadcast_iff_example =
    classify-broadcast_iff sample (frame (codes "broadcast")) (id_of 2) raw_sample

classify-passthrough_iff_example :
    (classify sample (frame (codes "query")) ≡ ok (passthrough (some (id_of 1)))) ↔ (
      (request : Request SampleNumber) × (sample_request (frame (codes "query")) ≡ some request)
      × IsQuery sample request (some (id_of 1)))
classify-passthrough_iff_example =
    classify-passthrough_iff sample (frame (codes "query")) (some (id_of 1))

classify_refusals_example :
    ((invalid_params (id_of 3) ≡ invalid_request) × IsMalformed sample (frame (codes "bad")))
    ⊎ IsBadBroadcast sample (frame (codes "bad")) (invalid_params (id_of 3))
classify_refusals_example =
    classify_refusals sample (frame (codes "bad")) (invalid_params (id_of 3)) runs.2
