-- ===== src/Relay/SocksElectrum/Tests.antt =====
-- A submission that a relay acknowledges, over a network that works.
use electrum_private_relay.Prelude.{
  ◌≡◌, ◌↔◌, refl, Option, none, some, [], ◌∷◌, ◌++◌, Bytes, Str, codes, bytes, str_eq,
  to_ascii_lowercase, ok, err,
}
use electrum_private_relay.Wire.{SerdeJson, string, RelayResponse}
use electrum_private_relay.Samples.{SampleNumber, sample, raw_sample}
use electrum_private_relay.Net.{v4}
use electrum_private_relay.Proxy.Framing.{closed, newline, read_until, ends_with_newline}
use electrum_private_relay.Relay.{failed}
use electrum_private_relay.Relay.SocksElectrum.{
  relay_request_id, SocksElectrumRelay, Network, done, elapsed, checked_response, read_response,
  is_transaction_id, transaction_id, is_relay_id, accepted, exchange, broadcast,
}
use electrum_private_relay.Relay.SocksElectrum.Answers.{IsAnswer}
use electrum_private_relay.Relay.SocksElectrum.Submission.{IsDelivered, broadcast_iff}

abbrev acknowledged : RelayResponse SampleNumber
acknowledged = record {
  id = string relay_request_id;
  result = some (string (codes "00112233445566778899AABBCCDDEEFF00112233445566778899aabbccddeeff"));
  error = none;
}

abbrev own_id : Str
own_id = codes "00112233445566778899aabbccddeeff00112233445566778899aabbccddeeff"

abbrev acknowledging : SerdeJson
acknowledging = record sample { response_from_slice = λ b. some acknowledged }

abbrev network : Network
network = record {
  Stream = Unit;
  connect = λ limit proxy target. done tt;
  write_all = λ limit bytes stream. done tt;
  respond =
      λ limit stream. done (record { unread = codes "answer" ++ newline ∷ []; ending = closed });
}

abbrev silent : Network
silent = record network { respond = λ limit stream. elapsed }

abbrev relay : SocksElectrumRelay
relay = record {
  socks5_proxy = record { ip = v4 127 0 0 1; port = 9_050 };
  endpoint = record { host = codes "relay.example"; port = 50_001 };
  timeout = 30;
}

submissions :
    (broadcast acknowledging network relay raw_sample ≡ ok own_id)
    × (broadcast acknowledging silent relay raw_sample ≡ err failed)
    × (broadcast sample network relay raw_sample ≡ err failed)
unfolding broadcast exchange read_response checked_response accepted transaction_id
    is_transaction_id is_relay_id read_until ends_with_newline str_eq bytes to_ascii_lowercase
submissions = (refl, refl, refl)

broadcast_iff_example : (broadcast acknowledging network relay raw_sample ≡ ok own_id) ↔ (
    (line : Bytes) × (response : RelayResponse SampleNumber) × IsDelivered acknowledging network
      relay raw_sample line
    × (Path (Option (RelayResponse SampleNumber)) (some acknowledged) (some response))
    × IsAnswer response own_id)
broadcast_iff_example = broadcast_iff acknowledging network relay raw_sample own_id
