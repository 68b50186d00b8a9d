-- ===== src/Samples.antt =====
-- A small instance of serde_json for the examples: it knows the frames `query`,
-- `broadcast` and `bad` by their text, and prints an integer ID as one character or two.
use electrum_private_relay.Prelude.{
  ℕ, ◌+◌, Bool, true, false, Option, none, some, [], ◌∷◌, ◌++◌, Bytes, Str, codes, str_eq,
  if◌then◌else◌,
}
use electrum_private_relay.Wire.{
  SerdeJson, Value, number, string, array, nil, cons, Request, UpstreamEnvelope, ℤ, pos, negsuc,
}
use electrum_private_relay.Protocol.{broadcast_method}

pub data SampleNumber : Type 0 where
  integer : ℤ → SampleNumber
  float : ℕ → SampleNumber

abbrev pub is_integer : SampleNumber → Bool
is_integer (integer z) = true
is_integer (float f) = false

abbrev pub frame : Str → Bytes
frame text = text ++ b'\n' ∷ []

abbrev pub id_of : ℕ → Value SampleNumber
id_of n = number (integer (pos n))

abbrev pub raw_sample : Str
raw_sample = codes "00aa"

abbrev pub query_request : Request SampleNumber
query_request = record {
  id = some (id_of 1);
  method = codes "server.version";
  params = some (array nil);
}

abbrev pub broadcast_request : Request SampleNumber
broadcast_request = record {
  id = some (id_of 2);
  method = broadcast_method;
  params = some (array (cons (string raw_sample) nil));
}

abbrev pub bad_request : Request SampleNumber
bad_request = record {
  id = some (id_of 3);
  method = broadcast_method;
  params = some (array (cons (string (codes "not-hex")) nil));
}

abbrev pub envelope_of : ℕ → UpstreamEnvelope SampleNumber
envelope_of n = record { id = some (id_of n); method = none }

unfoldable pub sample_request : Bytes → Option (Request SampleNumber)
unfolding str_eq
sample_request bytes =
    if str_eq bytes (frame (codes "query"))
    then some query_request
    else if str_eq bytes (frame (codes "broadcast"))
    then some broadcast_request
    else if str_eq bytes (frame (codes "bad"))
    then some bad_request
    else none

unfoldable pub sample_to_string : Value SampleNumber → Option Str
sample_to_string (number (integer (pos n))) = some ((b'0' + n) ∷ [])
sample_to_string (number (integer (negsuc n))) = some (b'-' ∷ (b'1' + n) ∷ [])
sample_to_string (number (float f)) = some (b'.' ∷ f ∷ [])
sample_to_string (string s) = some (b'"' ∷ s)
sample_to_string _ = some (codes "value")

abbrev pub sample : SerdeJson
sample = record {
  Number = SampleNumber;
  is_i64 = is_integer;
  is_u64 = is_integer;
  from_i64 = integer;
  to_vec = λ v. some (codes "answer");
  to_string = sample_to_string;
  request_from_slice = sample_request;
  envelope_from_slice = λ b. some (envelope_of 1);
  response_from_slice = λ b. none;
}
