-- ===== src/Wire.antt =====
-- The JSON values of serde_json that the program builds and reads, the three structures that it
-- derives deserializers for, and serde_json itself as a parameter: `Request` is that of
-- src/protocol.rs, `UpstreamEnvelope` that of src/proxy.rs and `RelayResponse` that of
-- src/relay/socks_electrum.rs.
use electrum_private_relay.Prelude.{ℕ, zero, suc, Bool, Option, none, some, Bytes, Str}

-- An `i64` literal; `negsuc n` is -(n + 1).
pub data ℤ : Type 0 where
  pos : ℕ → ℤ
  negsuc : ℕ → ℤ

abbrev pub neg : ℕ → ℤ
neg zero = pos 0
neg (suc n) = negsuc n

-- `serde_json::Value`, over its opaque `Number`.
mutual
  pub data Value (N : Type 0) : Type 0 where
    null : Value N
    boolean : Bool → Value N
    number : N → Value N
    string : Str → Value N
    array : Items N → Value N
    object : Fields N → Value N

  pub data Items (N : Type 0) : Type 0 where
    nil : Items N
    cons : Value N → Items N → Items N

  pub data Fields (N : Type 0) : Type 0 where
    end : Fields N
    field : Str → Value N → Fields N → Fields N

-- `Value::as_str`
abbrev pub as_str : {N : Type 0} → Value N → Option Str
as_str (string s) = some s
as_str _ = none

pub record Request (N : Type 0) : Type 0 where
  pub id : Option (Value N)
  pub method : Str
  pub params : Option (Value N)

pub record UpstreamEnvelope (N : Type 0) : Type 0 where
  pub id : Option (Value N)
  pub method : Option Str

pub record RelayResponse (N : Type 0) : Type 0 where
  pub id : Value N
  pub result : Option (Value N)
  pub error : Option (Value N)

-- serde_json and the code that serde derives. `none` is a serialization or parse error.
pub record SerdeJson : Type 1 where
  pub Number : Type 0
  pub is_i64 : Number → Bool
  pub is_u64 : Number → Bool
  pub from_i64 : ℤ → Number
  pub to_vec : Value Number → Option Bytes
  pub to_string : Value Number → Option Str
  pub request_from_slice : Bytes → Option (Request Number)
  pub envelope_from_slice : Bytes → Option (UpstreamEnvelope Number)
  pub response_from_slice : Bytes → Option (RelayResponse Number)
