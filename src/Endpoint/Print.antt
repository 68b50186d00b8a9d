-- ===== src/Endpoint/Print.antt =====
-- `Display` of an endpoint of src/endpoint.rs.
pub mod Texts
pub mod RoundTrip
use electrum_private_relay.Prelude.{◌∷◌, ◌++◌, Str, contains_char, if◌then◌else◌, u16_to_string}
use electrum_private_relay.Endpoint.{Endpoint}

unfoldable pub to_string : Endpoint → Str
to_string e =
    if contains_char b':' e.host
    then b'[' ∷ (e.host ++ b']' ∷ b':' ∷ u16_to_string e.port)
    else e.host ++ b':' ∷ u16_to_string e.port
