-- ===== src/Relay/Reject.antt =====
-- src/relay/reject.rs: the relay of the default mode.
use electrum_private_relay.Prelude.{Str, err}
use electrum_private_relay.Relay.{RelayResult, disabled}

pub record RejectRelay : Type 0 where

unfoldable pub broadcast : RejectRelay → Str → RelayResult
broadcast relay raw_transaction = err disabled
