-- ===== src/Relay.antt =====
-- src/relay: what a relay answers (src/relay/mod.rs), and below it the four relays.
pub mod Reject
pub mod Limited
pub mod Draining
pub mod SocksElectrum
mod Tests
use electrum_private_relay.Prelude.{Bool, true, false, Result, Str}

pub data RelayErrorKind : Type 0 where
  disabled_kind failed_kind : RelayErrorKind

pub record RelayError : Type 0 where
  pub kind : RelayErrorKind

abbrev pub disabled : RelayError
disabled = record { kind = disabled_kind }

abbrev pub failed : RelayError
failed = record { kind = failed_kind }

-- The result of `BroadcastRelay::broadcast`: a transaction ID, or an error.
abbrev pub RelayResult : Type 0
RelayResult = Result RelayError Str

-- `error.kind() == RelayErrorKind::Disabled`
abbrev pub is_disabled : RelayError → Bool
is_disabled e = elim e.kind [ disabled_kind ↦ true | failed_kind ↦ false ]
