-- ===== src/Main.antt =====
-- src/main.rs: what `run` does with a command line, and the relay stack that it builds: the inner
-- relay of the mode, in the limiter, in the draining relay.
pub mod Stack
pub mod Process
pub mod Runs
pub mod Guarantees
mod Tests
use electrum_private_relay.Prelude.{
  Bool, true, false, Option, none, some, Str, if◌then◌else◌, Result, ok, err, ◌>>=◌,
}
use electrum_private_relay.Wire.{SerdeJson}
use electrum_private_relay.Tokio.{Semaphore}
use electrum_private_relay.Endpoint.{Endpoint}
use electrum_private_relay.Config.{
  Cli, Config, ConfigError, RelayMode, reject, socks_electrum,
  max_configurable_in_flight_broadcast_bytes, try_from,
}
use electrum_private_relay.Relay.{RelayResult}
use electrum_private_relay.Relay.Reject.{RejectRelay}
use electrum_private_relay.Relay.Reject
use electrum_private_relay.Relay.SocksElectrum.{SocksElectrumRelay, Network}
use electrum_private_relay.Relay.SocksElectrum
use electrum_private_relay.Relay.Limited.{Limiter, LimitedRelay, start, admit}
use electrum_private_relay.Relay.Draining.{DrainState, enter}

-- The relay that the mode selects.
pub data InnerRelay : Type 0 where
  reject_relay : RejectRelay → InnerRelay
  socks_relay : SocksElectrumRelay → InnerRelay

-- How `run` goes: an error, the message of `--check-config`, a failed `expect`, or `serve_until`
-- with a configuration and the inner relay.
pub data Run : Type 0 where
  config_error : ConfigError → Run
  configuration_valid : Run
  panicked : Run
  serving : Config → InnerRelay → Run

unfoldable pub socks_electrum_relay : Config → Option Endpoint → Run
socks_electrum_relay config none = panicked
socks_electrum_relay config (some endpoint) = serving config (
    socks_relay (record {
      socks5_proxy = config.socks5_proxy;
      endpoint = endpoint;
      timeout = config.relay_timeout;
    }))

-- The `match config.relay_mode`.
unfoldable pub select_relay : Config → RelayMode → Run
select_relay config reject = serving config (reject_relay (record {}))
select_relay config socks_electrum = socks_electrum_relay config config.relay_endpoint

unfoldable pub run_config : Bool → Result ConfigError Config → Run
run_config check_config (err error) = config_error error
run_config check_config (ok config) =
    if check_config then configuration_valid else select_relay config config.relay_mode

unfoldable pub run : Cli → Run
run cli = run_config cli.check_config (try_from cli)

-- `LimitedRelay::new(relay, config.max_concurrent_broadcasts)`
unfoldable pub limiter : (semaphore : Semaphore) → Config → Limiter semaphore
limiter semaphore config =
    start semaphore config.max_concurrent_broadcasts.get max_configurable_in_flight_broadcast_bytes

module _ (j : SerdeJson) (network : Network) where
  unfoldable pub inner_broadcast : InnerRelay → Str → RelayResult
  inner_broadcast (reject_relay relay) raw_transaction = Reject.broadcast relay raw_transaction
  inner_broadcast (socks_relay relay) raw_transaction =
      SocksElectrum.broadcast j network relay raw_transaction

  -- `broadcast` of the stack, by the states that the draining relay and the limiter are in when it
  -- reaches them.
  unfoldable pub broadcast :
      (semaphore : Semaphore) → DrainState → LimitedRelay semaphore → InnerRelay → Str → RelayResult
  broadcast semaphore drain limited inner raw_transaction = do
    entered ← enter drain
    admitted ← (admit semaphore raw_transaction limited).0
    inner_broadcast inner raw_transaction
