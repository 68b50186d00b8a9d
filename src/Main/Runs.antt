-- ===== src/Main/Runs.antt =====
-- How `run` of src/main.rs goes, for every command line.
use electrum_private_relay.Prelude.{
  ◌≡◌, refl, ◌∙◌, ap, subst, Bool, true, false, Option, none, some, Result, ok, err, arith,
}
use electrum_private_relay.Endpoint.{Endpoint}
use electrum_private_relay.Config.{
  Cli, Config, ConfigError, RelayMode, reject, socks_electrum, try_from,
}
use electrum_private_relay.Config.Validation.{try_from_iff}
use electrum_private_relay.Main.{
  InnerRelay, reject_relay, socks_relay, Run, config_error, configuration_valid, serving,
  socks_electrum_relay, select_relay, run_config, run,
}

-- The inner relay is that of the mode; the relay of the mode `socks-electrum` has the endpoint, the
-- proxy and the timeout of the configuration.
pub data IsSelected (config : Config) : InnerRelay → Type 0 where
  rejecting : config.relay_mode ≡ reject → IsSelected config (reject_relay (record {}))
  submitting :
      (endpoint : Endpoint)
      → config.relay_mode ≡ socks_electrum
      → config.relay_endpoint ≡ some endpoint
      → IsSelected config (
          socks_relay (record {
            socks5_proxy = config.socks5_proxy;
            endpoint = endpoint;
            timeout = config.relay_timeout;
          }))

-- What `run` comes to.
pub data IsRun (cli : Cli) : Run → Type 0 where
  fails : (e : ConfigError) → try_from cli ≡ err e → IsRun cli (config_error e)
  checks :
      (config : Config)
      → try_from cli ≡ ok config
      → cli.check_config ≡ true
      → IsRun cli configuration_valid
  serves :
      (config : Config) (inner : InnerRelay)
      → try_from cli ≡ ok config
      → cli.check_config ≡ false
      → IsSelected config inner
      → IsRun cli (serving config inner)

socks_electrum_relay-IsRun :
    (cli : Cli) (config : Config) (found : Option Endpoint)
    → try_from cli ≡ ok config
    → cli.check_config ≡ false
    → config.relay_mode ≡ socks_electrum
    → config.relay_endpoint ≡ found
    → IsRun cli (socks_electrum_relay config found)
unfolding socks_electrum_relay
socks_electrum_relay-IsRun cli config none h checked m e =
    let (acceptable, same) = (try_from_iff cli config).0 h in
    let (endpoint, separate) = acceptable.separate (ground (arith, same)) in
    absurd (ground (arith, same, separate.configured))
socks_electrum_relay-IsRun cli config (some endpoint) h checked m e =
    serves config _ h checked (submitting endpoint m e)

select_relay-IsRun :
    (cli : Cli) (config : Config) (mode : RelayMode)
    → try_from cli ≡ ok config
    → cli.check_config ≡ false
    → config.relay_mode ≡ mode
    → IsRun cli (select_relay config mode)
unfolding select_relay
select_relay-IsRun cli config reject h checked m = serves config _ h checked (rejecting m)
select_relay-IsRun cli config socks_electrum h checked m =
    socks_electrum_relay-IsRun cli config config.relay_endpoint h checked m refl

run_config-IsRun :
    (cli : Cli) (check_config : Bool) (result : Result ConfigError Config)
    → cli.check_config ≡ check_config
    → try_from cli ≡ result
    → IsRun cli (run_config check_config result)
unfolding run_config
run_config-IsRun cli check_config (err e) b q = fails e q
run_config-IsRun cli true (ok config) b q = checks config q b
run_config-IsRun cli false (ok config) b q =
    select_relay-IsRun cli config config.relay_mode q b refl

-- `run` returns the error of the configuration, stops after the check if it was asked for, or serves
-- with the relay of the mode; the `expect` on the relay's endpoint never fails.
pub run-IsRun : (cli : Cli) → IsRun cli (run cli)
unfolding run
run-IsRun cli = run_config-IsRun cli cli.check_config (try_from cli) refl refl

pub serving-IsSelected :
    (cli : Cli) (config : Config) (inner : InnerRelay) (r : Run)
    → IsRun cli r
    → r ≡ serving config inner
    → (try_from cli ≡ ok config) × IsSelected config inner
serving-IsSelected cli config inner r (fails e q) p = absurd cc
serving-IsSelected cli config inner r (checks c q b) p = absurd cc
serving-IsSelected cli config inner r (serves c i q b selected) p =
    (q ∙ ap ok (ground arith), subst (λ (c, i). IsSelected c i) (ground arith) selected)
