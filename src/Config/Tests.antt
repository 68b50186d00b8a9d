-- ===== src/Config/Tests.antt =====
-- The theorems of the configuration at the sample command lines.
use electrum_private_relay.Prelude.{◌≡◌, ◌↔◌, refl, true, some, codes, ok, err, is_ok}
use electrum_private_relay.Net.{v4}
use electrum_private_relay.Endpoint.{Endpoint}
use electrum_private_relay.Config.{
  budget_exceeded, relay_is_upstream, non_loopback_listener, try_from,
}
use electrum_private_relay.Config.Validation.{IsAcceptable, try_from_iff}
use electrum_private_relay.Config.Samples.{validates, cli, socks, socks_config}

verdicts :
    (is_ok (try_from cli) ≡ true)
    × (try_from (record cli { listen = record { ip = v4 0 0 0 0; port = 50_003 } })
        ≡ err non_loopback_listener)
    × (try_from (record cli { max_concurrent_broadcasts = 65 }) ≡ err budget_exceeded)
    × (try_from (record socks {
      relay_endpoint = some (record { host = codes "localhost"; port = 50_001 });
    })
        ≡ err relay_is_upstream)
unfolding validates
verdicts = (refl, refl, refl, refl)

try_from_iff_example :
    (try_from socks ≡ ok socks_config) ↔ (IsAcceptable socks × (socks_config ≡ socks_config))
try_from_iff_example = try_from_iff socks socks_config
