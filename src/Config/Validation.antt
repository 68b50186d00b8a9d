-- ===== src/Config/Validation.antt =====
-- Which command lines src/config.rs accepts, and what holds of the configuration that it makes.
use electrum_private_relay.Prelude.{
  ℕ, ◌*◌, ◌^◌, ◌≤◌, ◌<◌, ◌≡◌, ◌≢◌, ◌↔◌, ◌⊎◌, inl, inr, refl, subst, true, false, Option, none, some,
  ok, err, Option-cases, Result-cases, arith,
}
use electrum_private_relay.Net.{is_loopback}
use electrum_private_relay.Endpoint.{Endpoint, same_target, could_target_listener}
use electrum_private_relay.Endpoint.Hosts.{IsValid, validate_iff}
use electrum_private_relay.Config.{
  Cli, Config, RelayMode, reject, socks_electrum, PendingRequestLimit, ConcurrentBroadcastLimit,
  pending_request_limit, concurrent_broadcast_limit, check_relay_endpoint, check_addresses,
  check_limits, check_socks_relay, check_mode, config_of, socks_endpoint, try_from, budget_overflow,
}

-- The addresses are usable: the listener is local unless a flag allows otherwise, every endpoint is
-- valid, and the upstream is not the listener.
pub record IsAddressed (cli : Cli) : Type 0 where
  pub listener_port : cli.listen.port ≢ 0
  pub local : (is_loopback cli.listen.ip ≡ true) ⊎ (cli.allow_non_loopback_listen ≡ true)
  pub upstream : IsValid cli.upstream
  pub no_loop : could_target_listener cli.upstream cli.listen ≡ false
  pub socks5_port : cli.socks5_proxy.port ≢ 0
  pub relay : (e : Endpoint) → cli.relay_endpoint ≡ some e → IsValid e

-- The limits are in their ranges, and the payload of all broadcasts within 128 MiB.
pub record IsBounded (cli : Cli) : Type 0 where
  pub connections : (1 ≤ cli.max_connections) × (cli.max_connections ≤ 16_384)
  pub broadcasts : (1 ≤ cli.max_concurrent_broadcasts) × (cli.max_concurrent_broadcasts ≤ 1_024)
  pub pending : (1 ≤ cli.max_pending_requests) × (cli.max_pending_requests ≤ 16_384)
  pub frame : (1_024 ≤ cli.max_frame_bytes) × (cli.max_frame_bytes ≤ 16_777_216)
  pub payload : cli.max_concurrent_broadcasts * cli.max_frame_bytes ≤ 134_217_728
  pub connect_timeout : cli.connect_timeout_seconds ≢ 0
  pub relay_timeout : cli.relay_timeout_seconds ≢ 0

-- The private relay is set apart from the upstream and from the listener.
pub record IsSeparate (cli : Cli) (relay : Endpoint) : Type 0 where
  pub configured : cli.relay_endpoint ≡ some relay
  pub not_upstream : same_target relay cli.upstream ≡ false
  pub no_relay_loop : could_target_listener relay cli.listen ≡ false
  pub no_socks5_loop : could_target_listener (socks_endpoint cli) cli.listen ≡ false

pub record IsAcceptable (cli : Cli) : Type 0 where
  pub addressed : IsAddressed cli
  pub bounded : IsBounded cli
  pub separate : cli.relay_mode ≡ socks_electrum → (relay : Endpoint) × IsSeparate cli relay

check_relay_endpoint_iff :
    (found : Option Endpoint)
    → (check_relay_endpoint found ≡ ok tt) ↔ ((e : Endpoint) → found ≡ some e → IsValid e)
unfolding check_relay_endpoint
check_relay_endpoint_iff none = (λ h e q. absurd (ground arith), λ h. refl)
check_relay_endpoint_iff (some r) = (
  λ h e q. subst IsValid (ground arith) ((validate_iff r).0 (ground arith)),
  λ h. ground (arith, (validate_iff r).1 (h r refl)),
)

check_addresses_iff : (cli : Cli) → (check_addresses cli ≡ ok tt) ↔ IsAddressed cli
unfolding check_addresses
check_addresses_iff cli = (
  λ h. record {
    listener_port = ground arith;
    local = ground arith;
    upstream = (validate_iff cli.upstream).0 (ground arith);
    no_loop = ground arith;
    socks5_port = ground arith;
    relay = (check_relay_endpoint_iff cli.relay_endpoint).0 (ground arith);
  },
  λ h. ground (
    arith,
    h.listener_port,
    h.local,
    (validate_iff cli.upstream).1 h.upstream,
    h.no_loop,
    h.socks5_port,
    (check_relay_endpoint_iff cli.relay_endpoint).1 h.relay,
  ),
)

abbrev Limits : Type 0
Limits = ConcurrentBroadcastLimit × PendingRequestLimit

abbrev limits_of : Cli → Limits
limits_of cli =
    (record { get = cli.max_concurrent_broadcasts }, record { get = cli.max_pending_requests })

check_limits_iff :
    (cli : Cli) (limits : Limits)
    → (check_limits cli ≡ ok limits) ↔ (IsBounded cli × (limits ≡ limits_of cli))
unfolding check_limits pending_request_limit concurrent_broadcast_limit
check_limits_iff cli limits = (
  λ h. (
    record {
      connections = ground arith;
      broadcasts = ground arith;
      pending = ground arith;
      frame = ground arith;
      payload = ground arith;
      connect_timeout = ground arith;
      relay_timeout = ground arith;
    },
    ground arith,
  ),
  λ h. ground (arith, h.0, h.1),
)

check_mode_iff :
    (cli : Cli) (mode : RelayMode)
    → (check_mode cli mode ≡ ok tt)
      ↔ (mode ≡ socks_electrum → (relay : Endpoint) × IsSeparate cli relay)
unfolding check_mode check_socks_relay
check_mode_iff cli reject = (λ h q. absurd (ground arith), λ h. refl)
check_mode_iff cli socks_electrum = (
  λ h _. elim (Option-cases cli.relay_endpoint) [
    | inl q ↦ absurd (ground arith)
    | inr (relay, q) ↦ (
      relay,
      record {
        configured = q;
        not_upstream = ground arith;
        no_relay_loop = ground arith;
        no_socks5_loop = ground arith;
      },
    )
  ],
  λ h.
      let (relay, s) = h refl in
      ground (arith, s.configured, s.not_upstream, s.no_relay_loop, s.no_socks5_loop),
)

-- A command line is accepted exactly when its addresses are usable, its limits are in range, and,
-- in the mode `socks-electrum`, its private relay is configured and set apart from the upstream and
-- the listener; the configuration then has the values of the command line.
pub try_from_iff :
    (cli : Cli) (config : Config)
    → (try_from cli ≡ ok config) ↔ (IsAcceptable cli × (config ≡ config_of cli (limits_of cli)))
unfolding try_from
try_from_iff cli config = (to, from)
  where
    to : try_from cli ≡ ok config → IsAcceptable cli × (config ≡ config_of cli (limits_of cli))
    to h = elim (Result-cases (check_limits cli)) [
      | inr (e, q) ↦ absurd (ground arith)
      | inl (limits, q) ↦
          let (bounded, same) = (check_limits_iff cli limits).0 q in
          (
            record {
              addressed = (check_addresses_iff cli).0 (ground arith);
              bounded = bounded;
              separate = (check_mode_iff cli cli.relay_mode).0 (ground arith);
            },
            ground (arith, same),
          )
    ]

    from : IsAcceptable cli × (config ≡ config_of cli (limits_of cli)) → try_from cli ≡ ok config
    from (h, e) = ground (
      arith,
      e,
      (check_addresses_iff cli).1 h.addressed,
      (check_limits_iff cli (limits_of cli)).1 (h.bounded, refl),
      (check_mode_iff cli cli.relay_mode).1 h.separate,
    )

check_addresses-ne-overflow : (cli : Cli) → check_addresses cli ≢ err budget_overflow
unfolding check_addresses check_relay_endpoint
check_addresses-ne-overflow cli h = ground arith

small_product : (a b : ℕ) → a ≤ 1_024 → b ≤ 16_777_216 → a * b < 2 ^ 64
small_product a b h k = omega (arith, scaled)
  where
    scaled : a * b ≤ 1_024 * b
    scaled = grind arith

check_limits-ne-overflow : (cli : Cli) → check_limits cli ≢ err budget_overflow
unfolding check_limits pending_request_limit concurrent_broadcast_limit
check_limits-ne-overflow cli h =
    ground (arith, small_product cli.max_concurrent_broadcasts cli.max_frame_bytes)

check_mode-ne-overflow : (cli : Cli) (mode : RelayMode) → check_mode cli mode ≢ err budget_overflow
unfolding check_mode check_socks_relay
check_mode-ne-overflow cli reject h = cc
check_mode-ne-overflow cli socks_electrum h = ground arith

-- The overflow error of the payload budget is never returned: the range checks before it keep the
-- product within 64 bits.
try_from-ne-overflow : (cli : Cli) → try_from cli ≢ err budget_overflow
unfolding try_from
try_from-ne-overflow cli h = ground (
  arith,
  check_addresses-ne-overflow cli,
  check_limits-ne-overflow cli,
  check_mode-ne-overflow cli cli.relay_mode,
)
