-- ===== src/Endpoint/Targets.antt =====
-- The two guards of src/endpoint.rs against an independent description: the target that an endpoint
-- names.
use electrum_private_relay.Prelude.{
  ◌≡◌, ◌↔◌, inl, inr, sym, ◌∙◌, ap, Bool, true, false, ◌&&◌, ◌||◌, Option, none, some, [], ◌∷◌, Str,
  to_ascii_lowercase, str_eq, str_eq_iff, eq_ignore_ascii_case, ◌==◌, if◌then◌else◌, Bool-cases,
  arith,
}
use electrum_private_relay.Net.{
  IpAddr, v4, v6, SocketAddr, is_loopback, is_unspecified, ip_eq, parse_ip,
}
use electrum_private_relay.Net.Names.{parse_ip-localhost}
use electrum_private_relay.Endpoint.{
  Endpoint, localhost, is_localhost, normalized_host, same_host, same_target, ip_could_target,
  could_target_listener,
}

-- This machine, another address, or a DNS name in lower case.
pub data Target : Type 0 where
  here : Target
  address : IpAddr → Target
  name : Str → Target

abbrev target_of : Str → Option IpAddr → Target
target_of host (some ip) = if is_loopback ip then here else address ip
target_of host none = if is_localhost host then here else name (to_ascii_lowercase host)

-- The target of a host without its final dots.
pub target : Endpoint → Target
target e = target_of (normalized_host e) (parse_ip (normalized_host e))

ip_eq_iff : (a b : IpAddr) → (ip_eq a b ≡ true) ↔ (a ≡ b)
unfolding ip_eq str_eq
ip_eq_iff (v4 a b c d) (v4 a' b' c' d') = ground arith
ip_eq_iff (v4 a b c d) (v6 t) = ground arith
ip_eq_iff (v6 s) (v4 a b c d) = ground arith
ip_eq_iff (v6 s) (v6 t) = ground (arith, str_eq_iff s t)

eq_ignore_ascii_case_iff :
    (s t : Str) → (eq_ignore_ascii_case s t ≡ true) ↔ (to_ascii_lowercase s ≡ to_ascii_lowercase t)
unfolding eq_ignore_ascii_case to_ascii_lowercase
eq_ignore_ascii_case_iff [] [] = ground arith
eq_ignore_ascii_case_iff [] (d ∷ t) = ground arith
eq_ignore_ascii_case_iff (c ∷ s) [] = ground arith
eq_ignore_ascii_case_iff (c ∷ s) (d ∷ t) = (
  λ h. ground (arith, (eq_ignore_ascii_case_iff s t).0),
  λ h. ground (arith, (eq_ignore_ascii_case_iff s t).1),
)

is_localhost_lower : (s : Str) → (is_localhost s ≡ true) ↔ (to_ascii_lowercase s ≡ localhost)
unfolding is_localhost to_ascii_lowercase
is_localhost_lower s = (
  λ h. (eq_ignore_ascii_case_iff s localhost).0 h,
  λ h. (eq_ignore_ascii_case_iff s localhost).1 h,
)

same_host_iff :
    (s t : Str) (a b : Option IpAddr) → (same_host s t a b ≡ true) ↔ (target_of s a ≡ target_of t b)
unfolding same_host
same_host_iff s t (some a) (some b) = (
  λ h. ground (arith, (ip_eq_iff a b).0, λ (e : a ≡ b). ap is_loopback e),
  λ h. ground (arith, (ip_eq_iff a b).1),
)
same_host_iff s t (some a) none = ground arith
same_host_iff s t none (some b) = ground arith
same_host_iff s t none none = (
  λ h.
      let e = (eq_ignore_ascii_case_iff s t).0 h in
      elim (Bool-cases (is_localhost s)) [
        | inl here_ ↦
            ground (arith, (is_localhost_lower t).1 (sym e ∙ (is_localhost_lower s).0 here_))
        | inr other ↦ elim (Bool-cases (is_localhost t)) [
          | inl here_ ↦
              ground (arith, (is_localhost_lower s).1 (e ∙ (is_localhost_lower t).0 here_))
          | inr other' ↦ ground (arith, e)
        ]
      ],
  λ h. (eq_ignore_ascii_case_iff s t).1 (elim (Bool-cases (is_localhost s)) [
    | inl here_ ↦ elim (Bool-cases (is_localhost t)) [
      | inl here' ↦ (is_localhost_lower s).0 here_ ∙ sym ((is_localhost_lower t).0 here')
      | inr other ↦ absurd (ground arith)
    ]
    | inr other ↦ ground arith
  ]),
)

-- `same_target` holds exactly of endpoints with the same port and the same target: this machine
-- (every spelling of `localhost` and every loopback address), an address, or a DNS name without
-- regard to case and final dots.
pub same_target_iff :
    (e f : Endpoint) → (same_target e f ≡ true) ↔ ((e.port ≡ f.port) × (target e ≡ target f))
unfolding same_target target
same_target_iff e f =
    let hosts =
      same_host_iff (normalized_host e) (normalized_host f) (parse_ip (normalized_host e))
        (parse_ip (normalized_host f)) in
    (λ h. (ground arith, hosts.0 (ground arith)), λ h. ground (arith, h.0, hosts.1 h.1))

-- Whether a connection to a target reaches a listener.
pub reaches : Target → IpAddr → Bool
reaches here listener = is_loopback listener || is_unspecified listener
reaches (address ip) listener =
    ip_eq ip listener || is_unspecified ip && (is_loopback listener || is_unspecified listener)
reaches (name host) listener = false

ip_could_target-reaches :
    (host : Str) (found : Option IpAddr) (listener : IpAddr)
    → is_localhost host ≡ false
    → ip_could_target found listener ≡ reaches (target_of host found) listener
unfolding ip_could_target reaches
ip_could_target-reaches host none listener h = ground arith
ip_could_target-reaches host (some ip) listener h =
    ground (arith, λ (q : ip_eq ip listener ≡ true). ap is_loopback ((ip_eq_iff ip listener).0 q))

is_localhost-ip : (host : Str) → is_localhost host ≡ true → parse_ip host ≡ none
unfolding is_localhost
is_localhost-ip host h = parse_ip-localhost host h

-- The loop guard depends on the port and the target alone: it refuses this machine for a listener
-- on a loopback or unspecified address, an address for a listener on that address, the
-- unspecified address for both kinds of local listener, and no DNS name.
pub could_target_listener_iff :
    (e : Endpoint) (listener : SocketAddr)
    → could_target_listener e listener
      ≡ ((e.port == listener.port) && reaches (target e) listener.ip)
unfolding could_target_listener target reaches
could_target_listener_iff e listener = elim (Bool-cases (is_localhost (normalized_host e))) [
  | inl local ↦ ground (arith, local, is_localhost-ip (normalized_host e) local)
  | inr other ↦ ground (
    arith,
    other,
    ip_could_target-reaches (normalized_host e) (parse_ip (normalized_host e)) listener.ip other,
  )
]
