-- ===== src/Endpoint/Hosts.antt =====
-- Which endpoints src/endpoint.rs accepts.
use electrum_private_relay.Prelude.{
  ℕ, ◌≤◌, ◌<◌, ◌≡◌, ◌≢◌, ◌↔◌, ◌⊎◌, inl, inr, refl, Bool, true, false, ◌||◌, some, List, [], ◌∷◌,
  Str, codes, len, length, All, is_empty, all, any, all-bytes, len_of_ascii, ltb, ◌==◌,
  Option-cases, ok, starts_with, contains, contains_char, first_is, last_is, split, is_whitespace,
  is_ascii_alphanumeric, arith,
}
use electrum_private_relay.Net.{IpAddr, parse_ip}
use electrum_private_relay.Endpoint.{
  Endpoint, has_forbidden_endpoint_syntax, is_bad_label, dns_name, validate_dns, validate_host,
  validate,
}

-- A letter, a digit or a hyphen.
abbrev pub IsLabelChar : ℕ → Type 0
IsLabelChar c =
    ((b'0' ≤ c) × (c ≤ b'9')) ⊎ ((b'a' ≤ c) × (c ≤ b'z')) ⊎ ((b'A' ≤ c) × (c ≤ b'Z')) ⊎ (c ≡ b'-')

pub record IsDnsLabel (label : Str) : Type 0 where
  pub nonempty : label ≢ []
  pub short : length label ≤ 63
  pub first : first_is b'-' label ≡ false
  pub last : last_is b'-' label ≡ false
  pub chars : All IsLabelChar label

-- No URL, user, path, query or fragment.
abbrev pub IsPlainChar : ℕ → Type 0
IsPlainChar c = (c ≢ b'@') × (c ≢ b'/') × (c ≢ b'?') × (c ≢ b'#')

pub record IsDnsHost (host : Str) : Type 0 where
  pub ascii : All (λ c. c < 0x80) host
  pub no_colon : All (λ c. c ≢ b':') host
  pub nonempty : dns_name host ≢ []
  pub short : len (dns_name host) ≤ 253
  pub labels : All IsDnsLabel (split b'.' (dns_name host))

pub record IsValid (e : Endpoint) : Type 0 where
  pub port : e.port ≢ 0
  pub nonempty : e.host ≢ []
  pub no_space : All (λ c. is_whitespace c ≡ false) e.host
  pub plain : All IsPlainChar e.host
  pub addressed : ((ip : IpAddr) × (parse_ip e.host ≡ some ip)) ⊎ IsDnsHost e.host

any_iff :
    {A : Type 0} (p : A → Bool) (P : A → Type 0) (s : List A)
    → ((c : A) → (p c ≡ false) ↔ P c)
    → (any p s ≡ false) ↔ All P s
any_iff p P [] h = ground arith
any_iff p P (c ∷ s) h = (
  λ e. ((h c).0 (ground arith), (any_iff p P s h).0 (ground arith)),
  λ e. ground (arith, (h c).1 e.0, (any_iff p P s h).1 e.1),
)

all_iff :
    {A : Type 0} (p : A → Bool) (P : A → Type 0) (s : List A)
    → ((c : A) → (p c ≡ true) ↔ P c)
    → (all p s ≡ true) ↔ All P s
all_iff p P [] h = ground arith
all_iff p P (c ∷ s) h = (
  λ e. ((h c).0 (ground arith), (all_iff p P s h).0 (ground arith)),
  λ e. ground (arith, (h c).1 e.0, (all_iff p P s h).1 e.1),
)

abbrev is_label_byte : ℕ → Bool
is_label_byte b = is_ascii_alphanumeric b || b == b'-'

is_label_byte_iff : (c : ℕ) → (is_label_byte c ≡ true) ↔ IsLabelChar c
is_label_byte_iff c = ground arith

is_label_byte_ascii : (b : ℕ) → is_label_byte b ≡ true → b < 0x80
is_label_byte_ascii b h = ground arith

pub is_empty_iff : {A : Type 0} (s : List A) → (is_empty s ≡ false) ↔ (s ≢ [])
is_empty_iff [] = (λ h. cc, λ h. absurd (h refl))
is_empty_iff (c ∷ s) = (λ _ e. cc, λ _. refl)

is_bad_label_iff : (label : Str) → (is_bad_label label ≡ false) ↔ IsDnsLabel label
unfolding is_bad_label
is_bad_label_iff label = (
  λ h.
      let chars : all is_label_byte label ≡ true =
        ground (arith, all-bytes is_label_byte label is_label_byte_ascii) in
      record {
        nonempty = (is_empty_iff label).0 (ground arith);
        short = ground (arith, len_of_ascii is_label_byte label is_label_byte_ascii chars);
        first = ground arith;
        last = ground arith;
        chars = (all_iff is_label_byte IsLabelChar label is_label_byte_iff).0 chars;
      },
  λ h.
      let chars = (all_iff is_label_byte IsLabelChar label is_label_byte_iff).1 h.chars in
      ground (
        arith,
        chars,
        (is_empty_iff label).1 h.nonempty,
        h.short,
        h.first,
        h.last,
        all-bytes is_label_byte label is_label_byte_ascii,
        len_of_ascii is_label_byte label is_label_byte_ascii chars,
      ),
)

-- A text with `://` has a `/`.
contains-scheme : (s : Str) → contains_char b'/' s ≡ false → contains (codes "://") s ≡ false
unfolding contains starts_with
contains-scheme [] h = refl
contains-scheme (c ∷ []) h = ground arith
contains-scheme (c ∷ d ∷ s) h = ground (arith, contains-scheme (d ∷ s))

not_equal : (d c : ℕ) → ((c == d) ≡ false) ↔ (c ≢ d)
not_equal d c = ground arith

abbrev is_odd_char : ℕ → Bool
is_odd_char c = c == b'@' || c == b'/' || c == b'?' || c == b'#'

is_odd_char_iff : (c : ℕ) → (is_odd_char c ≡ false) ↔ IsPlainChar c
is_odd_char_iff c = ground arith

any_odd :
    (s : Str)
    → any is_odd_char s ≡ (
        contains_char b'@' s
        || contains_char b'/' s
        || contains_char b'?' s
        || contains_char b'#' s)
any_odd [] = refl
any_odd (c ∷ s) = ground (arith, any_odd s)

pub has_forbidden_endpoint_syntax_iff :
    (s : Str) → (has_forbidden_endpoint_syntax s ≡ false) ↔ All IsPlainChar s
unfolding has_forbidden_endpoint_syntax
has_forbidden_endpoint_syntax_iff s =
    let odd = any_iff is_odd_char IsPlainChar s is_odd_char_iff in
    (
      λ h. odd.0 (ground (arith, any_odd s)),
      λ h. ground (arith, any_odd s, odd.1 h, contains-scheme s),
    )

validate_dns_iff : (host : Str) → (validate_dns host ≡ ok tt) ↔ IsDnsHost host
unfolding validate_dns
validate_dns_iff host =
    let colon = any_iff (λ c. c == b':') (λ c. c ≢ b':') host (not_equal b':') in
    let ascii = all_iff (λ c. ltb c 0x80) (λ c. c < 0x80) host (λ c. ground arith) in
    let empty = is_empty_iff (dns_name host) in
    let labels = any_iff is_bad_label IsDnsLabel (split b'.' (dns_name host)) is_bad_label_iff in
    (
      λ h. record {
        ascii = ascii.0 (ground arith);
        no_colon = colon.0 (ground arith);
        nonempty = empty.0 (ground arith);
        short = ground arith;
        labels = labels.0 (ground arith);
      },
      λ h. ground (
        arith,
        ascii.1 h.ascii,
        colon.1 h.no_colon,
        empty.1 h.nonempty,
        h.short,
        labels.1 h.labels,
      ),
    )

-- An endpoint is accepted exactly when its port is not zero and its host is not empty, has no white
-- space and none of the characters `@ / ? #`, and either is an IP address or is, but for one final
-- dot, a DNS name of at most 253 ASCII bytes whose labels have 1 to 63 letters, digits and hyphens,
-- with no hyphen at either end.
pub validate_iff : (e : Endpoint) → (validate e ≡ ok tt) ↔ IsValid e
unfolding validate validate_host
validate_iff e =
    let empty = is_empty_iff e.host in
    let space =
      any_iff is_whitespace (λ c. is_whitespace c ≡ false) e.host (λ c. (λ h. h, λ h. h)) in
    let plain = has_forbidden_endpoint_syntax_iff e.host in
    (
      λ h. record {
        port = ground arith;
        nonempty = empty.0 (ground arith);
        no_space = space.0 (ground arith);
        plain = plain.0 (ground arith);
        addressed = elim (Option-cases (parse_ip e.host)) [
          | inr found ↦ inl found
          | inl q ↦ inr ((validate_dns_iff e.host).0 (ground arith))
        ];
      },
      λ h. elim h.addressed [
        | inl (ip, q) ↦
            ground (arith, q, h.port, empty.1 h.nonempty, space.1 h.no_space, plain.1 h.plain)
        | inr dns ↦ ground (
          arith,
          (validate_dns_iff e.host).1 dns,
          h.port,
          empty.1 h.nonempty,
          space.1 h.no_space,
          plain.1 h.plain,
        )
      ],
    )
