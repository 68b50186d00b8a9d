-- ===== src/Tokio.antt =====
-- What the relays use of tokio: a counting semaphore whose permits are taken without waiting, and
-- a watch channel that keeps the last value sent. Both are parameters with their documented laws.
use electrum_private_relay.Prelude.{
  ℕ, ◌+◌, ◌-◌, ◌<◌, ◌≡◌, ◌↔◌, refl, Option, none, some, leb, if◌then◌else◌, arith,
}

pub record Semaphore : Type 1 where
  pub State : Type 0
  pub new : ℕ → State
  pub try_acquire_many : ℕ → State → Option State
  pub drop_permits : ℕ → State → State
  pub available : State → ℕ
  pub available-new : (n : ℕ) → available (new n) ≡ n
  pub acquired :
      (n : ℕ) (s t : State) → try_acquire_many n s ≡ some t → available s ≡ available t + n
  pub exhausted : (n : ℕ) (s : State) → (try_acquire_many n s ≡ none) ↔ (available s < n)
  pub available-drop : (n : ℕ) (s : State) → available (drop_permits n s) ≡ available s + n

pub record Watch : Type 1 where
  pub State : Type 0
  pub channel : ℕ → State
  pub send_replace : ℕ → State → State
  pub borrow : State → ℕ
  pub borrow-channel : (v : ℕ) → borrow (channel v) ≡ v
  pub borrow-send : (v : ℕ) (s : State) → borrow (send_replace v s) ≡ v

-- Values that show that the laws can be met.
abbrev pub counter_acquire : ℕ → ℕ → Option ℕ
counter_acquire n s = if leb n s then some (s - n) else none

pub counter_acquired : (n s t : ℕ) → counter_acquire n s ≡ some t → s ≡ t + n
counter_acquired n s t h = ground arith

pub counter_exhausted : (n s : ℕ) → (counter_acquire n s ≡ none) ↔ (s < n)
counter_exhausted n s = ground arith

abbrev pub counter : Semaphore
counter = record {
  State = ℕ;
  new = λ n. n;
  try_acquire_many = counter_acquire;
  drop_permits = λ n s. s + n;
  available = λ s. s;
  available-new = λ n. refl;
  acquired = counter_acquired;
  exhausted = counter_exhausted;
  available-drop = λ n s. refl;
}

abbrev pub cell : Watch
cell = record {
  State = ℕ;
  channel = λ v. v;
  send_replace = λ v s. v;
  borrow = λ s. s;
  borrow-channel = λ v. refl;
  borrow-send = λ v s. refl;
}
