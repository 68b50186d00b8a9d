-- ===== src/Proxy/Pending.antt =====
-- The table of pending requests of src/proxy.rs (`PendingRequests`, `reserve_request`). The
-- `HashMap` is an association list with one entry for each key.
pub mod Laws
use electrum_private_relay.Prelude.{
  ℕ, Bool, true, false, ◌||◌, Option, none, some, List, [], ◌∷◌, Str, str_eq, length, leb,
  if◌then◌else◌,
}

pub data PendingRequest : Type 0 where
  upstream broadcast : PendingRequest

pub data Reservation : Type 0 where
  reserved duplicate limit_exceeded : Reservation

abbrev pub PendingRequests : Type 0
PendingRequests = List (Str × PendingRequest)

-- `HashMap::get`, `contains_key`, `remove`; `insert` of a key that is not there is `∷`.
unfoldable pub get : Str → PendingRequests → Option PendingRequest
get key [] = none
get key ((k, request) ∷ rest) = if str_eq k key then some request else get key rest

unfoldable pub contains_key : Str → PendingRequests → Bool
contains_key key [] = false
contains_key key ((k, request) ∷ rest) = str_eq k key || contains_key key rest

unfoldable pub remove : Str → PendingRequests → PendingRequests
remove key [] = []
remove key ((k, request) ∷ rest) =
    if str_eq k key then remove key rest else (k, request) ∷ remove key rest

-- The outcome and the table that it leaves.
unfoldable pub reserve_request :
    PendingRequests → Str → PendingRequest → ℕ → Reservation × PendingRequests
reserve_request pending key request max_pending_requests =
    if contains_key key pending
    then (duplicate, pending)
    else if leb max_pending_requests (length pending)
    then (limit_exceeded, pending)
    else (reserved, (key, request) ∷ pending)
