-- ===== src/Proxy/Connection/Progress.antt =====
-- A connection of src/proxy.rs never deadlocks: while `proxy_streams_until` has not returned, one of
-- its tasks can go on.
use electrum_private_relay.Prelude.{◌≡◌, ◌≢◌, ◌⊎◌, Bool, true, false, List, ◌∷◌, Bytes}
use electrum_private_relay.Wire.{SerdeJson}
use electrum_private_relay.Proxy.State.{
  ConnectionLimits, receiving, delivering, closing, selecting, ended, dropped, Connection,
}
use electrum_private_relay.Proxy.Connection.Steps.{
  ClientEnded, UpstreamEnded, WriterEnded, Step, is_aborted, turns, is_dropped,
}

module _ {N : Type 0} where
  -- The writer task can go on.
  abbrev CanWrite : Connection N → Type 0
  CanWrite c =
      ((c.writer ≡ receiving) × (frame : Bytes) × (rest : List Bytes) × (c.queue ≡ frame ∷ rest))
      ⊎ ((frame : Bytes) × (c.writer ≡ delivering frame))
      ⊎ (c.writer ≡ closing)

module _ (j : SerdeJson) (limits : ConnectionLimits) where
  open j use {Number}

  -- The step drops the whole connection.
  abbrev pub is_drop : {c d : Connection Number} → Step j limits c d → Bool
  is_drop (turns (is_dropped going alive)) = true
  is_drop _ = false

  -- The step waits for no peer, for no write and for no answer of the relay.
  abbrev pub is_prompt : {c d : Connection Number} → Step j limits c d → Bool
  is_prompt (turns turn) = true
  is_prompt (is_aborted task told alive) = true
  is_prompt _ = false

  -- A step other than a drop can be taken, and it waits for nobody when a task has ended.
  abbrev pub CanGo : Connection Number → Type 0
  CanGo c =
      (d : Connection Number) × (step : Step j limits c d) × (is_drop step ≡ false)
      × (c.supervisor ≢ selecting → is_prompt step ≡ true)

  -- The three tasks have ended.
  abbrev pub AllEnded : Connection Number → Type 0
  AllEnded c = ClientEnded c × UpstreamEnded c × WriterEnded c

  -- A connection whose steps cannot but lead to its end: at each state it has ended with all its
  -- tasks, or it can go on and ends after whatever step comes next.
  pub data IsEnding : Connection Number → Type 0 where
    has_ended :
        {c : Connection Number}
        → (c.supervisor ≡ ended) ⊎ (c.supervisor ≡ dropped)
        → AllEnded c
        → IsEnding c
    goes_on :
        {c : Connection Number}
        → CanGo c
        → ((d : Connection Number) → Step j limits c d → IsEnding d)
        → IsEnding c
