-- ===== src/Proxy/Framing.antt =====
-- `read_frame` of src/proxy.rs over a byte stream: the bytes that the peer will still send, and how
-- the stream ends.
pub mod Laws
pub mod Taken
use electrum_private_relay.Prelude.{
  ℕ, zero, suc, ◌+◌, Bool, true, false, not, ◌||◌, Option, none, some, List, [], ◌∷◌, Bytes, length,
  is_empty, ltb, ◌==◌, if◌then◌else◌, Result, ok, err, ◌>>=◌,
}

pub data IoErrorKind : Type 0 where
  invalid_data other : IoErrorKind

-- The stream is closed, or reading it fails.
pub data Ending : Type 0 where
  closed broken : Ending

pub record Input : Type 0 where
  pub unread : Bytes
  pub ending : Ending

abbrev pub newline : ℕ
newline = b'\n'

abbrev push_front : ℕ → Bytes × Bytes → Bytes × Bytes
push_front b (frame, rest) = (b ∷ frame, rest)

-- `reader.take(limit).read_until(b'\n')`: the bytes read, and those left.
unfoldable pub read_until : ℕ → Bytes → Ending → Result IoErrorKind (Bytes × Bytes)
read_until zero unread ending = ok ([], unread)
read_until (suc limit) [] closed = ok ([], [])
read_until (suc limit) [] broken = err other
read_until (suc limit) (b ∷ unread) ending =
    let more : Result IoErrorKind (Bytes × Bytes) =
      read_until limit unread ending >>= λ read. ok (push_front b read) in
    if b == newline then ok (b ∷ [], unread) else more

-- `frame.ends_with(b"\n")`
unfoldable pub ends_with_newline : Bytes → Bool
ends_with_newline [] = false
ends_with_newline (b ∷ []) = b == newline
ends_with_newline (b ∷ c ∷ frame) = ends_with_newline (c ∷ frame)

-- The part of `read_frame` after the read.
unfoldable pub checked_frame :
    ℕ → Ending → Bytes × Bytes → Result IoErrorKind (Option Bytes × Input)
checked_frame max_frame_bytes ending (frame, rest) =
    if is_empty frame
    then ok (none, record { unread = rest; ending = ending })
    else if ltb max_frame_bytes (length frame) || not (ends_with_newline frame)
    then err invalid_data
    else ok (some frame, record { unread = rest; ending = ending })

unfoldable pub read_frame : ℕ → Input → Result IoErrorKind (Option Bytes × Input)
read_frame max_frame_bytes input = do
  read ← read_until (max_frame_bytes + 1) input.unread input.ending
  checked_frame max_frame_bytes input.ending read
