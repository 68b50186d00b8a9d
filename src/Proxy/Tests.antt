-- ===== src/Proxy/Tests.antt =====
-- The theorems on frames and pending requests at concrete streams and tables.
use electrum_private_relay.Prelude.{
  ◌≤◌, ◌≡◌, refl, arith, some, ◌∷◌, ◌++◌, Bytes, codes, length, ok, err,
}
use electrum_private_relay.Proxy.Framing.{
  Input, closed, invalid_data, newline, read_frame, read_until, checked_frame, ends_with_newline,
}
use electrum_private_relay.Proxy.Framing.Laws.{
  NoNewline, line, read_frame-line, read_frame-unterminated, read_frame_sound,
}

abbrev stream : Input
stream = record { unread = codes "ab" ++ newline ∷ codes "cd"; ending = closed }

abbrev left : Input
left = record { unread = codes "cd"; ending = closed }

first_frame : read_frame 8 stream ≡ ok (some (line (codes "ab")), left)
unfolding read_frame read_until checked_frame ends_with_newline
first_frame = refl

too_long : (read_frame 2 stream ≡ err invalid_data) × (read_frame 8 left ≡ err invalid_data)
unfolding read_frame read_until checked_frame ends_with_newline
too_long = (refl, refl)

read_frame-line_example : read_frame 8 stream ≡ ok (some (line (codes "ab")), left)
read_frame-line_example = read_frame-line 8 closed (codes "ab") (codes "cd") (omega arith)

read_frame-unterminated_example : read_frame 8 left ≡ err invalid_data
read_frame-unterminated_example = read_frame-unterminated 8 closed (codes "cd") (omega arith)

read_frame_sound_example :
    (body : Bytes) × NoNewline body
    × (line (codes "ab") ≡ line body)
    × (length (line (codes "ab")) ≤ 8)
    × (stream.unread ≡ line (codes "ab") ++ left.unread)
    × (left.ending ≡ stream.ending)
read_frame_sound_example = read_frame_sound 8 stream left (line (codes "ab")) first_frame
