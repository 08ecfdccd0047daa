-- ===== src/Bt/EvStream.antt =====
-- core/src/bt/evstream.c: HCI events put together from the pieces that arrive over USB.
-- The buffer is the list of the bytes in use; a time is a count of milliseconds.
pub mod Framing
pub mod Reassembly
use ghostcontrol_ps5_usb_con.Base.{
  ℕ, zero, suc, ◌+◌, ◌-◌, Bool, true, false, ◌&&◌, not, List, [], ◌∷◌, ◌++◌, ltb, leb, ◌==◌, ◌!=◌,
  if◌then◌else◌, length, get_or, take, drop, u32,
}

-- EVSTREAM_MAX + 16, the size of the buffer.
abbrev pub buf_size : ℕ
buf_size = 274

abbrev pub evstream_timeout : ℕ
evstream_timeout = 100

pub record EvStream : Type 0 where
  pub buf : List ℕ
  pub t_last : ℕ
  pub dropped : ℕ

abbrev pub evstream_init : EvStream
evstream_init = record { buf = []; t_last = 0; dropped = 0 }

-- `2 + s->buf[1]`
abbrev pub event_need : List ℕ → ℕ
event_need buf = 2 + get_or buf 1 0

-- The `for (;;)` loop: the events that it emits, and the bytes that it leaves.
unfoldable pub drain : ℕ → List ℕ → List (List ℕ) × List ℕ
drain zero buf = ([], buf)
drain (suc fuel) buf =
    let rest = drain fuel (drop (event_need buf) buf) in
    if ltb (length buf) 2
    then ([], buf)
    else if ltb (length buf) (event_need buf)
    then ([], buf)
    else (take (event_need buf) buf ∷ rest.0, rest.1)

abbrev pub room_take : List ℕ → List ℕ → ℕ
room_take buf piece =
    let room = buf_size - length buf in if ltb (length piece) room then length piece else room

-- What one round copies into the buffer, drained.
abbrev pub copied : List ℕ → List ℕ → List (List ℕ) × List ℕ
copied buf piece =
    let filled = buf ++ take (room_take buf piece) piece in drain (length filled) filled

-- The `while (len > 0)` loop over the piece.
unfoldable pub feed_loop : ℕ → List ℕ → List ℕ → List (List ℕ) × List ℕ
feed_loop zero buf piece = ([], buf)
feed_loop (suc fuel) buf piece =
    let (evs, kept) = copied buf piece in
    let rest = feed_loop fuel kept (drop (room_take buf piece) piece) in
    if length piece == 0 then ([], buf) else (evs ++ rest.0, rest.1)

-- The half event is given up on.
abbrev pub is_stale : EvStream → ℕ → Bool
is_stale s now = (length s.buf != 0) && ltb (s.t_last + evstream_timeout) now

unfoldable pub feed : EvStream → List ℕ → ℕ → EvStream × List (List ℕ)
feed s piece now =
    let fresh = if is_stale s now then [] else s.buf in
    let dropped = if is_stale s now then u32 (s.dropped + 1) else s.dropped in
    let (evs, kept) = feed_loop (length piece) fresh piece in
    if length piece == 0
    then (s, [])
    else (record { buf = kept; t_last = now; dropped = dropped }, evs)
