-- ===== src/Bt/EvStream/Reassembly.antt =====
-- What evstream_feed of core/src/bt/evstream.c emits over any sequence of pieces.
use ghostcontrol_ps5_usb_con.Base.{
  ℕ, zero, suc, ◌+◌, ◌≤◌, ◌<◌, ◌≡◌, refl, sym, ap, ◌∙◌, List, [], ◌∷◌, ◌++◌, length, take, drop,
  arith, All, flatten, All-split, All-append, All-take, All-drop, length-take, length-drop,
  take-append-drop, get_or-take, false, Bool-cases, inl, inr, ltb, ltb→lt, ◌==◌, false,
}
use mathlib.Core.List.{append_assoc, append-nil}
use ghostcontrol_ps5_usb_con.Bt.EvStream.{
  EvStream, evstream_init, evstream_timeout, event_need, drain, room_take, copied, feed_loop,
  is_stale, feed,
}
use ghostcontrol_ps5_usb_con.Bt.EvStream.Framing.{
  IsPartial, IsFraming, IsFraming-append, framing_unique,
}

abbrev pub IsByte : ℕ → Type 0
IsByte b = b < 256

IsFraming-cons :
    (buf : List ℕ) (evs : List (List ℕ)) (rest : List ℕ)
    → 2 ≤ length buf
    → event_need buf ≤ length buf
    → IsFraming (drop (event_need buf) buf) evs rest
    → IsFraming buf (take (event_need buf) buf ∷ evs) rest
IsFraming-cons buf evs rest two fits f =
    let n = event_need buf in
    let len = length-take n buf fits in
    record {
      whole = rw (append_assoc, f.whole) (take-append-drop n buf);
      events = (
        (omega arith, len ∙ ap (λ b. 2 + b) (sym (get_or-take n buf 1 0 (omega arith)))),
        f.events,
      );
      partial = f.partial;
    }

-- With fuel for each byte the loop stops by its own tests.
drain-IsFraming :
    (fuel : ℕ) (buf : List ℕ)
    → length buf ≤ fuel
    → IsFraming buf (drain fuel buf).0 (drain fuel buf).1
unfolding drain
drain-IsFraming zero buf h = record {
  whole = refl;
  events = tt;
  partial = λ p. absurd (omega arith);
}
drain-IsFraming (suc fuel) buf h = elim (Bool-cases (ltb (length buf) 2)) [
  | inl a ↦
      rw a
        (record { whole = refl; events = tt; partial = λ p. absurd (omega (arith, ltb→lt _ _ a)) })
  | inr a ↦ elim (Bool-cases (ltb (length buf) (event_need buf))) [
    | inl b ↦ rw (a, b) (record { whole = refl; events = tt; partial = λ p. ltb→lt _ _ b })
    | inr b ↦
        rw (a, b)
          (IsFraming-cons buf _ _ (ground arith) (ground arith) (
            drain-IsFraming fuel (drop (event_need buf) buf)
              (omega (arith, length-drop (event_need buf) buf))))
  ]
]

-- A half event is short, so that a byte of room is left for the next piece.
pub half-lt : (buf : List ℕ) → IsPartial buf → All IsByte buf → length buf < 257
half-lt [] p b = omega arith
half-lt (x ∷ []) p b = omega arith
half-lt (x ∷ y ∷ buf) p b = omega (arith, p (omega arith), b.1.0)

copied_lem :
    (buf piece : List ℕ)
    → All IsByte buf
    → All IsByte piece
    → let r = copied buf piece in
      IsFraming (buf ++ take (room_take buf piece) piece) r.0 r.1 × All IsByte r.1
copied_lem buf piece hb hp =
    let filled = buf ++ take (room_take buf piece) piece in
    let f = drain-IsFraming (length filled) filled (omega arith) in
    let bytes : All IsByte filled =
      All-append IsByte buf _ hb (All-take IsByte (room_take buf piece) piece hp) in
    (f, (All-split IsByte (flatten (drain (length filled) filled).0) _ (rw (f.whole) bytes)).1)

feed_loop_lem :
    (fuel : ℕ) (buf piece : List ℕ)
    → length piece ≤ fuel
    → IsPartial buf
    → All IsByte buf
    → All IsByte piece
    → let r = feed_loop fuel buf piece in IsFraming (buf ++ piece) r.0 r.1 × All IsByte r.1
unfolding feed_loop
feed_loop_lem zero buf [] h p hb hp =
    (record { whole = sym (append-nil buf); events = tt; partial = p }, hb)
feed_loop_lem zero buf (x ∷ piece) h p hb hp = absurd (omega arith)
feed_loop_lem (suc fuel) buf [] h p hb hp =
    (record { whole = sym (append-nil buf); events = tt; partial = p }, hb)
feed_loop_lem (suc fuel) buf (x ∷ piece) h p hb hp =
    let k = room_take buf (x ∷ piece) in
    let (f, kb) = copied_lem buf (x ∷ piece) hb hp in
    let left = drop k (x ∷ piece) in
    let some_room : 0 < k = ground (arith, half-lt buf p hb) in
    let ih =
      feed_loop_lem fuel (copied buf (x ∷ piece)).1 left (omega (arith, length-drop k (x ∷ piece)))
        f.partial kb (All-drop IsByte k (x ∷ piece) hp) in
    let whole : (buf ++ take k (x ∷ piece)) ++ left ≡ buf ++ (x ∷ piece) =
      append_assoc buf _ left ∙ ap (λ l. buf ++ l) (take-append-drop k (x ∷ piece)) in
    let nonempty : (length (x ∷ piece) == 0) ≡ false = ground arith in
    rw nonempty (rw whole at (IsFraming-append _ left _ _ _ _ f ih.0), ih.1)

-- The state between two pieces: a half event of bytes.
abbrev pub IsReady : EvStream → Type 0
IsReady s = IsPartial s.buf × All IsByte s.buf

-- A piece that does not come too late continues the stream.
pub feed_lem :
    (s : EvStream) (piece : List ℕ) (now : ℕ)
    → IsReady s
    → All IsByte piece
    → is_stale s now ≡ false
    → let (s', evs) = feed s piece now in
      IsFraming (s.buf ++ piece) evs s'.buf × IsReady s' × (s'.dropped ≡ s.dropped)
unfolding feed
feed_lem s [] now v hp fresh =
    (record { whole = sym (append-nil s.buf); events = tt; partial = v.0 }, v, refl)
feed_lem s (x ∷ piece) now v hp fresh =
    let (f, b) = feed_loop_lem (length (x ∷ piece)) s.buf (x ∷ piece) (omega arith) v.0 v.1 hp in
    let nonempty : (length (x ∷ piece) == 0) ≡ false = ground arith in
    rw (fresh, nonempty) (f, (f.partial, b), refl)

-- Pieces with the times at which they arrive.
abbrev pub Pieces : Type 0
Pieces = List (List ℕ × ℕ)

abbrev pub bytes_of : Pieces → List ℕ
bytes_of [] = []
bytes_of ((piece, now) ∷ ps) = piece ++ bytes_of ps

unfoldable pub feed_all : EvStream → Pieces → EvStream × List (List ℕ)
feed_all s [] = (s, [])
feed_all s ((piece, now) ∷ ps) =
    let (s', evs) = feed s piece now in let rest = feed_all s' ps in (rest.0, evs ++ rest.1)

-- Every piece holds bytes, at least one, and comes at most 100 ms after the one before.
abbrev pub IsTimely : ℕ → Pieces → Type 0
IsTimely last [] = Unit
IsTimely last ((piece, now) ∷ ps) =
    (now ≤ last + evstream_timeout) × (0 < length piece) × All IsByte piece × IsTimely now ps

t_last-feed :
    (s : EvStream) (piece : List ℕ) (now : ℕ) → 0 < length piece → (feed s piece now).0.t_last ≡ now
unfolding feed
t_last-feed s piece now h = ground arith

feed_all_lem :
    (s : EvStream) (ps : Pieces)
    → IsReady s
    → IsTimely s.t_last ps
    → let (s', evs) = feed_all s ps in
      IsFraming (s.buf ++ bytes_of ps) evs s'.buf × (s'.dropped ≡ s.dropped)
unfolding feed_all
feed_all_lem s [] v t =
    (record { whole = sym (append-nil s.buf); events = tt; partial = v.0 }, refl)
feed_all_lem s ((piece, now) ∷ ps) v (soon, more, bytes, later) =
    let (f, ready, kept) = feed_lem s piece now v bytes (ground arith) in
    let (g, kept') =
      feed_all_lem (feed s piece now).0 ps ready (rw (t_last-feed s piece now more) later) in
    (rw append_assoc at (IsFraming-append _ (bytes_of ps) _ _ _ _ f g), kept' ∙ kept)

-- Nonempty pieces of bytes that follow one another within 100 ms, however the stream was cut into
-- them, emit from a fresh state the events of the one framing of the stream, keep the half event at
-- its end, and count none as dropped.
pub feed_all-reassembles :
    (piece : List ℕ) (now : ℕ) (ps : Pieces) (evs : List (List ℕ)) (rest : List ℕ)
    → 0 < length piece
    → All IsByte piece
    → IsTimely now ps
    → IsFraming (piece ++ bytes_of ps) evs rest
    → let (s, out) = feed_all evstream_init ((piece, now) ∷ ps) in
      (out ≡ evs) × (s.buf ≡ rest) × (s.dropped ≡ 0)
unfolding feed_all
feed_all-reassembles piece now ps evs rest more bytes t f =
    let start = evstream_init in
    let (g, ready, kept) = feed_lem start piece now (λ p. absurd (omega arith), tt) bytes refl in
    let (g', kept') =
      feed_all_lem (feed start piece now).0 ps ready (rw (t_last-feed start piece now more) t) in
    let u = framing_unique _ _ _ _ _ (IsFraming-append piece (bytes_of ps) _ _ _ _ g g') f in
    (u.0, u.1, kept' ∙ kept)
