-- ===== src/Pad/Rawmap/Masks.antt =====
-- The masks of core/src/gc_rawmap.c fit in 32 bits.
use ghostcontrol_ps5_usb_con.Base.{
  ℕ, zero, suc, ◌+◌, ◌≤◌, ◌<◌, ◌^◌, List, [], ◌∷◌, length, take, drop, All, All-take, All-drop,
  length-take_le, arith,
}
use ghostcontrol_ps5_usb_con.Pad.Rawmap.{
  is_xusb, digital_range, little_endian, at_most_four, digital_mask, window,
}

abbrev pub IsByte : ℕ → Type 0
IsByte b = b < 256

little_endian_bound : (bs : List ℕ) → All IsByte bs → length bs ≤ 4 → little_endian bs < 2 ^ 32
unfolding little_endian
little_endian_bound [] h l = omega arith
little_endian_bound (a ∷ []) h l = omega (arith, h.0)
little_endian_bound (a ∷ b ∷ []) h l = omega (arith, h.0, h.1.0)
little_endian_bound (a ∷ b ∷ c ∷ []) h l = omega (arith, h.0, h.1.0, h.1.1.0)
little_endian_bound (a ∷ b ∷ c ∷ d ∷ []) h l = omega (arith, h.0, h.1.0, h.1.1.0, h.1.1.1.0)
little_endian_bound (a ∷ b ∷ c ∷ d ∷ e ∷ bs) h l = absurd (omega arith)

little_endian_mono :
    (m n : ℕ) (bs : List ℕ) → m ≤ n → little_endian (take m bs) ≤ little_endian (take n bs)
unfolding little_endian
little_endian_mono zero n bs h = omega arith
little_endian_mono (suc m) zero bs h = absurd (omega arith)
little_endian_mono (suc m) (suc n) [] h = omega arith
little_endian_mono (suc m) (suc n) (b ∷ bs) h = omega (arith, little_endian_mono m n bs)

-- The digital bytes of a report never reach past its end.
pub digital_range_inside :
    (report : List ℕ)
    → let r = digital_range report in (r.offset + r.count ≤ length report) × (r.count ≤ 4)
unfolding digital_range is_xusb
digital_range_inside report = ground arith

-- For any report of bytes, the digital bytes stand inside it, so the mask is never cut to 0 for
-- its length; the mask and every window fit in 32 bits; and the mask is at most the window at the
-- place of the digital bytes, which takes in the bytes after them.
pub digital_mask_lem :
    (report : List ℕ) (place : ℕ)
    → All IsByte report
    → let r = digital_range report in
      (r.offset + r.count ≤ length report)
      × (digital_mask report < 2 ^ 32)
      × (window report place < 2 ^ 32)
      × (digital_mask report ≤ window report r.offset)
unfolding digital_mask window
digital_mask_lem report place h =
    let r = digital_range report in
    let inside = digital_range_inside report in
    let fits : (n o : ℕ) → n ≤ 4 → little_endian (take n (drop o report)) < 2 ^ 32 = λ n o l.
      little_endian_bound (take n (drop o report))
        (All-take IsByte n (drop o report) (All-drop IsByte o report h))
        (omega (arith, length-take_le n (drop o report))) in
    let mono = little_endian_mono (at_most_four r.count) 4 (drop r.offset report) (ground arith) in
    let mask = fits (at_most_four r.count) r.offset (ground arith) in
    let whole = fits 4 place (omega arith) in
    (inside.0, ground (arith, mask), ground (arith, whole), ground (arith, mono, inside))
