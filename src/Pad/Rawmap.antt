-- ===== src/Pad/Rawmap.antt =====
-- core/src/gc_rawmap.c, the reading of a raw report: its digital bytes and a window on it.
-- The bytes go to different places of the 32 bits, so the `|` of the shifted bytes is their sum.
pub mod Masks
pub mod Sources
use ghostcontrol_ps5_usb_con.Base.{
  ℕ, zero, suc, ◌+◌, ◌*◌, Bool, true, false, ◌&&◌, ◌||◌, List, [], ◌∷◌, length, get_or, take, drop,
  ltb, leb, ◌==◌, if◌then◌else◌,
}

unfoldable pub is_xusb : List ℕ → Bool
is_xusb report = leb 14 (length report) && get_or report 0 0 == 0x00 && get_or report 1 0 == 0x14

pub record Range : Type 0 where
  pub offset : ℕ
  pub count : ℕ

abbrev range : ℕ → ℕ → Range
range o c = record { offset = o; count = c }

unfoldable pub digital_range : List ℕ → Range
unfolding is_xusb
digital_range report =
    if length report == 0
    then range 0 0
    else if is_xusb report
    then range 2 2
    else if length report == 8
    then range 4 2
    else range 0 (if ltb 4 (length report) then 4 else length report)

unfoldable pub little_endian : List ℕ → ℕ
little_endian [] = 0
little_endian (b ∷ bs) = b + 256 * little_endian bs

abbrev pub at_most_four : ℕ → ℕ
at_most_four c = if ltb 4 c then 4 else c

unfoldable pub digital_mask : List ℕ → ℕ
digital_mask report =
    let r = digital_range report in
    if r.count == 0 || ltb (length report) (r.offset + r.count)
    then 0
    else little_endian (take (at_most_four r.count) (drop r.offset report))

unfoldable pub window : List ℕ → ℕ → ℕ
window report offset =
    if leb (length report) offset then 0 else little_endian (take 4 (drop offset report))
