-- ===== src/Controllers/PadData.antt =====
-- The part of the console's pad data that the parsers write: core/src/gc_types.h.
-- The masks are different bits, so a set of them is the sum that stands for their `|`.
use ghostcontrol_ps5_usb_con.Base.{ℕ, ◌/◌, ◌%◌, ◌^◌, Bool, List, get_or, ◌==◌, if◌then◌else◌}

pub record PadData : Type 0 where
  pub buttons : ℕ
  pub left_x : ℕ
  pub left_y : ℕ
  pub right_x : ℕ
  pub right_y : ℕ
  pub l2 : ℕ
  pub r2 : ℕ
  pub connected : ℕ

abbrev pub pad_share : ℕ
pad_share = 0x1

abbrev pub pad_l3 : ℕ
pad_l3 = 0x2

abbrev pub pad_r3 : ℕ
pad_r3 = 0x4

abbrev pub pad_options : ℕ
pad_options = 0x8

abbrev pub pad_up : ℕ
pad_up = 0x10

abbrev pub pad_right : ℕ
pad_right = 0x20

abbrev pub pad_down : ℕ
pad_down = 0x40

abbrev pub pad_left : ℕ
pad_left = 0x80

abbrev pub pad_l2 : ℕ
pad_l2 = 0x100

abbrev pub pad_r2 : ℕ
pad_r2 = 0x200

abbrev pub pad_l1 : ℕ
pad_l1 = 0x400

abbrev pub pad_r1 : ℕ
pad_r1 = 0x800

abbrev pub pad_triangle : ℕ
pad_triangle = 0x1000

abbrev pub pad_circle : ℕ
pad_circle = 0x2000

abbrev pub pad_cross : ℕ
pad_cross = 0x4000

abbrev pub pad_square : ℕ
pad_square = 0x8000

abbrev pub pad_ps : ℕ
pad_ps = 0x10000

abbrev pub pad_touch_pad : ℕ
pad_touch_pad = 0x100000

-- Whether bit `i` is set.
unfoldable pub bit : ℕ → ℕ → Bool
bit b i = (b / 2 ^ i) % 2 == 1

abbrev pub at : List ℕ → ℕ → ℕ
at b i = get_or b i 0

-- The mask if the test holds.
abbrev pub when : Bool → ℕ → ℕ
when c m = if c then m else 0
