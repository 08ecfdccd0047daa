-- ===== src/Controllers/Ds4.antt =====
-- The DualShock 4 and the pads that speak its protocol: core/src/controller_ds4.c.
pub mod Disjoint
use ghostcontrol_ps5_usb_con.Base.{
  ℕ, ◌+◌, ◌%◌, Bool, true, false, ◌&&◌, ◌||◌, List, [], ◌∷◌, length, get_or, leb, ◌==◌,
  if◌then◌else◌,
}
use ghostcontrol_ps5_usb_con.Controllers.Ds3.{listed}
use ghostcontrol_ps5_usb_con.Controllers.PadData.{
  PadData, at, bit, when, pad_up, pad_right, pad_down, pad_left, pad_square, pad_cross, pad_circle,
  pad_triangle, pad_l1, pad_r1, pad_l2, pad_r2, pad_share, pad_options, pad_l3, pad_r3, pad_ps,
  pad_touch_pad,
}

-- Vendor and product.
abbrev pub extra_pairs : List (ℕ × ℕ)
extra_pairs =
    (0x0079, 0x181b)
    ∷ (0x044f, 0xd00e)
    ∷ (0x0738, 0x8250)
    ∷ (0x0738, 0x8384)
    ∷ (0x0738, 0x8480)
    ∷ (0x0738, 0x8481)
    ∷ (0x0c12, 0x0e10)
    ∷ (0x0c12, 0x0e13)
    ∷ (0x0c12, 0x0e15)
    ∷ (0x0c12, 0x0e20)
    ∷ (0x0c12, 0x0ef6)
    ∷ (0x0c12, 0x1cf6)
    ∷ (0x0c12, 0x1e10)
    ∷ (0x0c12, 0x2e18)
    ∷ (0x0e6f, 0x0203)
    ∷ (0x0e6f, 0x0207)
    ∷ (0x0e6f, 0x020a)
    ∷ (0x11c0, 0x4001)
    ∷ (0x146b, 0x0d01)
    ∷ (0x146b, 0x0d02)
    ∷ (0x146b, 0x0d06)
    ∷ (0x146b, 0x0d08)
    ∷ (0x146b, 0x0d09)
    ∷ (0x146b, 0x0d10)
    ∷ (0x146b, 0x0d13)
    ∷ (0x146b, 0x1103)
    ∷ (0x1532, 0x0401)
    ∷ (0x1532, 0x1000)
    ∷ (0x1532, 0x1004)
    ∷ (0x1532, 0x1007)
    ∷ (0x1532, 0x1008)
    ∷ (0x1532, 0x1009)
    ∷ (0x1532, 0x100a)
    ∷ (0x1532, 0x1100)
    ∷ (0x20d6, 0x792a)
    ∷ (0x2c22, 0x2000)
    ∷ (0x2c22, 0x2300)
    ∷ (0x2c22, 0x2500)
    ∷ (0x3285, 0x0d16)
    ∷ (0x3285, 0x0d17)
    ∷ (0x7545, 0x0104)
    ∷ (0x9886, 0x0025)
    ∷ []

abbrev pub vid_sony : ℕ
vid_sony = 0x054C

abbrev pub vid_hori : ℕ
vid_hori = 0x0F0D

abbrev pub ds4_is_compatible_vidpid : ℕ → ℕ → Bool
ds4_is_compatible_vidpid vid pid =
    vid == vid_sony && (pid == 0x05C4 || pid == 0x09CC)
    || vid == vid_hori && (pid == 0x0066 || pid == 0x008F || pid == 0x00EE || pid == 0x00C9)
    || listed vid pid extra_pairs

abbrev hat_dpad : List ℕ
hat_dpad =
    pad_up
    ∷ (pad_up + pad_right)
    ∷ pad_right
    ∷ (pad_down + pad_right)
    ∷ pad_down
    ∷ (pad_down + pad_left)
    ∷ pad_left
    ∷ (pad_up + pad_left)
    ∷ 0
    ∷ []

-- The directions and the four buttons of byte 5.
abbrev pub buttons_5 : ℕ → ℕ
buttons_5 b =
    (if leb (b % 16) 8 then get_or hat_dpad (b % 16) 0 else 0)
    + when (bit b 4) pad_square
    + when (bit b 5) pad_cross
    + when (bit b 6) pad_circle
    + when (bit b 7) pad_triangle

abbrev pub buttons_6 : ℕ → ℕ
buttons_6 b =
    when (bit b 0) pad_l1
    + when (bit b 1) pad_r1
    + when (bit b 2) pad_l2
    + when (bit b 3) pad_r2
    + when (bit b 4) pad_share
    + when (bit b 5) pad_options
    + when (bit b 6) pad_l3
    + when (bit b 7) pad_r3

abbrev pub buttons_7 : ℕ → ℕ
buttons_7 b = when (bit b 0) pad_ps + when (bit b 1) pad_touch_pad

unfoldable pub parse_input : List ℕ → PadData → PadData
parse_input b o = record o {
  buttons = buttons_5 (at b 5) + buttons_6 (at b 6) + buttons_7 (at b 7);
  left_x = at b 1;
  left_y = at b 2;
  right_x = at b 3;
  right_y = at b 4;
  l2 = at b 8;
  r2 = at b 9;
  connected = 1;
}

unfoldable pub handle_packet : List ℕ → PadData → Bool × PadData
handle_packet b pad =
    if leb 10 (length b) && at b 0 == 0x01 then (true, parse_input b pad) else (false, pad)
