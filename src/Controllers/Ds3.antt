-- ===== src/Controllers/Ds3.antt =====
-- The DualShock 3 and the pads that speak its protocol: core/src/controller_ds3.c.
use ghostcontrol_ps5_usb_con.Base.{
  ℕ, ◌+◌, Bool, true, false, ◌&&◌, ◌||◌, List, [], ◌∷◌, length, leb, ◌==◌, if◌then◌else◌,
}
use ghostcontrol_ps5_usb_con.Controllers.PadData.{
  PadData, at, bit, when, pad_up, pad_right, pad_down, pad_left, pad_square, pad_cross, pad_circle,
  pad_triangle, pad_l1, pad_r1, pad_l2, pad_r2, pad_share, pad_options, pad_l3, pad_r3, pad_ps,
}

-- Vendor and product.
abbrev pub extra_pairs : List (ℕ × ℕ)
extra_pairs =
    (0x0079, 0x181a)
    ∷ (0x044f, 0xb315)
    ∷ (0x044f, 0xd007)
    ∷ (0x046d, 0xcad1)
    ∷ (0x054c, 0x0268)
    ∷ (0x056e, 0x200f)
    ∷ (0x056e, 0x2013)
    ∷ (0x05b8, 0x1004)
    ∷ (0x05b8, 0x1006)
    ∷ (0x06a3, 0xf622)
    ∷ (0x0738, 0x3180)
    ∷ (0x0738, 0x3250)
    ∷ (0x0738, 0x3481)
    ∷ (0x0738, 0x8180)
    ∷ (0x0738, 0x8838)
    ∷ (0x0810, 0x0001)
    ∷ (0x0810, 0x0003)
    ∷ (0x0925, 0x0005)
    ∷ (0x0925, 0x8866)
    ∷ (0x0925, 0x8888)
    ∷ (0x0e6f, 0x0109)
    ∷ (0x0e6f, 0x011e)
    ∷ (0x0e6f, 0x0128)
    ∷ (0x0e6f, 0x0214)
    ∷ (0x0e6f, 0x1314)
    ∷ (0x0e6f, 0x6302)
    ∷ (0x0e8f, 0x0008)
    ∷ (0x0e8f, 0x3075)
    ∷ (0x0e8f, 0x310d)
    ∷ (0x0f0d, 0x0009)
    ∷ (0x0f0d, 0x004d)
    ∷ (0x0f0d, 0x005f)
    ∷ (0x0f0d, 0x006a)
    ∷ (0x0f0d, 0x006e)
    ∷ (0x0f0d, 0x0085)
    ∷ (0x0f0d, 0x0088)
    ∷ (0x0f30, 0x1100)
    ∷ (0x11ff, 0x3331)
    ∷ (0x1345, 0x1000)
    ∷ (0x1345, 0x3008)
    ∷ (0x1345, 0x6005)
    ∷ (0x146b, 0x5500)
    ∷ (0x1a34, 0x0836)
    ∷ (0x20bc, 0x5500)
    ∷ (0x20d6, 0x576d)
    ∷ (0x20d6, 0xca6d)
    ∷ (0x2563, 0x0523)
    ∷ (0x2563, 0x0575)
    ∷ (0x25f0, 0x83c3)
    ∷ (0x25f0, 0xc121)
    ∷ (0x2c22, 0x2003)
    ∷ (0x2c22, 0x2302)
    ∷ (0x2c22, 0x2502)
    ∷ (0x8380, 0x0003)
    ∷ (0x8888, 0x0308)
    ∷ []

abbrev pub listed : ℕ → ℕ → List (ℕ × ℕ) → Bool
listed vid pid [] = false
listed vid pid (pair ∷ rest) = pair.0 == vid && pair.1 == pid || listed vid pid rest

abbrev pub ds3_is_compatible_vidpid : ℕ → ℕ → Bool
ds3_is_compatible_vidpid vid pid = listed vid pid extra_pairs

-- Select, the sticks, Start and the directions.
abbrev pub buttons_2 : ℕ → ℕ
buttons_2 b =
    when (bit b 0) pad_share
    + when (bit b 1) pad_l3
    + when (bit b 2) pad_r3
    + when (bit b 3) pad_options
    + when (bit b 4) pad_up
    + when (bit b 5) pad_right
    + when (bit b 6) pad_down
    + when (bit b 7) pad_left

abbrev pub buttons_3 : ℕ → ℕ
buttons_3 b =
    when (bit b 0) pad_l2
    + when (bit b 1) pad_r2
    + when (bit b 2) pad_l1
    + when (bit b 3) pad_r1
    + when (bit b 4) pad_triangle
    + when (bit b 5) pad_circle
    + when (bit b 6) pad_cross
    + when (bit b 7) pad_square

unfoldable pub parse_input : List ℕ → PadData → PadData
parse_input b o = record o {
  buttons = buttons_2 (at b 2) + buttons_3 (at b 3) + when (bit (at b 4) 0) pad_ps;
  left_x = at b 6;
  left_y = at b 7;
  right_x = at b 8;
  right_y = at b 9;
  l2 = at b 18;
  r2 = at b 19;
  connected = 1;
}

unfoldable pub handle_packet : List ℕ → PadData → Bool × PadData
handle_packet b pad =
    if leb 20 (length b) && at b 0 == 0x01 then (true, parse_input b pad) else (false, pad)
