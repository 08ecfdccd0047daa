-- ===== src/Controllers/Mamba.antt =====
-- Controllers that speak XUSB, as the Manba V2 in its XInput mode: core/src/controller_mamba.c.
pub mod Decoder
use ghostcontrol_ps5_usb_con.Base.{
  ℕ, ◌+◌, ◌-◌, ◌*◌, ◌/◌, ◌%◌, ◌^◌, Bool, true, false, not, ◌&&◌, ◌||◌, List, length, ltb, leb, ◌==◌,
  if◌then◌else◌,
}
use ghostcontrol_ps5_usb_con.Controllers.PadData.{
  PadData, at, bit, when, pad_up, pad_down, pad_left, pad_right, pad_options, pad_share, pad_l3,
  pad_r3, pad_l1, pad_r1, pad_ps, pad_cross, pad_circle, pad_square, pad_triangle, pad_l2, pad_r2,
}

-- The vendors and products that are known.
unfoldable pub is_xinput_vidpid : ℕ → ℕ → Bool
is_xinput_vidpid vid pid =
    vid == 0x045e && pid == 0x028e
    || vid == 0x2dc8 && pid == 0x310a
    || vid == 0xe2b7 && pid == 0x122c

unfoldable pub is_xinput_interface : ℕ → ℕ → Bool
is_xinput_interface subclass protocol = subclass == 0x5d && protocol == 0x01

-- An int16_t from its two bytes, as the 16 bits that stand for it.
abbrev pub raw_16 : List ℕ → ℕ → ℕ
raw_16 b i = at b i + 2 ^ 8 * at b (i + 1)

-- The value and 32768, by 256.
unfoldable pub stick_x : ℕ → ℕ
stick_x raw = (raw + 2 ^ 15) % 2 ^ 16 / 2 ^ 8

-- 32768 without the value, by 256, up to 255.
abbrev pub scaled_y : ℕ → ℕ
scaled_y raw = (if ltb raw (2 ^ 15) then 2 ^ 15 - raw else 2 ^ 15 + 2 ^ 16 - raw) / 2 ^ 8

unfoldable pub stick_y : ℕ → ℕ
stick_y raw = if ltb 255 (scaled_y raw) then 255 else scaled_y raw

abbrev pub buttons_2 : ℕ → ℕ
buttons_2 b =
    when (bit b 0) pad_up
    + when (bit b 1) pad_down
    + when (bit b 2) pad_left
    + when (bit b 3) pad_right
    + when (bit b 4) pad_options
    + when (bit b 5) pad_share
    + when (bit b 6) pad_l3
    + when (bit b 7) pad_r3

abbrev pub buttons_3 : ℕ → ℕ
buttons_3 b =
    when (bit b 0) pad_l1
    + when (bit b 1) pad_r1
    + when (bit b 2) pad_ps
    + when (bit b 4) pad_cross
    + when (bit b 5) pad_circle
    + when (bit b 6) pad_square
    + when (bit b 7) pad_triangle

abbrev pub trigger_buttons : ℕ → ℕ → ℕ
trigger_buttons lt rt = when (ltb 16 lt) pad_l2 + when (ltb 16 rt) pad_r2

unfoldable pub xinput_parse_input : List ℕ → PadData → PadData
xinput_parse_input b out = record out {
  buttons = buttons_2 (at b 2) + buttons_3 (at b 3) + trigger_buttons (at b 4) (at b 5);
  left_x = stick_x (raw_16 b 6);
  left_y = stick_y (raw_16 b 8);
  right_x = stick_x (raw_16 b 10);
  right_y = stick_y (raw_16 b 12);
  l2 = at b 4;
  r2 = at b 5;
  connected = 1;
}

unfoldable pub xinput_handle_packet : List ℕ → PadData → Bool × PadData
xinput_handle_packet b pad =
    if ltb (length b) 14 || not (at b 0 == 0x00) || not (at b 1 == 0x14)
    then (false, pad)
    else (true, xinput_parse_input b pad)
