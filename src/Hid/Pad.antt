-- ===== src/Hid/Pad.antt =====
-- The pad that the HID readers write: its axes, the masks on its buttons, and the numbers in its
-- array fields: core/src/gc_hid.c and the enum of core/src/gc_profile.h.
pub mod Scaled
use ghostcontrol_ps5_usb_con.Base.{
  ℕ, ◌+◌, ◌-◌, ◌*◌, ◌/◌, ◌%◌, ◌^◌, ℤ, pos, Bool, true, false, not, ◌&&◌, ◌||◌, Option, none, some,
  ltb, leb, ◌==◌, eq_ℤ, ltb_ℤ, leb_ℤ, above, if◌then◌else◌,
}
use Prim.Native.Nat.{bit_and, bit_or}
use ghostcontrol_ps5_usb_con.Controllers.PadData.{PadData}
use ghostcontrol_ps5_usb_con.Hid.Layout.{HidField, HidLayout}

pub data Axis : Type 0 where
  lx : Axis
  ly : Axis
  rx : Axis
  ry : Axis
  l2 : Axis
  r2 : Axis

unfoldable pub set_axis : Axis → ℕ → PadData → PadData
set_axis lx v pad = record pad { left_x = v }
set_axis ly v pad = record pad { left_y = v }
set_axis rx v pad = record pad { right_x = v }
set_axis ry v pad = record pad { right_y = v }
set_axis l2 v pad = record pad { l2 = v }
set_axis r2 v pad = record pad { r2 = v }

abbrev pub is_trigger : Axis → Bool
is_trigger l2 = true
is_trigger r2 = true
is_trigger lx = false
is_trigger ly = false
is_trigger rx = false
is_trigger ry = false

unfoldable pub reset_axis : Axis → PadData → PadData
reset_axis axis pad = set_axis axis (if is_trigger axis then 0 else 128) pad

abbrev pub clear_mask : ℕ → ℕ → ℕ
clear_mask mask buttons = bit_and buttons (2 ^ 32 - 1 - mask)

abbrev pub press : ℕ → PadData → PadData
press mask pad = record pad { buttons = bit_or pad.buttons mask }

abbrev pub release : ℕ → PadData → PadData
release mask pad = record pad { buttons = clear_mask mask pad.buttons }

-- The buttons of the mask get the state.
abbrev pub put_button : ℕ → Bool → PadData → PadData
put_button mask down pad = record pad {
  buttons = bit_or (clear_mask mask pad.buttons) (if down then mask else 0);
}

-- Rx and Ry are there.
abbrev pub four_stick_axes : HidLayout → Bool
four_stick_axes l = bit_and l.axes 0x18 == 0x18

-- Both triggers share Z.
abbrev pub combined_trigger : HidLayout → Bool
combined_trigger l = four_stick_axes l && not (bit_and l.axes 0x04 == 0) && bit_and l.axes 0x20 == 0

abbrev pub is_hat : HidField → Bool
is_hat f = f.page == 1 && f.usage == 0x39

abbrev pub is_dpad : HidField → Bool
is_dpad f = f.page == 1 && leb 0x90 f.usage && leb f.usage 0x93

-- Button 1 stands at logical 1 when logical 0 means none.
abbrev pub reserves_zero : HidField → Bool
reserves_zero f = eq_ℤ f.minimum (pos 0) && ltb 0 f.array_usage_min

abbrev pub selected_usage : HidField → ℤ → ℕ
selected_usage f value =
    f.array_usage_min + above value (if reserves_zero f then pos 1 else f.minimum)

-- `value` is not below the number that the subtraction starts from.
unfoldable pub array_usage : HidField → ℤ → Bool → Option ℕ
array_usage f value is_null =
    if is_null || ltb_ℤ value f.minimum || ltb_ℤ f.maximum value
    then none
    else if reserves_zero f && eq_ℤ value (pos 0)
    then none
    else if ltb f.array_usage_max (selected_usage f value)
        || ltb 65535 (selected_usage f value)
        || selected_usage f value == 0
    then none
    else some (selected_usage f value)

-- How far the value is above the minimum, held within the range.
abbrev pub bounded : HidField → ℤ → ℕ
bounded f value =
    if ltb_ℤ value f.minimum
    then 0
    else if ltb_ℤ f.maximum value
    then above f.maximum f.minimum
    else above value f.minimum

-- The rounded place of the value in the range, from 0 to 255.
unfoldable pub scaled : HidField → ℤ → ℕ
scaled f value =
    (bounded f value * 255 + above f.maximum f.minimum / 2) / above f.maximum f.minimum % 2 ^ 8
