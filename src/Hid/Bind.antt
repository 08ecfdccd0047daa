-- ===== src/Hid/Bind.antt =====
-- The bindings of a profile on the values of a report: core/src/gc_hid.c.
pub mod Output
use ghostcontrol_ps5_usb_con.Base.{
  ℕ, suc, ◌+◌, ◌-◌, ◌*◌, ◌/◌, ◌%◌, ◌^◌, ℤ, pos, negsuc, Bool, true, false, not, ◌&&◌, ◌||◌, List,
  [], ◌∷◌, length, get_or, ltb, leb, ◌==◌, eq_ℤ, ltb_ℤ, leb_ℤ, above, ◌-ℤ◌, ◌*ℤ◌, if◌then◌else◌,
}
use Prim.Native.Nat.{bit_and, bit_or}
use ghostcontrol_ps5_usb_con.Controllers.PadData.{PadData}
use ghostcontrol_ps5_usb_con.Hid.Layout.{
  HidLayout, HidSource, HidValue, usage_mask, button_mask, canonical_buttons,
}
use ghostcontrol_ps5_usb_con.Hid.Bits.{hat_mask}
use ghostcontrol_ps5_usb_con.Hid.Pad.{
  Axis, lx, ly, rx, ry, l2, r2, is_trigger, set_axis, reset_axis, press, release, four_stick_axes,
  combined_trigger,
}
use ghostcontrol_ps5_usb_con.Hid.Input.{dpad_masks, report_id}
use ghostcontrol_ps5_usb_con.Hid.Values.{source_equal, state_update}
use ghostcontrol_ps5_usb_con.Hid.Report.{hid_input}

pub record HidButtonBinding : Type 0 where
  pub source : HidSource
  pub active_value : ℤ
  pub present : Bool

pub record HidAxisBinding : Type 0 where
  pub source : HidSource
  pub center : ℤ
  pub polarity : ℤ
  pub present : Bool

-- What the profile binds; the lists have an entry for each button and axis in the order of the enum.
pub record Profile : Type 0 where
  pub schema : ℕ
  pub hid_buttons : List HidButtonBinding
  pub hid_axes : List HidAxisBinding

abbrev pub profile_schema : ℕ
profile_schema = 3

-- How far the value is from the centre, in the direction of the binding.
abbrev pub directed : HidAxisBinding → ℤ → ℤ
directed b value = b.polarity *ℤ (value -ℤ b.center)

-- The ranges on the two sides of the centre.
abbrev pub positive_range : HidAxisBinding → ℤ
positive_range b =
    if ltb_ℤ (pos 0) b.polarity then b.source.maximum -ℤ b.center else b.center -ℤ b.source.minimum

abbrev pub negative_range : HidAxisBinding → ℤ
negative_range b =
    if ltb_ℤ (pos 0) b.polarity then b.center -ℤ b.source.minimum else b.source.maximum -ℤ b.center

-- The size of a positive number.
abbrev pub size : ℤ → ℕ
size (pos n) = n
size (negsuc n) = 0

unfoldable pub trigger_output : ℤ → ℤ → ℕ
trigger_output d positive =
    if leb_ℤ d (pos 0) || leb_ℤ positive (pos 0)
    then 0
    else if leb_ℤ positive d
    then 255
    else (size d * 255 + size positive / 2) / size positive % 2 ^ 8

unfoldable pub upper_half : ℤ → ℤ → ℕ
upper_half d positive =
    if leb_ℤ positive (pos 0)
    then 128
    else if leb_ℤ positive d
    then 255
    else (128 + (size d * 127 + size positive / 2) / size positive) % 2 ^ 8

unfoldable pub lower_half : ℕ → ℤ → ℕ
lower_half d negative =
    if leb_ℤ negative (pos 0)
    then 128
    else if leb_ℤ negative (pos d)
    then 0
    else (128 - (d * 128 + size negative / 2) / size negative) % 2 ^ 8

unfoldable pub stick_output : ℤ → ℤ → ℤ → ℕ
stick_output d positive negative =
    if leb_ℤ (pos 0) d then upper_half d positive else lower_half (above (pos 0) d) negative

unfoldable pub bound_axis : HidAxisBinding → Axis → ℤ → ℕ
bound_axis b target value =
    if is_trigger target
    then trigger_output (directed b value) (positive_range b)
    else stick_output (directed b value) (positive_range b) (negative_range b)

abbrev pub is_hat_source : HidSource → Bool
is_hat_source s = s.page == 1 && s.usage == 0x39

abbrev pub hat_of : HidSource → ℤ → ℕ
hat_of s value = hat_mask s.minimum s.maximum value

-- Only a hat position of one direction counts as a button.
abbrev pub is_one_bit : ℕ → Bool
is_one_bit m = not (m == 0) && bit_and m (m - 1) == 0

unfoldable pub bound_button_active : HidButtonBinding → HidValue → Bool
bound_button_active b v =
    if not (source_equal v.source b.source)
    then false
    else if is_hat_source b.source
    then is_one_bit (hat_of b.source b.active_value)
      && not (bit_and (hat_of v.source v.value) (hat_of b.source b.active_value) == 0)
    else v.active && eq_ℤ v.value b.active_value

-- Z is a trigger, both of them or a stick, by the other axes of the layout.
unfoldable pub clear_z : HidLayout → Axis → PadData → PadData
clear_z l target pad =
    if combined_trigger l
    then if is_trigger target then reset_axis target pad else reset_axis r2 (reset_axis l2 pad)
    else if four_stick_axes l
    then reset_axis l2 pad
    else reset_axis rx pad

unfoldable pub clear_axis_source_fallback : HidLayout → HidSource → Axis → PadData → PadData
clear_axis_source_fallback l s target pad =
    if s.page == 1
    then if s.usage == 0x30
      then reset_axis lx pad
      else if s.usage == 0x31
      then reset_axis ly pad
      else if s.usage == 0x32
      then clear_z l target pad
      else if s.usage == 0x33
      then reset_axis rx pad
      else if s.usage == 0x34
      then reset_axis ry pad
      else if s.usage == 0x35
      then reset_axis (if four_stick_axes l then r2 else ry) pad
      else pad
    else if s.page == 2
    then if s.usage == 0xba || s.usage == 0xc8
      then reset_axis lx pad
      else if s.usage == 0xbb || s.usage == 0xc4
      then reset_axis r2 pad
      else if s.usage == 0xc5
      then reset_axis l2 pad
      else pad
    else pad
