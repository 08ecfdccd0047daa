-- ===== src/Hid/Input.antt =====
-- One report onto the pad, gc_hid_input of core/src/gc_hid.c.
use ghostcontrol_ps5_usb_con.Base.{
  ℕ, zero, suc, ◌+◌, ◌-◌, ◌*◌, ◌/◌, ◌^◌, ℤ, pos, Bool, true, false, not, ◌&&◌, ◌||◌, Option, none,
  some, List, [], ◌∷◌, get_or, drop, ltb, leb, ◌==◌, eq_ℤ, if◌then◌else◌,
}
use Prim.Native.Nat.{bit_or}
use ghostcontrol_ps5_usb_con.Controllers.PadData.{
  PadData, pad_up, pad_down, pad_left, pad_right, at,
}
use ghostcontrol_ps5_usb_con.Hid.Layout.{HidField, HidLayout, usage_mask, canonical_buttons}
use ghostcontrol_ps5_usb_con.Hid.Bits.{fits, field_decoded, outside, hat_mask}
use ghostcontrol_ps5_usb_con.Hid.Pad.{
  lx, ly, rx, ry, l2, r2, set_axis, press, release, put_button, four_stick_axes, combined_trigger,
  is_hat, is_dpad, array_usage, scaled,
}

-- The report id and the bytes after it.
abbrev pub report_id : HidLayout → List ℕ → ℕ
report_id l report = if l.numbered then at report 0 else 0

abbrev pub report_body : HidLayout → List ℕ → List ℕ
report_body l report = if l.numbered then drop 1 report else report

-- A width that is no width, or bits behind the end of the report.
abbrev pub is_short : ℕ → ℕ → HidField → Bool
is_short id size f = f.bits == 0 || ltb 32 f.bits || f.report == id && not (fits f size)

abbrev pub any_short : ℕ → ℕ → List HidField → Bool
any_short id size [] = false
any_short id size (f ∷ fs) = is_short id size f || any_short id size fs

-- The masks of `n` usages from `usage` on.
unfoldable pub usages_mask : ℕ → ℕ → ℕ
usages_mask zero usage = 0
usages_mask (suc n) usage = bit_or (usage_mask usage) (usages_mask n (suc usage))

abbrev pub last_usage : HidField → ℕ
last_usage f =
    if ltb f.array_usage_max canonical_buttons then f.array_usage_max else canonical_buttons

-- What the fields of the report say about arrays and the directional buttons.
pub record Survey : Type 0 where
  pub array_mask : ℕ
  pub has_hat : Bool
  pub dpad_fields : ℕ

unfoldable pub survey_field : ℕ → Survey → HidField → Survey
survey_field id s f =
    if not (f.report == id)
    then s
    else if f.is_array
    then record s {
      array_mask =
          bit_or s.array_mask
            (usages_mask (suc (last_usage f) - f.array_usage_min) f.array_usage_min);
    }
    else if is_hat f
    then record s { has_hat = true }
    else if is_dpad f
    then record s { dpad_fields = bit_or s.dpad_fields (2 ^ (f.usage - 0x90)) }
    else s

unfoldable pub survey : ℕ → Survey → List HidField → Survey
survey id s [] = s
survey id s (f ∷ fs) = survey id (survey_field id s f) fs

abbrev pub complete_dpad : Survey → Bool
complete_dpad s = s.dpad_fields == 0x0f

abbrev pub use_hat : Survey → Bool
use_hat s = s.has_hat && not (complete_dpad s)

abbrev pub use_discrete_dpad : Survey → Bool
use_discrete_dpad s = not s.has_hat || complete_dpad s

abbrev pub directions : ℕ
directions = pad_up + pad_down + pad_left + pad_right

abbrev pub clear_buttons : Survey → PadData → PadData
clear_buttons s pad =
    if use_hat s || complete_dpad s
    then release directions (release s.array_mask pad)
    else release s.array_mask pad

abbrev pub dpad_masks : List ℕ
dpad_masks = pad_up ∷ pad_down ∷ pad_right ∷ pad_left ∷ []

unfoldable pub press_usage : Option ℕ → PadData → PadData
press_usage none pad = pad
press_usage (some usage) pad =
    if leb usage canonical_buttons then press (usage_mask usage) pad else pad

-- The triggers from their shared axis: a dead band lies around the middle.
unfoldable pub left_half : ℕ → ℕ
left_half axis = if ltb axis 124 then ((123 - axis) * 255 + 61) / 123 else 0

unfoldable pub right_half : ℕ → ℕ
right_half axis = if ltb 132 axis then ((axis - 133) * 255 + 61) / 122 else 0

abbrev pub vehicle_axis : ℕ → ℕ → ℕ → PadData → PadData
vehicle_axis usage stick trigger pad =
    if usage == 0xba || usage == 0xc8
    then set_axis lx stick pad
    else if usage == 0xbb || usage == 0xc4
    then set_axis r2 trigger pad
    else if usage == 0xc5
    then set_axis l2 trigger pad
    else pad

-- `stick` and `trigger` are the value for the two kinds of axis, `left` and `right` the values of a
-- shared trigger axis.
unfoldable pub desktop_axis : HidLayout → ℕ → ℕ → ℕ → ℕ → ℕ → PadData → PadData
desktop_axis l usage stick trigger left right pad =
    if usage == 0x30
    then set_axis lx stick pad
    else if usage == 0x31
    then set_axis ly stick pad
    else if usage == 0x33
    then set_axis rx stick pad
    else if usage == 0x34
    then set_axis ry stick pad
    else if usage == 0x32
    then if combined_trigger l
      then set_axis r2 right (set_axis l2 left pad)
      else if four_stick_axes l
      then set_axis l2 trigger pad
      else set_axis rx stick pad
    else if usage == 0x35
    then if four_stick_axes l then set_axis r2 trigger pad else set_axis ry stick pad
    else pad

unfoldable pub axis_input : HidLayout → HidField → ℕ → PadData → PadData
axis_input l f axis pad =
    if f.page == 2
    then vehicle_axis f.usage axis axis pad
    else desktop_axis l f.usage axis axis (left_half axis) (right_half axis) pad

-- A null value centres a stick and releases a trigger.
unfoldable pub neutral_input : HidLayout → HidField → PadData → PadData
neutral_input l f pad =
    if f.page == 2 then vehicle_axis f.usage 128 0 pad else desktop_axis l f.usage 128 0 0 0 pad

abbrev pub is_set : ℤ → Bool
is_set value = not (eq_ℤ value (pos 0))

unfoldable pub button_input : HidField → Bool → PadData → PadData
button_input f down pad =
    if leb f.usage canonical_buttons then put_button (usage_mask f.usage) down pad else pad

unfoldable pub hat_input : HidField → ℤ → Bool → PadData → PadData
hat_input f value is_null pad =
    if is_null then pad else press (hat_mask f.minimum f.maximum value) pad

-- A field with its value, and whether the value is null.
unfoldable pub field_input : HidLayout → Survey → HidField → ℤ → Bool → PadData → PadData
field_input l s f value is_null pad =
    if f.is_array
    then press_usage (array_usage f value is_null) pad
    else if f.page == 9
    then button_input f (not is_null && is_set value) pad
    else if is_hat f
    then if use_hat s then hat_input f value is_null pad else pad
    else if is_dpad f
    then if use_discrete_dpad s
      then put_button (get_or dpad_masks (f.usage - 0x90) 0) (not is_null && is_set value) pad
      else pad
    else if is_null
    then neutral_input l f pad
    else axis_input l f (scaled f value) pad

unfoldable pub fields_input : HidLayout → Survey → ℕ → List ℕ → List HidField → PadData → PadData
fields_input l s id body [] pad = pad
fields_input l s id body (f ∷ fs) pad =
    let next =
      if f.report == id
      then field_input l s f (field_decoded f body)
          (f.null_state && outside f (field_decoded f body)) pad
      else pad in
    fields_input l s id body fs next
