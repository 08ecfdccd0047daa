-- ===== src/Hid/Report.antt =====
-- A whole report onto the pad: gc_hid_input of core/src/gc_hid.c.
pub mod Verdict
use ghostcontrol_ps5_usb_con.Base.{
  ℕ, suc, ◌+◌, ◌*◌, Bool, true, false, not, ◌&&◌, ◌||◌, List, [], ◌∷◌, length, ltb, leb, ◌==◌,
  if◌then◌else◌,
}
use Prim.Native.Nat.{bit_and}
use ghostcontrol_ps5_usb_con.Controllers.PadData.{PadData, pad_l2, pad_r2}
use ghostcontrol_ps5_usb_con.Hid.Layout.{HidField, HidLayout, max_fields, l2_analog, r2_analog}
use ghostcontrol_ps5_usb_con.Hid.Pad.{four_stick_axes, combined_trigger}
use ghostcontrol_ps5_usb_con.Hid.Input.{
  report_id, report_body, any_short, Survey, survey, clear_buttons, fields_input,
}
use ghostcontrol_ps5_usb_con.Hid.Generic.{Positions, generic_fields}

abbrev pub generic_input : HidLayout → ℕ → List ℕ → PadData → Bool × PadData
generic_input l id body pad =
    generic_fields id body (length body) l.raw_fields false
      (record { pad = pad; buttons = 0; wide = 0 })

abbrev pub any_in_report : ℕ → List HidField → Bool
any_in_report id [] = false
any_in_report id (f ∷ fs) = f.report == id || any_in_report id fs

abbrev pub full_or_zero : ℕ → ℕ → ℕ
full_or_zero mask buttons = if bit_and buttons mask == 0 then 0 else 255

-- A trigger without an axis of its own follows its button.
unfoldable pub left_fallback : HidLayout → PadData → PadData
left_fallback l pad =
    if (not (four_stick_axes l) || bit_and l.axes 0x04 == 0) && bit_and l.features l2_analog == 0
    then record pad { l2 = full_or_zero pad_l2 pad.buttons }
    else pad

unfoldable pub right_fallback : HidLayout → PadData → PadData
right_fallback l pad =
    if (not (four_stick_axes l) || bit_and l.axes 0x20 == 0)
      && not (combined_trigger l)
      && bit_and l.features r2_analog == 0
    then record pad { r2 = full_or_zero pad_r2 pad.buttons }
    else pad

abbrev pub surveyed : HidLayout → ℕ → Survey
surveyed l id = survey id (record { array_mask = 0; has_hat = false; dpad_fields = 0 }) l.fields

-- The passes over the fields of a report that has all of them. The buttons are cleared before it is
-- known whether the report has a field.
unfoldable pub semantic_input : HidLayout → ℕ → List ℕ → PadData → Bool × PadData
semantic_input l id body pad =
    let s = surveyed l id in
    let cleared = clear_buttons s pad in
    let written = fields_input l s id body l.fields cleared in
    if any_in_report id l.fields
    then (true, right_fallback l (left_fallback l written))
    else (false, written)

unfoldable pub hid_input : HidLayout → List ℕ → PadData → Bool × PadData
hid_input l report pad =
    let id = report_id l report in
    let body = report_body l report in
    if length report == 0 || ltb max_fields (length l.fields)
    then (false, pad)
    else if length l.fields == 0
    then generic_input l id body pad
    else if any_short id (length body) l.fields
    then (false, pad)
    else semantic_input l id body pad
