-- ===== src/Hid/Generic.antt =====
-- A report without standard usages, by the order of its fields: gcid_generic_input of
-- core/src/gc_hid.c.
use ghostcontrol_ps5_usb_con.Base.{
  ℕ, suc, Bool, false, not, ◌&&◌, ◌||◌, List, [], ◌∷◌, ℤ, ltb, leb, ◌==◌, ltb_ℤ, above,
  if◌then◌else◌,
}
use ghostcontrol_ps5_usb_con.Controllers.PadData.{PadData}
use ghostcontrol_ps5_usb_con.Hid.Layout.{HidField, usage_mask, canonical_buttons}
use ghostcontrol_ps5_usb_con.Hid.Bits.{fits, field_decoded, hat_mask}
use ghostcontrol_ps5_usb_con.Hid.Pad.{lx, ly, rx, ry, l2, r2, set_axis, press, put_button, scaled}
use ghostcontrol_ps5_usb_con.Hid.Input.{is_set}

-- The pad, with the numbers of buttons and wide fields so far.
pub record Positions : Type 0 where
  pub pad : PadData
  pub buttons : ℕ
  pub wide : ℕ

unfoldable pub position_button : HidField → ℤ → Positions → Positions
position_button f value g = record g {
  pad =
      if ltb g.buttons canonical_buttons
      then put_button (usage_mask (suc g.buttons))
          (is_set value && not (f.null_state && ltb_ℤ value f.minimum)) g.pad
      else g.pad;
  buttons = suc g.buttons;
}

unfoldable pub wide_axis : ℕ → ℕ → PadData → PadData
wide_axis n v pad =
    if n == 0
    then set_axis lx v pad
    else if n == 1
    then set_axis ly v pad
    else if n == 2
    then set_axis rx v pad
    else if n == 3
    then set_axis ry v pad
    else if n == 4
    then set_axis l2 v pad
    else if n == 5
    then set_axis r2 v pad
    else pad

abbrev pub is_small_hat : HidField → Bool
is_small_hat f =
    leb f.bits 4 && leb 1 (above f.maximum f.minimum) && leb (above f.maximum f.minimum) 15

unfoldable pub position_field : HidField → ℤ → Positions → Positions
position_field f value g =
    if f.bits == 1
    then position_button f value g
    else if is_small_hat f
    then record g { pad = press (hat_mask f.minimum f.maximum value) g.pad }
    else if ltb f.bits 8 || leb (above f.maximum f.minimum) 0
    then g
    else record g { pad = wide_axis g.wide (scaled f value) g.pad; wide = suc g.wide }

-- Whether a field was found, and the pad. A field that the report cuts short ends the loop, after
-- the fields before it have changed the pad.
unfoldable pub generic_fields : ℕ → List ℕ → ℕ → List HidField → Bool → Positions → Bool × PadData
generic_fields id body size [] found g = (found, g.pad)
generic_fields id body size (f ∷ fs) found g =
    let here = f.report == id in
    let next = if here then position_field f (field_decoded f body) g else g in
    let rest = generic_fields id body size fs (found || here) next in
    if here && not (fits f size) then (false, g.pad) else rest
