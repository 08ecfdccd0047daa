-- ===== src/Hid/Profile.antt =====
-- A report with the bindings of a profile: gc_hid_apply_profile_values and gc_hid_input_profile of
-- core/src/gc_hid.c.
use ghostcontrol_ps5_usb_con.Base.{
  ℕ, suc, ◌-◌, Bool, true, false, not, ◌&&◌, Option, none, some, List, [], ◌∷◌, get_or, ltb, leb,
  ◌==◌, if◌then◌else◌,
}
use Prim.Native.Nat.{bit_or}
use ghostcontrol_ps5_usb_con.Controllers.PadData.{PadData}
use ghostcontrol_ps5_usb_con.Hid.Layout.{
  HidLayout, HidValue, usage_mask, button_mask, canonical_buttons,
}
use ghostcontrol_ps5_usb_con.Hid.Pad.{
  Axis, lx, ly, rx, ry, l2, r2, set_axis, reset_axis, press, release,
}
use ghostcontrol_ps5_usb_con.Hid.Input.{dpad_masks}
use ghostcontrol_ps5_usb_con.Hid.Values.{source_equal, state_update}
use ghostcontrol_ps5_usb_con.Hid.Report.{hid_input}
use ghostcontrol_ps5_usb_con.Hid.Bind.{
  HidButtonBinding, HidAxisBinding, Profile, profile_schema, bound_axis, bound_button_active,
  is_hat_source, hat_of, clear_axis_source_fallback,
}

-- The button that the source of a binding pressed without the profile.
unfoldable pub source_mask : HidButtonBinding → ℕ
source_mask b =
    if b.source.page == 9 && leb 1 b.source.usage && leb b.source.usage canonical_buttons
    then usage_mask b.source.usage
    else if is_hat_source b.source
    then hat_of b.source b.active_value
    else if b.source.page == 1 && leb 0x90 b.source.usage && leb b.source.usage 0x93
    then get_or dpad_masks (b.source.usage - 0x90) 0
    else 0

-- The buttons that the bindings from `target` on replace.
unfoldable pub replaced : ℕ → ℕ → List HidButtonBinding → ℕ
replaced mask target [] = mask
replaced mask target (b ∷ bs) =
    let next =
      if b.present then bit_or (bit_or mask (button_mask target)) (source_mask b) else mask in
    replaced next (suc target) bs

abbrev pub any_active : HidButtonBinding → List HidValue → Bool
any_active b [] = false
any_active b (v ∷ vs) = let rest = any_active b vs in if bound_button_active b v then true else rest

unfoldable pub press_bound : List HidValue → ℕ → List HidButtonBinding → PadData → PadData
press_bound vs target [] pad = pad
press_bound vs target (b ∷ bs) pad =
    let next = if b.present && any_active b vs then press (button_mask target) pad else pad in
    press_bound vs (suc target) bs next

-- The axes in the order of the enum.
abbrev pub all_axes : List Axis
all_axes = lx ∷ ly ∷ rx ∷ ry ∷ l2 ∷ r2 ∷ []

unfoldable pub reset_bound : HidLayout → List Axis → List HidAxisBinding → PadData → PadData
reset_bound l [] bs pad = pad
reset_bound l (t ∷ ts) [] pad = pad
reset_bound l (t ∷ ts) (b ∷ bs) pad =
    let next =
      if b.present then clear_axis_source_fallback l b.source t (reset_axis t pad) else pad in
    reset_bound l ts bs next

-- The first value with the source of the binding decides; a null one leaves the axis.
unfoldable pub bind_axis : HidAxisBinding → Axis → List HidValue → PadData → PadData
bind_axis b t [] pad = pad
bind_axis b t (v ∷ vs) pad =
    let rest = bind_axis b t vs pad in
    if not (source_equal v.source b.source)
    then rest
    else if v.is_null
    then pad
    else set_axis t (bound_axis b t v.value) pad

unfoldable pub bind_axes : List HidValue → List Axis → List HidAxisBinding → PadData → PadData
bind_axes vs [] bs pad = pad
bind_axes vs (t ∷ ts) [] pad = pad
bind_axes vs (t ∷ ts) (b ∷ bs) pad =
    let next = if b.present then bind_axis b t vs pad else pad in bind_axes vs ts bs next

unfoldable pub apply_profile_values : HidLayout → List HidValue → Profile → PadData → PadData
apply_profile_values l vs profile pad =
    if ltb profile.schema profile_schema
    then pad
    else bind_axes vs all_axes profile.hid_axes (
        reset_bound l all_axes profile.hid_axes
          (press_bound vs 0 profile.hid_buttons (release (replaced 0 0 profile.hid_buttons) pad)))

-- The result, the state and the pad.
pub record Reading : Type 0 where
  pub ok : Bool
  pub state : List HidValue
  pub pad : PadData

unfoldable pub apply_update : HidLayout → Profile → PadData → Bool × List HidValue → Reading
apply_update l profile pad (stored, state) =
    if stored
    then record { ok = true; state = state; pad = apply_profile_values l state profile pad }
    else record { ok = false; state = state; pad = pad }

unfoldable pub with_profile :
    HidLayout → List ℕ → List HidValue → Option Profile → PadData → Reading
with_profile l report state none pad = record { ok = true; state = state; pad = pad }
with_profile l report state (some profile) pad =
    if ltb profile.schema profile_schema
    then record { ok = true; state = state; pad = pad }
    else apply_update l profile pad (state_update state l report)

unfoldable pub on_input :
    HidLayout → List ℕ → List HidValue → Option Profile → Bool × PadData → Reading
on_input l report state profile (found, pad) =
    if found
    then with_profile l report state profile pad
    else record { ok = false; state = state; pad = pad }

unfoldable pub input_profile :
    HidLayout → List ℕ → List HidValue → Option Profile → PadData → Reading
input_profile l report state profile pad = on_input l report state profile (hid_input l report pad)
