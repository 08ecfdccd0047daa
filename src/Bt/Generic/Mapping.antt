-- ===== src/Bt/Generic/Mapping.antt =====
-- Which control of a pad is which one of the console's: the default mapping of
-- core/src/bt/generic.c.
use ghostcontrol_ps5_usb_con.Base.{
  ℕ, ◌++◌, Bool, true, false, not, ◌&&◌, Option, none, some, List, [], ◌∷◌, get_or, set, replicate,
  leb, if◌then◌else◌,
}
use ghostcontrol_ps5_usb_con.Controllers.PadData.{
  pad_cross, pad_circle, pad_square, pad_triangle, pad_l1, pad_r1, pad_l2, pad_r2, pad_share,
  pad_options, pad_ps, pad_l3, pad_r3, pad_touch_pad,
}
use ghostcontrol_ps5_usb_con.Bt.Generic.{Field, Controls, ax_brake, ax_accel}

-- The axis of each role in the order LX, LY, RX, RY, L2, R2; no axis is AX_NONE.
pub record Mapping : Type 0 where
  pub role : List (Option ℕ)
  pub invert : List Bool
  pub button_map : List ℕ

abbrev android : List ℕ
android =
    pad_cross ∷ pad_circle ∷ 0 ∷ pad_square ∷ pad_triangle ∷ 0 ∷ pad_l1 ∷ pad_r1 ∷ pad_l2 ∷ pad_r2
    ∷ pad_share ∷ pad_options ∷ pad_ps ∷ pad_l3 ∷ pad_r3 ∷ []

abbrev dinput : List ℕ
dinput =
    pad_square ∷ pad_cross ∷ pad_circle ∷ pad_triangle ∷ pad_l1 ∷ pad_r1 ∷ pad_l2 ∷ pad_r2
    ∷ pad_share ∷ pad_options ∷ pad_l3 ∷ pad_r3 ∷ pad_ps ∷ pad_touch_pad ∷ []

abbrev is_there : Option Field → Bool
is_there none = false
is_there (some f) = true

abbrev has_axis : Controls → ℕ → Bool
has_axis g a = is_there (get_or g.axis a none)

abbrev assign : Bool → ℕ → ℕ → List (Option ℕ) → List (Option ℕ)
assign c r a roles = if c then set roles r (some a) else roles

-- Z and Rz are the right stick when both are there, with Rx and Ry as triggers; else Rx and Ry are.
unfoldable pub right_roles : Controls → List (Option ℕ) → List (Option ℕ)
right_roles g roles =
    if has_axis g 2 && has_axis g 5
    then (let triggers = has_axis g 3 && has_axis g 4 && not (has_axis g ax_brake) in
        assign triggers 5 4 (assign triggers 4 3 (assign true 3 5 (assign true 2 2 roles))))
    else if has_axis g 3 && has_axis g 4
    then assign (has_axis g 5 && not (has_axis g ax_accel)) 5 5 (
        assign (has_axis g 2 && not (has_axis g ax_brake)) 4 2
          (assign true 3 4 (assign true 2 3 roles)))
    else roles

unfoldable pub default_roles : Controls → List (Option ℕ)
default_roles g = assign (has_axis g ax_accel) 5 ax_accel (
    assign (has_axis g ax_brake) 4 ax_brake
      (right_roles g (assign (has_axis g 1) 1 1 (assign (has_axis g 0) 0 0 (replicate 6 none)))))

unfoldable pub default_mapping : Controls → Mapping
default_mapping g = record {
  role = default_roles g;
  invert = replicate 6 false;
  button_map = if leb 15 g.nbuttons then android ++ replicate 17 0 else dinput ++ replicate 18 0;
}
