-- ===== src/Hid/Layout.antt =====
-- The types of core/src/gc_hid.h, and the buttons of core/src/gc_profile.c that the fields stand for.
use ghostcontrol_ps5_usb_con.Base.{ℕ, ℤ, Bool, List, [], ◌∷◌, get_or, length, ◌-◌}
use ghostcontrol_ps5_usb_con.Controllers.PadData.{
  pad_share, pad_l3, pad_r3, pad_options, pad_up, pad_right, pad_down, pad_left, pad_l2, pad_r2,
  pad_l1, pad_r1, pad_triangle, pad_circle, pad_cross, pad_square, pad_ps, pad_touch_pad,
}

abbrev pub max_fields : ℕ
max_fields = 96

pub record HidField : Type 0 where
  pub offset : ℕ
  pub page : ℕ
  pub usage : ℕ
  pub array_base : ℕ
  pub bits : ℕ
  pub report : ℕ
  pub minimum : ℤ
  pub maximum : ℤ
  pub array_usage_min : ℕ
  pub array_usage_max : ℕ
  pub is_array : Bool
  pub null_state : Bool

pub record HidLayout : Type 0 where
  pub fields : List HidField
  pub raw_fields : List HidField
  pub numbered : Bool
  pub axes : ℕ
  pub features : ℕ

-- The bits of `features`.
abbrev pub l2_analog : ℕ
l2_analog = 1

abbrev pub r2_analog : ℕ
r2_analog = 2

pub record HidSource : Type 0 where
  pub offset : ℕ
  pub page : ℕ
  pub usage : ℕ
  pub bits : ℕ
  pub report : ℕ
  pub minimum : ℤ
  pub maximum : ℤ

pub record HidValue : Type 0 where
  pub source : HidSource
  pub field_offset : ℕ
  pub value : ℤ
  pub active : Bool
  pub is_null : Bool

-- Masks by the number of the button in the source's enum.
abbrev pub button_masks : List ℕ
button_masks =
    pad_share ∷ pad_l3 ∷ pad_r3 ∷ pad_options ∷ pad_up ∷ pad_right ∷ pad_down ∷ pad_left ∷ pad_l2
    ∷ pad_r2 ∷ pad_l1 ∷ pad_r1 ∷ pad_triangle ∷ pad_circle ∷ pad_cross ∷ pad_square ∷ pad_ps
    ∷ pad_touch_pad ∷ 0x20000 ∷ 0x40000 ∷ 0x80000 ∷ 0x200000 ∷ []

abbrev pub button_mask : ℕ → ℕ
button_mask i = get_or button_masks i 0

-- The buttons in the order of the usages of the Button page.
abbrev pub hid_buttons : List ℕ
hid_buttons = 14 ∷ 13 ∷ 15 ∷ 12 ∷ 10 ∷ 11 ∷ 8 ∷ 9 ∷ 0 ∷ 3 ∷ 1 ∷ 2 ∷ 16 ∷ 17 ∷ 18 ∷ 19 ∷ 20 ∷ 21 ∷ []

abbrev pub canonical_buttons : ℕ
canonical_buttons = length hid_buttons

-- The mask of a usage, counted from 1.
unfoldable pub usage_mask : ℕ → ℕ
usage_mask usage = button_mask (get_or hid_buttons (usage - 1) 22)
