-- ===== src/Bt/Generic/Tests.antt =====
-- Runs of the definitions that model core/src/bt/generic.c, and their theorems at concrete inputs.
use ghostcontrol_ps5_usb_con.Base.{
  ◌≡◌, refl, ℕ, pos, negsuc, true, false, none, some, List, [], ◌∷◌, replicate,
}
use ghostcontrol_ps5_usb_con.Controllers.PadData.{bit}
use ghostcontrol_ps5_usb_con.Bt.Generic.{Controls, no_controls, slot_of, put_slot, put_field}
use ghostcontrol_ps5_usb_con.Bt.Generic.Descriptor.{
  item_value, global_item, local_item, usage_at, put_fields, input_item, main_item, item, on_prefix,
  walk, parse_descriptor,
}
use ghostcontrol_ps5_usb_con.Bt.Generic.Descriptor.Placed.{IsControls, parse_descriptor-IsControls}
use ghostcontrol_ps5_usb_con.Bt.Generic.Mapping.{
  Mapping, default_mapping, default_roles, right_roles,
}
use ghostcontrol_ps5_usb_con.Bt.Generic.Reading.{
  PadState, read_axis, read_roles, read_button, read_buttons, read_hat, read_controls,
  generic_parse,
}

-- One button in report 3.
abbrev numbered_button : List ℕ
numbered_button =
    0x85 ∷ 0x03 ∷ 0x05 ∷ 0x09 ∷ 0x09 ∷ 0x01 ∷ 0x15 ∷ 0x00 ∷ 0x25 ∷ 0x01 ∷ 0x75 ∷ 0x01 ∷ 0x95 ∷ 0x01
    ∷ 0x81 ∷ 0x02 ∷ []

abbrev one_control : Controls
one_control = record no_controls {
  has_ids = true;
  button =
      some (record { rid = 3; off = 0; size = 1; min = pos 0; max = pos 1 }) ∷ replicate 31 none;
  nbuttons = 1;
}

numbered_button-parsed : parse_descriptor numbered_button ≡ some one_control
unfolding parse_descriptor walk on_prefix item main_item global_item local_item input_item
    put_fields put_field put_slot slot_of usage_at item_value bit
numbered_button-parsed = refl

parse_descriptor-IsControls_example : IsControls one_control
parse_descriptor-IsControls_example =
    parse_descriptor-IsControls numbered_button one_control numbered_button-parsed

abbrev centred : PadState
centred = record { buttons = 0x10; lx = 128; ly = 128; rx = 128; ry = 128; l2 = 0; r2 = 0 }

abbrev mapping : Mapping
mapping = default_mapping one_control

other_report : (generic_parse one_control mapping (4 ∷ 1 ∷ []) centred).0 ≡ false
unfolding generic_parse read_controls read_roles read_axis read_buttons read_button read_hat
    default_mapping default_roles right_roles
other_report = refl

-- A byte of minimum -128 and one of maximum -1: the maximum is read as 255.
negative_maximum :
    parse_descriptor (
      0x05 ∷ 0x01 ∷ 0x09 ∷ 0x30 ∷ 0x15 ∷ 0x80 ∷ 0x25 ∷ 0xff ∷ 0x75 ∷ 0x08 ∷ 0x95 ∷ 0x01 ∷ 0x81
      ∷ 0x02 ∷ [])
    ≡ some (record no_controls {
      axis =
          some (record { rid = 0; off = 0; size = 8; min = negsuc 127; max = pos 255 })
          ∷ replicate 10 none;
    })
unfolding parse_descriptor walk on_prefix item main_item global_item local_item input_item
    put_fields put_field put_slot slot_of usage_at item_value bit
negative_maximum = refl
