-- ===== src/Hid/Tests.antt =====
-- Runs of the definitions that model the HID reports, and their theorems at concrete inputs.
use ghostcontrol_ps5_usb_con.Base.{
  ◌↔◌, ◌≡◌, refl, ℕ, ◌≤◌, ◌+◌, arith, pos, negsuc, true, false, none, some, List, [], ◌∷◌, length,
}
use ghostcontrol_ps5_usb_con.Controllers.PadData.{PadData, bit}
use ghostcontrol_ps5_usb_con.Hid.Layout.{
  HidField, HidLayout, HidSource, HidValue, max_fields, usage_mask,
}
use ghostcontrol_ps5_usb_con.Hid.Bits.{raw_bits, sign_extend, decode}
use ghostcontrol_ps5_usb_con.Hid.Pad.{lx}
use ghostcontrol_ps5_usb_con.Hid.Input.{
  survey, survey_field, fields_input, field_input, button_input,
}
use ghostcontrol_ps5_usb_con.Hid.Generic.{generic_fields, position_field, position_button}
use ghostcontrol_ps5_usb_con.Hid.Report.{hid_input, semantic_input, left_fallback, right_fallback}
use ghostcontrol_ps5_usb_con.Hid.Report.Verdict.{accepted, verdict, IsReadable, hid_input-verdict}
use ghostcontrol_ps5_usb_con.Hid.Values.{
  hid_values, add_values, add_value, field_value, new_value, discrete_fields, state_update,
}
use ghostcontrol_ps5_usb_con.Hid.Values.Latest.{IsStored, lookup, missing, state_update-latest}
use ghostcontrol_ps5_usb_con.Hid.Bind.{HidAxisBinding, bound_axis}
use ghostcontrol_ps5_usb_con.Hid.Bind.Output.{bound_axis_mono}
use ghostcontrol_ps5_usb_con.Hid.Descriptor.{signed_item, global_item, local_item, number_report}
use ghostcontrol_ps5_usb_con.Hid.Descriptor.Elements.{
  usage_at, raw_field, claimed_field, axis_bits, feature_bits, add_claimed, add_element,
  add_elements,
}
use ghostcontrol_ps5_usb_con.Hid.Descriptor.Main.{
  input_item, open_application, open_collection, close_collection, main_item, item, on_prefix,
  parse_items, accept, parse_descriptor,
}
use ghostcontrol_ps5_usb_con.Hid.Descriptor.Main.Sound.{IsLayout, parse_descriptor-IsLayout}

-- A gamepad with one button.
abbrev one_button : List ℕ
one_button =
    0x05 ∷ 0x01 ∷ 0x09 ∷ 0x05 ∷ 0xa1 ∷ 0x01 ∷ 0x05 ∷ 0x09 ∷ 0x09 ∷ 0x01 ∷ 0x15 ∷ 0x00 ∷ 0x25 ∷ 0x01
    ∷ 0x75 ∷ 0x01 ∷ 0x95 ∷ 0x01 ∷ 0x81 ∷ 0x02 ∷ 0xc0 ∷ []

abbrev button_field : HidField
button_field = record {
  offset = 0;
  page = 9;
  usage = 1;
  array_base = 0;
  bits = 1;
  report = 0;
  minimum = pos 0;
  maximum = pos 1;
  array_usage_min = 0;
  array_usage_max = 0;
  is_array = false;
  null_state = false;
}

abbrev layout_of : List HidField → List HidField → HidLayout
layout_of fields raw = record {
  fields = fields;
  raw_fields = raw;
  numbered = false;
  axes = 0;
  features = 0;
}

abbrev button_layout : HidLayout
button_layout = layout_of (button_field ∷ []) []

one_button-parsed : parse_descriptor one_button ≡ some button_layout
unfolding parse_descriptor parse_items on_prefix item main_item global_item local_item
    open_collection open_application close_collection input_item add_elements add_element
    add_claimed claimed_field raw_field usage_at axis_bits feature_bits accept signed_item bit
one_button-parsed = refl

parse_descriptor-IsLayout_example : IsLayout button_layout
parse_descriptor-IsLayout_example =
    parse_descriptor-IsLayout one_button button_layout one_button-parsed

-- Report 0 has bits before the first report id, and a mouse is no gamepad.
mixed_reports-refused :
    parse_descriptor (0x75 ∷ 0x08 ∷ 0x95 ∷ 0x01 ∷ 0x81 ∷ 0x03 ∷ 0x85 ∷ 0x01 ∷ []) ≡ none
unfolding parse_descriptor parse_items on_prefix item main_item global_item number_report input_item
    add_elements add_element claimed_field raw_field usage_at
mixed_reports-refused = refl

mouse-refused : parse_descriptor (0x05 ∷ 0x01 ∷ 0x09 ∷ 0x02 ∷ 0xa1 ∷ 0x01 ∷ 0xc0 ∷ []) ≡ none
unfolding parse_descriptor parse_items on_prefix item main_item global_item local_item
    open_collection open_application
mouse-refused = refl

abbrev idle : PadData
idle = record {
  buttons = 0;
  left_x = 128;
  left_y = 128;
  right_x = 128;
  right_y = 128;
  l2 = 0;
  r2 = 0;
  connected = 1;
}

abbrev pressed : PadData
pressed = record idle { buttons = 0x4000 }

hid_input-verdict_example :
    (hid_input button_layout (1 ∷ []) idle
      ≡ verdict
          (accepted button_layout (1 ∷ []))
          (semantic_input button_layout 0 (1 ∷ []) idle).1
          idle)
    × ((accepted button_layout (1 ∷ []) ≡ true) ↔ IsReadable button_layout (1 ∷ []))
hid_input-verdict_example =
    hid_input-verdict button_layout (1 ∷ []) idle (omega arith) (omega arith)

button-pressed : hid_input button_layout (1 ∷ []) idle ≡ (true, pressed)
unfolding hid_input semantic_input survey survey_field fields_input field_input button_input
    raw_bits sign_extend decode left_fallback right_fallback usage_mask bit
button-pressed = refl

-- A report that a positional field cuts short is refused after the field before it was written.
positional-changed :
    hid_input
      (layout_of [] (button_field ∷ (record button_field { offset = 8 }) ∷ []))
      (1 ∷ [])
      idle
    ≡ (false, pressed)
unfolding hid_input generic_fields position_field position_button raw_bits decode usage_mask bit
positional-changed = refl

abbrev stick_field : HidField
stick_field = record button_field {
  page = 1;
  usage = 0x30;
  bits = 8;
  minimum = negsuc 126;
  maximum = pos 127;
}

abbrev button_source : HidSource
button_source = record {
  offset = 0;
  page = 9;
  usage = 1;
  bits = 1;
  report = 0;
  minimum = pos 0;
  maximum = pos 1;
}

abbrev button_value : HidValue
button_value = record {
  source = button_source;
  field_offset = 0;
  value = pos 1;
  active = true;
  is_null = false;
}

button-values : hid_values button_layout (1 ∷ []) max_fields ≡ some (button_value ∷ [])
unfolding hid_values add_values add_value field_value new_value discrete_fields raw_bits decode bit
button-values = refl

button-room : length {A = HidValue} [] + missing [] (button_value ∷ []) ≤ 96
unfolding lookup
button-room = omega arith

state_update-latest_example :
    IsStored (button_value ∷ []) [] button_value (state_update [] button_layout (1 ∷ []))
state_update-latest_example =
    state_update-latest [] button_layout (1 ∷ []) (button_value ∷ []) button_value button-values
      button-room

abbrev stick_binding : HidAxisBinding
stick_binding = record {
  source = record button_source { page = 1; usage = 0x30; minimum = negsuc 126; maximum = pos 127 };
  center = pos 0;
  polarity = negsuc 0;
  present = true;
}

bound_axis_mono_example :
    (bound_axis stick_binding lx (pos 90) ≤ bound_axis stick_binding lx (negsuc 20))
    × (bound_axis stick_binding lx (negsuc 20) ≤ 255)
    × (bound_axis stick_binding lx (pos 0) ≡ 128)
bound_axis_mono_example =
    bound_axis_mono stick_binding lx (pos 90) (negsuc 20) 127 127 (refl, omega arith)
      (refl, omega arith) refl
