-- ===== src/Hid/Descriptor.antt =====
-- The report descriptor parser, gc_hid_parse_descriptor of core/src/gc_hid.c.
-- `none` is the result -1; the source checks the pointers it is given first.
pub mod Elements
pub mod Main
use ghostcontrol_ps5_usb_con.Base.{
  ℕ, zero, suc, ◌+◌, ◌-◌, ◌*◌, ◌/◌, ◌%◌, ◌^◌, ℤ, pos, negsuc, Bool, true, false, not, ◌&&◌, ◌||◌,
  Option, none, some, ◌>>=◌, List, [], ◌∷◌, ◌++◌, length, get_or, set, take, replicate, ltb, leb,
  ◌==◌, ltb_ℤ, leb_ℤ, u32, if◌then◌else◌,
}
use Prim.Native.Nat.{bit_or}
use ghostcontrol_ps5_usb_con.Controllers.PadData.{bit}
use ghostcontrol_ps5_usb_con.Hid.Layout.{HidField, HidLayout, max_fields, l2_analog, r2_analog}
use ghostcontrol_ps5_usb_con.Hid.Bits.{to_i32, is_negative}

pub record Global : Type 0 where
  pub page : ℕ
  pub bits : ℕ
  pub count : ℕ
  pub report : ℕ
  pub min : ℤ
  pub max : ℤ

-- The locals of the loop, with the layout it fills. The stack and the collections have the last
-- entry first.
pub record Parser : Type 0 where
  pub g : Global
  pub stack : List Global
  pub collections : List Bool
  pub offsets : List ℕ
  pub usages : List ℕ
  pub usage_min : ℕ
  pub usage_max : ℕ
  pub layout : HidLayout

abbrev pub empty_layout : HidLayout
empty_layout = record { fields = []; raw_fields = []; numbered = false; axes = 0; features = 0 }

abbrev pub start : Parser
start = record {
  g = record { page = 0; bits = 0; count = 0; report = 0; min = pos 0; max = pos 0 };
  stack = [];
  collections = [];
  offsets = replicate 256 0;
  usages = [];
  usage_min = 0;
  usage_max = 0;
  layout = empty_layout;
}

-- `value` has the bytes of the item, so the sign bits are not set before.
unfoldable pub signed_item : ℕ → ℕ → ℤ
signed_item value bytes =
    if ltb 0 bytes && ltb bytes 4 && bit value (bytes * 8 - 1)
    then to_i32 (value + (2 ^ 32 - 2 ^ (bytes * 8)))
    else to_i32 value

abbrev pub logical_max : Global → ℕ → ℕ → ℤ
logical_max g value bytes =
    if is_negative g.min
    then signed_item value bytes
    else if ltb (2 ^ 31 - 1) value
    then pos (2 ^ 31 - 1)
    else pos value

abbrev pub offset_of : Parser → ℕ → ℕ
offset_of p report = get_or p.offsets report 0

-- Report ids are bytes other than 0, and come before the fields of an unnumbered report.
unfoldable pub number_report : Parser → ℕ → Option Parser
number_report p value =
    if value == 0 || ltb 255 value || not p.layout.numbered && ltb 0 (offset_of p 0)
    then none
    else some (record p {
      g = record p.g { report = value };
      layout = record p.layout { numbered = true };
    })

unfoldable pub push_global : Parser → Option Parser
push_global p = if length p.stack == 8 then none else some (record p { stack = p.g ∷ p.stack })

-- The first entry of the stack becomes the current one.
unfoldable pub pop_global : Parser → List Global → Option Parser
pop_global p [] = none
pop_global p (g ∷ rest) = some (record p { g = g; stack = rest })

unfoldable pub global_item : Parser → ℕ → ℕ → ℕ → Option Parser
global_item p tag value bytes =
    if tag == 0
    then some (record p { g = record p.g { page = value } })
    else if tag == 1
    then some (record p { g = record p.g { min = signed_item value bytes } })
    else if tag == 2
    then some (record p { g = record p.g { max = logical_max p.g value bytes } })
    else if tag == 7
    then some (record p { g = record p.g { bits = value } })
    else if tag == 8
    then number_report p value
    else if tag == 9
    then some (record p { g = record p.g { count = value } })
    else if tag == 10
    then push_global p
    else if tag == 11
    then pop_global p p.stack
    else some p

unfoldable pub local_item : Parser → ℕ → ℕ → Option Parser
local_item p tag value =
    if tag == 0
    then (if length p.usages == 96
        then none
        else some (record p { usages = p.usages ++ value ∷ [] }))
    else if tag == 1
    then some (record p { usage_min = value })
    else if tag == 2
    then some (record p { usage_max = value })
    else some p
