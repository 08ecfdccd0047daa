-- ===== src/Bt/Generic.antt =====
-- The generic HID profile of the Bluetooth host: core/src/bt/generic.c. A field that is not present
-- is the missing value.
mod Tests
pub mod Descriptor
pub mod Mapping
pub mod Reading
use ghostcontrol_ps5_usb_con.Base.{
  ℕ, zero, suc, ◌+◌, ◌-◌, ◌*◌, ◌/◌, ◌%◌, ◌^◌, ℤ, pos, Bool, true, false, ◌&&◌, Option, none, some,
  List, [], ◌∷◌, get_or, set, replicate, ltb, leb, ◌==◌, if◌then◌else◌,
}

abbrev pub max_buttons : ℕ
max_buttons = 32

-- The bits of one input report.
abbrev pub max_report_bits : ℕ
max_report_bits = 512 * 8

-- Axes by their number in the source's enum.
abbrev pub ax_brake : ℕ
ax_brake = 8

abbrev pub ax_accel : ℕ
ax_accel = 9

abbrev pub ax_hat : ℕ
ax_hat = 10

abbrev pub ax_n : ℕ
ax_n = 11

pub record Field : Type 0 where
  pub rid : ℕ
  pub off : ℕ
  pub size : ℕ
  pub min : ℤ
  pub max : ℤ

-- What the descriptor fills of the source's context.
pub record Controls : Type 0 where
  pub has_ids : Bool
  pub axis : List (Option Field)
  pub button : List (Option Field)
  pub home : Option Field
  pub back : Option Field
  pub nbuttons : ℕ

abbrev pub no_controls : Controls
no_controls = record {
  has_ids = false;
  axis = replicate 11 none;
  button = replicate 32 none;
  home = none;
  back = none;
  nbuttons = 0;
}

pub record HidGlobals : Type 0 where
  pub page : ℕ
  pub lmin : ℤ
  pub lmax : ℤ
  pub size : ℕ
  pub count : ℕ
  pub rid : ℕ

-- The control that a usage stands for.
pub data Slot : Type 0 where
  axis_slot : ℕ → Slot
  button_slot : ℕ → Slot
  home_slot : Slot
  back_slot : Slot
  no_slot : Slot

unfoldable pub slot_of : ℕ → ℕ → Slot
slot_of page usage =
    if page == 0x01 && leb 0x30 usage && leb usage 0x37
    then axis_slot (usage - 0x30)
    else if page == 0x01 && usage == 0x39
    then axis_slot ax_hat
    else if page == 0x02 && usage == 0xc5
    then axis_slot ax_brake
    else if page == 0x02 && usage == 0xc4
    then axis_slot ax_accel
    else if page == 0x09 && leb 1 usage && leb usage max_buttons
    then button_slot (usage - 1)
    else if page == 0x0c && usage == 0x223
    then home_slot
    else if page == 0x0c && usage == 0x224
    then back_slot
    else no_slot

-- The first field found wins.
abbrev pub or_first : Option Field → Field → Option Field
or_first none f = some f
or_first (some old) f = some old

abbrev pub fill : List (Option Field) → ℕ → Field → List (Option Field)
fill fs i f = set fs i (or_first (get_or fs i none) f)

unfoldable pub put_slot : Controls → Slot → Field → Controls
put_slot g (axis_slot i) f = record g { axis = fill g.axis i f }
put_slot g (button_slot i) f = record g {
  button = fill g.button i f;
  nbuttons = if ltb g.nbuttons (suc i) then suc i else g.nbuttons;
}
put_slot g home_slot f = record g { home = or_first g.home f }
put_slot g back_slot f = record g { back = or_first g.back f }
put_slot g no_slot f = g

abbrev pub new_field : HidGlobals → ℕ → Field
new_field gl off = record {
  rid = gl.rid;
  off = off;
  size = gl.size % 2 ^ 16;
  min = gl.lmin;
  max = gl.lmax;
}

-- A usage of more than 16 bits brings its own page.
unfoldable pub put_field : Controls → ℕ → HidGlobals → ℕ → Controls
put_field g usage gl off =
    let page = if usage / 2 ^ 16 == 0 then gl.page else usage / 2 ^ 16 in
    put_slot g (slot_of page (usage % 2 ^ 16)) (new_field gl off)
