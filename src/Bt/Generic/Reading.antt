-- ===== src/Bt/Generic/Reading.antt =====
-- One report of a generic pad: core/src/bt/generic.c. The numbers in a report are read as in
-- core/src/gc_hid.c.
pub mod Kept
use ghostcontrol_ps5_usb_con.Base.{
  ℕ, zero, suc, ◌+◌, ◌-◌, ◌*◌, ◌/◌, ◌^◌, ℤ, pos, Bool, true, false, not, ◌&&◌, ◌||◌, Option, none,
  some, List, [], ◌∷◌, length, get_or, drop, ltb, leb, ◌==◌, eq_ℤ, ltb_ℤ, leb_ℤ, above,
  if◌then◌else◌,
}
use Prim.Native.Nat.{bit_and, bit_or}
use ghostcontrol_ps5_usb_con.Controllers.PadData.{
  at, when, pad_up, pad_right, pad_down, pad_left, pad_ps, pad_share, pad_l2, pad_r2,
}
use ghostcontrol_ps5_usb_con.Hid.{raw_bits, sign_extend, is_negative, to_i32}
use ghostcontrol_ps5_usb_con.Bt.Generic.{Field, Controls, ax_hat}
use ghostcontrol_ps5_usb_con.Bt.Generic.Mapping.{Mapping}

-- The part of pad_state (core/src/bt/pad.h) that a generic pad has.
pub record PadState : Type 0 where
  pub buttons : ℕ
  pub lx : ℕ
  pub ly : ℕ
  pub rx : ℕ
  pub ry : ℕ
  pub l2 : ℕ
  pub r2 : ℕ

-- A field that does not lie within the report reads as its minimum.
unfoldable pub get_bits : List ℕ → Field → ℤ
get_bits d f =
    if ltb (length d) ((f.off + f.size + 7) / 8) || f.size == 0 || ltb 32 f.size
    then f.min
    else to_i32 (
        if is_negative f.min
        then sign_extend f.size (raw_bits d f.off f.size)
        else raw_bits d f.off f.size)

-- From 0 to 255 over the range; a value below the range is 0.
unfoldable pub to_byte : Field → ℤ → ℕ
to_byte f v =
    if leb_ℤ f.max f.min
    then 128
    else if ltb_ℤ v f.min
    then 0
    else if ltb 255 (above v f.min * 255 / above f.max f.min)
    then 255
    else above v f.min * 255 / above f.max f.min

abbrev pub set_role : ℕ → ℕ → PadState → PadState
set_role i v st =
    if i == 0
    then record st { lx = v }
    else if i == 1
    then record st { ly = v }
    else if i == 2
    then record st { rx = v }
    else if i == 3
    then record st { ry = v }
    else if i == 4
    then record st { l2 = v }
    else record st { r2 = v }

-- The locals of the reading with the pad that it writes.
pub record Reader : Type 0 where
  pub st : PadState
  pub b : ℕ
  pub mask : ℕ
  pub used : Bool
  pub trig_l2 : Bool
  pub trig_r2 : Bool

-- The field, if it is there and in this report.
abbrev pub carried : ℕ → Option Field → Option Field
carried rid none = none
carried rid (some f) = if f.rid == rid then some f else none

unfoldable pub read_axis : List ℕ → ℕ → Bool → Option Field → Reader → Reader
read_axis d i inverted none r = r
read_axis d i inverted (some f) r =
    let v = to_byte f (get_bits d f) in
    record r {
      st = set_role i (if inverted then 255 - v else v) r.st;
      trig_l2 = r.trig_l2 || i == 4;
      trig_r2 = r.trig_r2 || i == 5;
      used = true;
    }

abbrev pub axis_of : Controls → Option ℕ → Option Field
axis_of g none = none
axis_of g (some a) = get_or g.axis a none

-- The roles from number `i` on.
unfoldable pub read_roles :
    Controls → List ℕ → ℕ → ℕ → List (Option ℕ) → List Bool → Reader → Reader
read_roles g d rid i [] inverts r = r
read_roles g d rid i (role ∷ roles) inverts r =
    read_roles g d rid (suc i) roles (drop 1 inverts)
      (read_axis d i (get_or inverts 0 false) (carried rid (axis_of g role)) r)

abbrev pub is_on : ℤ → Bool
is_on v = not (eq_ℤ v (pos 0))

-- The buttons that a control covers, and those of them that are pressed.
abbrev pub cover : ℕ → ℕ → Reader → Reader
cover covered down r = record r { mask = bit_or r.mask covered; b = bit_or r.b down; used = true }

unfoldable pub read_button : List ℕ → ℕ → Option Field → Reader → Reader
read_button d m none r = r
read_button d m (some f) r = cover m (when (is_on (get_bits d f)) m) r

-- `n` buttons from button `i` on.
unfoldable pub read_buttons : Controls → Mapping → List ℕ → ℕ → ℕ → ℕ → Reader → Reader
read_buttons g m d rid zero i r = r
read_buttons g m d rid (suc n) i r =
    read_buttons g m d rid n (suc i)
      (read_button d (get_or m.button_map i 0) (carried rid (get_or g.button i none)) r)

abbrev pub dirs : List ℕ
dirs =
    pad_up
    ∷ (pad_up + pad_right)
    ∷ pad_right
    ∷ (pad_down + pad_right)
    ∷ pad_down
    ∷ (pad_down + pad_left)
    ∷ pad_left
    ∷ (pad_up + pad_left)
    ∷ []

abbrev pub direction : Field → ℤ → ℕ
direction f v = if ltb_ℤ v f.min then 0 else get_or dirs (above v f.min) 0

unfoldable pub read_hat : List ℕ → Option Field → Reader → Reader
read_hat d none r = r
read_hat d (some f) r =
    cover (pad_up + pad_down + pad_left + pad_right) (direction f (get_bits d f)) r

unfoldable pub read_controls : Controls → Mapping → List ℕ → ℕ → Reader → Reader
read_controls g m d rid r = read_button d pad_share (carried rid g.back) (
    read_button d pad_ps (carried rid g.home) (
      read_hat d (carried rid (get_or g.axis ax_hat none))
        (read_buttons g m d rid g.nbuttons 0 (read_roles g d rid 0 m.role m.invert r))))

-- An analog trigger presses its button.
abbrev pub press_trigger : Bool → ℕ → ℕ → Reader → Reader
press_trigger read m v r =
    if read then record r { mask = bit_or r.mask m; b = bit_or r.b (when (ltb 0x20 v) m) } else r

-- A trigger without an axis follows its button, when the report has it.
abbrev pub digital : Option ℕ → ℕ → Reader → ℕ → ℕ
digital none m r v = if bit_and r.mask m == 0 then v else if bit_and r.b m == 0 then 0 else 255
digital (some a) m r v = v

unfoldable pub finish : Mapping → Reader → PadState
finish m r0 =
    let r =
      press_trigger r0.trig_r2 pad_r2 r0.st.r2 (press_trigger r0.trig_l2 pad_l2 r0.st.l2 r0) in
    record r.st {
      buttons = bit_or (bit_and r.st.buttons (2 ^ 32 - 1 - r.mask)) r.b;
      l2 = digital (get_or m.role 4 none) pad_l2 r r.st.l2;
      r2 = digital (get_or m.role 5 none) pad_r2 r r.st.r2;
    }

abbrev pub fresh : PadState → Reader
fresh st = record { st = st; b = 0; mask = 0; used = false; trig_l2 = false; trig_r2 = false }

abbrev pub finish_used : Mapping → Reader → Bool × PadState
finish_used m r = if r.used then (true, finish m r) else (false, r.st)

-- Whether the report was read (PARSE_OK), and the pad.
unfoldable pub generic_parse : Controls → Mapping → List ℕ → PadState → Bool × PadState
generic_parse g m report st =
    if g.has_ids
    then if ltb (length report) 2
      then (false, st)
      else finish_used m (read_controls g m (drop 1 report) (at report 0) (fresh st))
    else finish_used m (read_controls g m report 0 (fresh st))
