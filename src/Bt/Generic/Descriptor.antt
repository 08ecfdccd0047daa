-- ===== src/Bt/Generic/Descriptor.antt =====
-- The walk over the items of a report descriptor: parse_descriptor of core/src/bt/generic.c.
-- `none` is the result 0.
pub mod Placed
use ghostcontrol_ps5_usb_con.Base.{
  ℕ, zero, suc, ◌+◌, ◌-◌, ◌*◌, ◌/◌, ◌%◌, ◌^◌, ℤ, pos, negsuc, Bool, true, false, not, ◌&&◌, ◌||◌,
  Option, none, some, ◌>>=◌, List, [], ◌∷◌, ◌++◌, length, get_or, set, take, drop, replicate, ltb,
  leb, ◌==◌, ltb_ℤ, u32, if◌then◌else◌,
}
use ghostcontrol_ps5_usb_con.Controllers.PadData.{bit}
use ghostcontrol_ps5_usb_con.Bt.Generic.{
  Controls, HidGlobals, no_controls, put_field, max_report_bits,
}

-- The locals of the walk, with the controls that it fills. The stack has the last entry first.
pub record Walk : Type 0 where
  pub gl : HidGlobals
  pub stack : List HidGlobals
  pub usages : List ℕ
  pub umin : ℕ
  pub umax : ℕ
  pub has_range : Bool
  pub offset : List ℕ
  pub controls : Controls

abbrev pub start : Walk
start = record {
  gl = record { page = 0; lmin = pos 0; lmax = pos 0; size = 0; count = 0; rid = 0 };
  stack = [];
  usages = [];
  umin = 0;
  umax = 0;
  has_range = false;
  offset = replicate 256 0;
  controls = no_controls;
}

abbrev pub raw_value : List ℕ → ℕ
raw_value [] = 0
raw_value (b ∷ bs) = b + 2 ^ 8 * raw_value bs

abbrev pub as_int : ℕ → ℤ
as_int v = if ltb v (2 ^ 31) then pos v else negsuc (2 ^ 32 - 1 - v)

-- `raw` has `size` bytes, so the sign bits are not set before.
unfoldable pub item_value : ℕ → ℕ → Bool → ℤ
item_value raw size is_signed =
    if is_signed && ltb 0 size && ltb size 4 && bit raw (8 * size - 1)
    then as_int (raw + (2 ^ 32 - 2 ^ (8 * size)))
    else as_int raw

-- Tags 1 and 3 are read with their sign.
abbrev pub is_signed_tag : ℕ → ℕ → Bool
is_signed_tag type tag = type == 1 && (tag == 1 || tag == 3)

abbrev pub set_globals : Walk → HidGlobals → Walk
set_globals w gl = record w { gl = gl }

abbrev pub push : Walk → Walk
push w = if ltb (length w.stack) 4 then record w { stack = w.gl ∷ w.stack } else w

unfoldable pub pop : Walk → List HidGlobals → Walk
pop w [] = w
pop w (gl ∷ rest) = record w { gl = gl; stack = rest }

unfoldable pub global_item : Walk → ℕ → ℕ → ℕ → Walk
global_item w tag raw size =
    if tag == 0
    then set_globals w (record w.gl { page = raw % 2 ^ 16 })
    else if tag == 1
    then set_globals w (record w.gl { lmin = item_value raw size true })
    else if tag == 2
    then set_globals w (record w.gl {
      lmax =
          if ltb_ℤ w.gl.lmin (pos 0)
          then item_value raw size (is_signed_tag 1 2)
          else item_value raw size false;
    })
    else if tag == 7
    then set_globals w (record w.gl { size = raw })
    else if tag == 8
    then record w {
      gl = record w.gl { rid = raw % 2 ^ 8 };
      controls = record w.controls { has_ids = true };
    }
    else if tag == 9
    then set_globals w (record w.gl { count = raw })
    else if tag == 10
    then push w
    else if tag == 11
    then pop w w.stack
    else w

unfoldable pub local_item : Walk → ℕ → ℕ → ℕ → Walk
local_item w tag raw size =
    let u = if size == 4 then raw else raw % 2 ^ 16 in
    if tag == 0 && ltb (length w.usages) 64
    then record w { usages = w.usages ++ u ∷ [] }
    else if tag == 1
    then record w { umin = u; has_range = true }
    else if tag == 2
    then record w { umax = u; has_range = true }
    else w

-- The usage of element `k`: the last of the list, or of the range, stands for those after it.
unfoldable pub usage_at : Walk → ℕ → ℕ
usage_at w k =
    if ltb 0 (length w.usages)
    then get_or w.usages (if ltb k (length w.usages) then k else length w.usages - 1) 0
    else if ltb w.umax (u32 (w.umin + k))
    then w.umax
    else u32 (w.umin + k)

-- `n` elements from element `k` on, whose report has `off` bits before.
unfoldable pub put_fields : Walk → ℕ → ℕ → ℕ → Controls → Controls
put_fields w off zero k g = g
put_fields w off (suc n) k g =
    put_fields w off n (suc k) (put_field g (usage_at w k) w.gl ((off + k * w.gl.size) % 2 ^ 16))

abbrev pub bits_of : Walk → ℕ
bits_of w = w.gl.count * w.gl.size

abbrev pub offset_of : Walk → ℕ
offset_of w = get_or w.offset w.gl.rid 0

abbrev pub is_data : Walk → ℕ → Bool
is_data w raw = not (bit raw 0) && (ltb 0 (length w.usages) || w.has_range)

unfoldable pub input_item : Walk → ℕ → Option Walk
input_item w raw =
    if w.gl.size == 0
      || ltb 32 w.gl.size
      || ltb max_report_bits w.gl.count
      || ltb max_report_bits (offset_of w + bits_of w)
    then none
    else some (record w {
      controls =
          if is_data w raw then put_fields w (offset_of w) w.gl.count 0 w.controls else w.controls;
      offset = set w.offset w.gl.rid ((offset_of w + bits_of w) % 2 ^ 16);
    })

abbrev pub clear_locals : Walk → Walk
clear_locals w = record w { usages = []; has_range = false; umin = 0; umax = 0 }

unfoldable pub main_item : Walk → ℕ → ℕ → Option Walk
main_item w tag raw =
    (if tag == 8 then input_item w raw else some w) >>= λ w'. some (clear_locals w')

unfoldable pub item : Walk → ℕ → ℕ → ℕ → ℕ → Option Walk
item w type tag raw size =
    if type == 1
    then some (global_item w tag raw size)
    else if type == 2
    then some (local_item w tag raw size)
    else if type == 0
    then main_item w tag raw
    else some w

-- The bytes after the prefix that belong to the item.
abbrev pub item_size : ℕ → ℕ
item_size prefix = if prefix % 4 == 3 then 4 else prefix % 4

abbrev pub skip_of : ℕ → List ℕ → ℕ
skip_of prefix rest = if prefix == 0xfe then 2 + get_or rest 0 0 else item_size prefix

-- A long item is passed over; only its two bytes of head have to be there.
unfoldable pub on_prefix : Walk → ℕ → List ℕ → Option Walk
on_prefix w prefix rest =
    if prefix == 0xfe
    then if ltb (length rest) 2 then none else some w
    else if ltb (length rest) (item_size prefix)
    then none
    else item w (prefix / 4 % 4) (prefix / 16) (raw_value (take (item_size prefix) rest))
        (item_size prefix)

-- `skip` counts the bytes ahead that belong to the item before.
unfoldable pub walk : ℕ → List ℕ → Walk → Option Walk
walk skip [] w = some w
walk (suc skip) (b ∷ rest) w = walk skip rest w
walk zero (b ∷ rest) w = on_prefix w b rest >>= λ w'. walk (skip_of b rest) rest w'

unfoldable pub parse_descriptor : List ℕ → Option Controls
parse_descriptor d = walk 0 d start >>= λ w. some w.controls
