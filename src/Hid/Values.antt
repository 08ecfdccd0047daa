-- ===== src/Hid/Values.antt =====
-- The values of a report by their coordinates, and the last value seen of each: core/src/gc_hid.c.
pub mod Latest
use ghostcontrol_ps5_usb_con.Base.{
  ℕ, zero, suc, ◌+◌, ◌-◌, ◌*◌, ◌^◌, ℤ, pos, negsuc, Bool, true, false, not, ◌&&◌, ◌||◌, Option,
  none, some, ◌>>=◌, List, [], ◌∷◌, ◌++◌, length, set, ltb, ◌==◌, eq_ℤ, ltb_ℤ, if◌then◌else◌,
}
use Prim.Native.Nat.{bit_or}
use ghostcontrol_ps5_usb_con.Hid.Layout.{HidField, HidLayout, HidSource, HidValue, max_fields}
use ghostcontrol_ps5_usb_con.Hid.Bits.{fits, field_decoded, outside, hat_mask}
use ghostcontrol_ps5_usb_con.Hid.Pad.{is_hat, is_dpad, array_usage}
use ghostcontrol_ps5_usb_con.Hid.Input.{report_id, report_body, is_set}

unfoldable pub source_equal : HidSource → HidSource → Bool
source_equal a b =
    a.report == b.report
    && a.offset == b.offset
    && a.bits == b.bits
    && a.page == b.page
    && a.usage == b.usage
    && eq_ℤ a.minimum b.minimum
    && eq_ℤ a.maximum b.maximum

abbrev pub outside_i32 : ℤ → Bool
outside_i32 z = ltb_ℤ z (negsuc (2 ^ 31 - 1)) || ltb_ℤ (pos (2 ^ 31 - 1)) z

-- The value of a field and whether it is null; `none` is the result -1.
unfoldable pub field_value : HidField → List ℕ → Option (ℤ × Bool)
field_value f body =
    if f.bits == 0
      || ltb 32 f.bits
      || not (fits f (length body))
      || outside_i32 (field_decoded f body)
    then none
    else some (field_decoded f body, f.null_state && outside f (field_decoded f body))

-- Whether the report has a hat, and which of the four directions it has.
unfoldable pub discrete_fields : ℕ → Bool × ℕ → List HidField → Bool × ℕ
discrete_fields id s [] = s
discrete_fields id s (f ∷ fs) =
    let next =
      if not (f.report == id) || f.is_array
      then s
      else if is_hat f
      then (true, s.1)
      else if is_dpad f
      then (s.0, bit_or s.1 (2 ^ (f.usage - 0x90)))
      else s in
    discrete_fields id next fs

-- Of a hat and single directions, one kind is left out.
abbrev pub is_left_out : Bool × ℕ → HidField → Bool
is_left_out s f = is_hat f && s.1 == 0x0f || is_dpad f && s.0 && not (s.1 == 0x0f)

abbrev pub is_active : HidField → ℤ → Bool → Bool
is_active f value is_null =
    if f.page == 9
    then not is_null && is_set value
    else if is_hat f
    then not is_null && not (hat_mask f.minimum f.maximum value == 0)
    else is_dpad f && not is_null && is_set value

abbrev pub source_of : HidField → HidSource
source_of f = record {
  offset = if f.is_array then f.array_base else f.offset;
  page = f.page;
  usage = f.usage;
  bits = f.bits;
  report = f.report;
  minimum = f.minimum;
  maximum = f.maximum;
}

abbrev pub value_of : HidField → ℤ → Bool → Bool → HidValue
value_of f value is_null active = record {
  source = source_of f;
  field_offset = f.offset;
  value = value;
  active = active;
  is_null = is_null;
}

-- The value of an array, with the button that it selects.
unfoldable pub select_usage : HidValue → Option ℕ → HidValue
select_usage v none = v
select_usage v (some usage) = record v { source = record v.source { usage = usage }; active = true }

unfoldable pub new_value : HidField → ℤ × Bool → HidValue
new_value f v =
    if f.is_array
    then select_usage (value_of f v.0 v.1 false) (array_usage f v.0 v.1)
    else value_of f v.0 v.1 (is_active f v.0 v.1)

unfoldable pub add_value :
    ℕ → Bool × ℕ → List ℕ → ℕ → HidField → List HidValue → Option (List HidValue)
add_value id s body capacity f acc =
    if not (f.report == id) || is_left_out s f
    then some acc
    else if length acc == capacity
    then none
    else (field_value f body >>= λ v. some (acc ++ new_value f v ∷ []))

unfoldable pub add_values :
    ℕ → Bool × ℕ → List ℕ → ℕ → List HidField → List HidValue → Option (List HidValue)
add_values id s body capacity [] acc = some acc
add_values id s body capacity (f ∷ fs) acc =
    add_value id s body capacity f acc >>= λ acc'. add_values id s body capacity fs acc'

-- No value is no success.
abbrev pub some_values : List HidValue → Option (List HidValue)
some_values vs = if length vs == 0 then none else some vs

unfoldable pub hid_values : HidLayout → List ℕ → ℕ → Option (List HidValue)
hid_values l report capacity =
    let id = report_id l report in
    if length report == 0 || ltb max_fields (length l.fields)
    then none
    else (add_values id (discrete_fields id (false, 0) l.fields) (report_body l report) capacity
          l.fields []
        >>= some_values)

unfoldable pub same_coordinate : HidValue → HidValue → Bool
same_coordinate a b =
    a.field_offset == b.field_offset
    && a.source.report == b.source.report
    && a.source.bits == b.source.bits
    && a.source.page == b.source.page
    && eq_ℤ a.source.minimum b.source.minimum
    && eq_ℤ a.source.maximum b.source.maximum

-- The place of the first value with the coordinate, or the length.
unfoldable pub place_of : List HidValue → HidValue → ℕ
place_of [] v = 0
place_of (x ∷ xs) v = let rest = place_of xs v in if same_coordinate x v then 0 else suc rest

unfoldable pub store_value : List HidValue → HidValue → Option (List HidValue)
store_value state v =
    if place_of state v == length state
    then if length state == max_fields then none else some (state ++ v ∷ [])
    else some (set state (place_of state v) v)

-- A value that finds no room ends the loop; those before it stay.
unfoldable pub store_values : List HidValue → List HidValue → Bool × List HidValue
store_values [] state = (true, state)
store_values (v ∷ vs) state = elim (store_value state v) [
  | none ↦ (false, state)
  | some state' ↦ store_values vs state'
]

-- Stores the values of a report that has some.
unfoldable pub store_report : Option (List HidValue) → List HidValue → Bool × List HidValue
store_report none state = (false, state)
store_report (some vs) state = store_values vs state

unfoldable pub state_update : List HidValue → HidLayout → List ℕ → Bool × List HidValue
state_update state l report = store_report (hid_values l report max_fields) state
