-- ===== src/Hid/Descriptor/Elements.antt =====
-- The elements of an input item and the fields they become: core/src/gc_hid.c.
pub mod Shape
use ghostcontrol_ps5_usb_con.Base.{
  ℕ, zero, suc, ◌+◌, ◌-◌, ◌*◌, ◌/◌, ◌%◌, ◌^◌, Bool, true, false, not, ◌&&◌, ◌||◌, Option, none,
  some, ◌>>=◌, List, [], ◌∷◌, ◌++◌, length, get_or, set, take, ltb, leb, ◌==◌, ltb_ℤ, leb_ℤ, u32,
  if◌then◌else◌,
}
use Prim.Native.Nat.{bit_or}
use ghostcontrol_ps5_usb_con.Controllers.PadData.{bit, when}
use ghostcontrol_ps5_usb_con.Hid.Layout.{HidField, HidLayout, max_fields, l2_analog, r2_analog}
use ghostcontrol_ps5_usb_con.Hid.Descriptor.{
  Global, Parser, start, offset_of, global_item, local_item,
}

-- The usage of element `i` of a main item.
unfoldable pub usage_at : Parser → ℕ → ℕ
usage_at p i =
    if ltb i (length p.usages)
    then get_or p.usages i 0
    else if leb p.usage_min p.usage_max && leb i (p.usage_max - p.usage_min)
    then u32 (p.usage_min + i)
    else 0

-- A usage of more than 16 bits brings its own page.
abbrev pub page_of : Global → ℕ → ℕ
page_of g usage = if ltb 65535 usage then usage / 2 ^ 16 else g.page

abbrev pub is_variable_absolute : ℕ → Bool
is_variable_absolute value = value % 8 == 2

abbrev pub is_button_array : Parser → ℕ → Bool
is_button_array p value =
    value % 8 == 0
    && p.g.page == 9
    && length p.usages == 0
    && leb 1 p.usage_min
    && leb p.usage_min p.usage_max
    && leb p.usage_min 0xffff
    && leb p.usage_max 0xffff

abbrev pub supported_usage : ℕ → ℕ → Bool
supported_usage page usage =
    page == 9 && leb 1 usage
    || page == 1
      && (leb 0x30 usage && leb usage 0x38 || usage == 0x39 || leb 0x90 usage && leb usage 0x93)
    || page == 2
      && (usage == 0xba || usage == 0xbb || usage == 0xc4 || usage == 0xc5 || usage == 0xc8)

-- The innermost collection.
abbrev pub in_gamepad : Parser → Bool
in_gamepad p = get_or p.collections 0 false

-- One element of an input item, after its usage has been split.
pub record Element : Type 0 where
  pub index : ℕ
  pub flags : ℕ
  pub page : ℕ
  pub usage : ℕ

abbrev pub element : Parser → ℕ → ℕ → Element
element p flags i = record {
  index = i;
  flags = flags;
  page = page_of p.g (usage_at p i);
  usage = usage_at p i % 2 ^ 16;
}

abbrev pub is_claimed : Parser → Element → Bool
is_claimed p e =
    in_gamepad p
    && (is_variable_absolute e.flags && supported_usage e.page e.usage || is_button_array p e.flags)

unfoldable pub raw_field : Parser → Element → HidField
raw_field p e = record {
  offset = (offset_of p p.g.report + e.index * p.g.bits) % 2 ^ 16;
  page = e.page % 2 ^ 16;
  usage = e.usage;
  array_base = 0;
  bits = p.g.bits % 2 ^ 8;
  report = p.g.report % 2 ^ 8;
  minimum = p.g.min;
  maximum = p.g.max;
  array_usage_min = 0;
  array_usage_max = 0;
  is_array = false;
  null_state = bit e.flags 6;
}

unfoldable pub claimed_field : Parser → Element → HidField
claimed_field p e =
    if is_button_array p e.flags
    then record (raw_field p e) {
      array_base = offset_of p p.g.report % 2 ^ 16;
      page = 9;
      usage = 0;
      array_usage_min = p.usage_min % 2 ^ 16;
      array_usage_max = p.usage_max % 2 ^ 16;
      is_array = true;
    }
    else record (raw_field p e) { array_base = offset_of p p.g.report % 2 ^ 16 }

unfoldable pub axis_bits : Element → ℕ
axis_bits e = when (e.page == 1 && leb 0x30 e.usage && leb e.usage 0x35) (2 ^ (e.usage - 0x30))

unfoldable pub feature_bits : Element → ℕ
feature_bits e =
    when (e.page == 2 && e.usage == 0xc5) l2_analog
    + when (e.page == 2 && (e.usage == 0xbb || e.usage == 0xc4)) r2_analog

unfoldable pub add_claimed : Parser → Element → HidLayout → Option HidLayout
add_claimed p e l =
    if length l.fields == max_fields || leb_ℤ p.g.max p.g.min
    then none
    else some (record l {
      fields = l.fields ++ claimed_field p e ∷ [];
      axes = bit_or l.axes (axis_bits e);
      features = bit_or l.features (feature_bits e);
    })

abbrev pub keeps_raw : Parser → Element → HidLayout → Bool
keeps_raw p e l =
    is_variable_absolute e.flags
    && leb 1 p.g.bits
    && leb p.g.bits 32
    && ltb_ℤ p.g.min p.g.max
    && ltb (length l.raw_fields) max_fields

unfoldable pub add_element : Parser → Element → HidLayout → Option HidLayout
add_element p e l =
    if is_claimed p e
    then add_claimed p e l
    else if keeps_raw p e l
    then some (record l { raw_fields = l.raw_fields ++ raw_field p e ∷ [] })
    else some l

-- `n` elements from element `i` on.
unfoldable pub add_elements : Parser → ℕ → ℕ → ℕ → HidLayout → Option HidLayout
add_elements p flags zero i l = some l
add_elements p flags (suc n) i l =
    add_element p (element p flags i) l >>= λ l'. add_elements p flags n (suc i) l'
