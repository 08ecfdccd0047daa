-- ===== src/Hid/Descriptor/Main.antt =====
-- The main items of a report descriptor, and the loop over the items: core/src/gc_hid.c.
pub mod Input
pub mod Sound
use ghostcontrol_ps5_usb_con.Base.{
  ℕ, zero, suc, ◌+◌, ◌-◌, ◌*◌, ◌/◌, ◌%◌, ◌^◌, Bool, true, false, not, ◌&&◌, ◌||◌, Option, none,
  some, ◌>>=◌, List, [], ◌∷◌, ◌++◌, length, get_or, set, take, ltb, leb, ◌==◌, ltb_ℤ, leb_ℤ, u32,
  if◌then◌else◌,
}
use Prim.Native.Nat.{bit_or}
use ghostcontrol_ps5_usb_con.Controllers.PadData.{bit, when}
use ghostcontrol_ps5_usb_con.Hid.Layout.{HidField, HidLayout, max_fields, l2_analog, r2_analog}
use ghostcontrol_ps5_usb_con.Hid.Descriptor.{
  Global, Parser, start, offset_of, global_item, local_item,
}
use ghostcontrol_ps5_usb_con.Hid.Descriptor.Elements.{page_of, add_elements, in_gamepad}

abbrev pub input_refused : Parser → Bool
input_refused p =
    p.layout.numbered && p.g.report == 0
    || p.g.bits == 0
    || ltb 32 p.g.bits
    || ltb 1024 p.g.count
    || ltb 8192 (p.g.bits * p.g.count)
    || ltb 8192 (offset_of p p.g.report + p.g.bits * p.g.count)

abbrev pub advance : Parser → HidLayout → Parser
advance p l = record p {
  layout = l;
  offsets = set p.offsets p.g.report (offset_of p p.g.report + p.g.bits * p.g.count);
}

unfoldable pub input_item : Parser → ℕ → Option Parser
input_item p flags =
    if input_refused p
    then none
    else (add_elements p flags p.g.count 0 p.layout >>= λ l. some (advance p l))

-- The usage that an application collection stands for.
abbrev pub collection_usage : Parser → ℕ
collection_usage p = if length p.usages == 0 then p.usage_min else get_or p.usages 0 0

-- A pointer, mouse, keyboard or keypad.
abbrev pub is_other_device : ℕ → ℕ → Bool
is_other_device page usage =
    page == 1 && leb 1 usage && leb usage 7 && not (usage == 4) && not (usage == 5)

abbrev pub is_gamepad : ℕ → ℕ → Bool
is_gamepad page usage =
    page == 1 && (usage == 4 || usage == 5 || usage == 8)
    || page == 2 && leb 1 usage && leb usage 0xc

unfoldable pub open_application : Parser → ℕ → ℕ → Option Parser
open_application p page usage =
    if length p.collections == 0 && is_other_device page usage
    then none
    else some (record p { collections = is_gamepad page usage ∷ p.collections })

unfoldable pub open_collection : Parser → ℕ → Option Parser
open_collection p value =
    if length p.collections == 16
    then none
    else if value == 1
    then open_application p (page_of p.g (collection_usage p)) (collection_usage p % 2 ^ 16)
    else some (record p { collections = in_gamepad p ∷ p.collections })

unfoldable pub close_collection : Parser → List Bool → Option Parser
close_collection p [] = none
close_collection p (c ∷ rest) = some (record p { collections = rest })

abbrev pub clear_locals : Parser → Parser
clear_locals p = record p { usages = []; usage_min = 0; usage_max = 0 }

unfoldable pub main_item : Parser → ℕ → ℕ → Option Parser
main_item p tag value =
    if tag == 10
    then open_collection p value
    else if tag == 12
    then close_collection p p.collections
    else if tag == 8
    then input_item p value
    else some p

-- Reserved items of type 3 have no effect.
unfoldable pub item : Parser → ℕ → ℕ → ℕ → ℕ → Option Parser
item p type tag value bytes =
    if type == 1
    then global_item p tag value bytes
    else if type == 2
    then local_item p tag value
    else if type == 0
    then (main_item p tag value >>= λ q. some (clear_locals q))
    else some p

abbrev pub little_endian : List ℕ → ℕ
little_endian [] = 0
little_endian (b ∷ bs) = b + 2 ^ 8 * little_endian bs

-- The bytes of value that follow a prefix.
abbrev pub item_bytes : ℕ → ℕ
item_bytes prefix = if prefix % 4 == 3 then 4 else prefix % 4

-- Long items are refused, and so is an item that the descriptor cuts short.
unfoldable pub on_prefix : Parser → ℕ → List ℕ → Option Parser
on_prefix p prefix rest =
    if prefix == 0xfe || ltb (length rest) (item_bytes prefix)
    then none
    else item p (prefix / 4 % 4) (prefix / 16) (little_endian (take (item_bytes prefix) rest))
        (item_bytes prefix)

-- `skip` counts the bytes ahead that belong to the value of the item before.
unfoldable pub parse_items : ℕ → List ℕ → Parser → Option Parser
parse_items skip [] p = some p
parse_items (suc skip) (b ∷ rest) p = parse_items skip rest p
parse_items zero (b ∷ rest) p = on_prefix p b rest >>= λ q. parse_items (item_bytes b) rest q

abbrev pub no_fields : HidLayout → Bool
no_fields l = length l.fields == 0 && length l.raw_fields == 0

unfoldable pub accept : Parser → Option HidLayout
accept p =
    if ltb 0 (length p.collections) || ltb 0 (length p.stack) || no_fields p.layout
    then none
    else some p.layout

unfoldable pub parse_descriptor : List ℕ → Option HidLayout
parse_descriptor descriptor = parse_items 0 descriptor start >>= λ p. accept p
