-- ===== src/Hid/Descriptor/Main/Sound.antt =====
-- What the parser keeps from item to item, and the layouts it accepts: core/src/gc_hid.c.
use ghostcontrol_ps5_usb_con.Base.{
  ◌≡◌, refl, sym, subst, ℕ, zero, suc, ◌+◌, ◌*◌, ◌≤◌, arith, Bool, true, false, not, ◌&&◌, ◌||◌,
  Option, none, some, ◌>>=◌, List, [], ◌∷◌, length, length-set, get_or, All, All-map, ltb, ◌==◌,
  if◌then◌else◌, if-elim, OnSome, OnSome-bind, OnSome-value, ◌∙◌,
}
use ghostcontrol_ps5_usb_con.Hid.Layout.{HidField, HidLayout}
use ghostcontrol_ps5_usb_con.Hid.Descriptor.{
  Global, Parser, start, offset_of, number_report, push_global, pop_global, global_item, local_item,
}
use ghostcontrol_ps5_usb_con.Hid.Descriptor.Elements.{add_elements, in_gamepad}
use ghostcontrol_ps5_usb_con.Hid.Descriptor.Elements.Shape.{
  IsReadable, IsField, IsClaimed, IsLayoutOf, is_sound_usage,
}
use ghostcontrol_ps5_usb_con.Hid.Descriptor.Main.Input.{
  is_current, add_bits, add_bits-le, add_bits-counted, mul-positive, IsLayoutOf-later,
  input_elements-IsLayoutOf,
}
use ghostcontrol_ps5_usb_con.Hid.Descriptor.Main.{
  input_refused, advance, input_item, open_application, open_collection, close_collection,
  is_other_device, clear_locals, main_item, item, item_bytes, on_prefix, parse_items, no_fields,
  accept, parse_descriptor,
}

abbrev pub IsParserOf : Bool → Parser → Type 0
IsParserOf numbered p =
    (is_current numbered p.g.report ≡ true)
    × All (λ g. is_current numbered g.report ≡ true) p.stack
    × (length p.offsets ≡ 256)
    × IsLayoutOf numbered (offset_of p 0) p.layout

abbrev pub IsParser : Parser → Type 0
IsParser p = IsParserOf p.layout.numbered p

is_current-numbered : (b : Bool) (r : ℕ) → is_current b r ≡ true → is_current true r ≡ true
is_current-numbered b r h = ground (arith, h)

IsField-numbered :
    (b : Bool) (o : ℕ) (f : HidField)
    → (not b && ltb 0 o) ≡ false
    → IsField b o f
    → IsField true o f
IsField-numbered b o f first h =
    ((h.0.0, h.0.1, h.0.2, h.0.3, ground (arith, first, h.0.4, h.1)), h.1)

number_report-IsParser : (p : Parser) (v : ℕ) → IsParser p → OnSome IsParser (number_report p v)
unfolding number_report
number_report-IsParser p v h =
    let b = p.layout.numbered in
    let o = offset_of p 0 in
    if-elim (OnSome IsParser) (v == 0 || ltb 255 v || not b && ltb 0 o) _ _ (λ refused. tt)
      (λ taken.
        let first : (not b && ltb 0 o) ≡ false = ground (arith, taken) in
        let up = IsField-numbered b o in
        (
          ground (arith, taken),
          All-map (λ g. is_current b g.report ≡ true) (λ g. is_current true g.report ≡ true) p.stack
              (λ g c. is_current-numbered b g.report c) h.1,
          h.2,
          (
            h.3.0,
            h.3.1,
            All-map (IsClaimed b o) (IsClaimed true o) p.layout.fields
                (λ f c. (up f first c.0, c.1)) h.3.2,
            All-map (IsField b o) (IsField true o) p.layout.raw_fields (λ f c. up f first c) h.3.3,
            refl,
          ),
        ))

push_global-IsParser : (p : Parser) → IsParser p → OnSome IsParser (push_global p)
unfolding push_global
push_global-IsParser p h =
    if-elim (OnSome IsParser) (length p.stack == 8) _ _ (λ full. tt)
      (λ space. (h.0, (h.0, h.1), h.2, h.3))

pop_global-IsParser :
    (p : Parser) (s : List Global) → p.stack ≡ s → IsParser p → OnSome IsParser (pop_global p s)
unfolding pop_global
pop_global-IsParser p [] e h = tt
pop_global-IsParser p (g ∷ rest) e h =
    let all = subst (All (λ g. is_current p.layout.numbered g.report ≡ true)) e h.1 in
    (all.0, all.1, h.2, h.3)

close_collection-IsParser :
    (p : Parser) (c : List Bool) → IsParser p → OnSome IsParser (close_collection p c)
unfolding close_collection
close_collection-IsParser p [] h = tt
close_collection-IsParser p (c ∷ rest) h = h

-- Both branches keep the invariant.
step-if :
    (b : Bool) (x y : Option Parser)
    → OnSome IsParser x
    → OnSome IsParser y
    → OnSome IsParser (if b then x else y)
step-if b x y h k = if-elim (OnSome IsParser) b x y (λ _. h) (λ _. k)

global_item-IsParser :
    (p : Parser) (tag v n : ℕ) → IsParser p → OnSome IsParser (global_item p tag v n)
unfolding global_item
global_item-IsParser p tag v n h = step-if (tag == 0) _ _ h (
    step-if (tag == 1) _ _ h (
      step-if (tag == 2) _ _ h (
        step-if (tag == 7) _ _ h (
          step-if (tag == 8) _ _ (number_report-IsParser p v h) (
            step-if (tag == 9) _ _ h (
              step-if (tag == 10) _ _ (push_global-IsParser p h)
                (step-if (tag == 11) _ _ (pop_global-IsParser p p.stack refl h) h)))))))

local_item-IsParser : (p : Parser) (tag v : ℕ) → IsParser p → OnSome IsParser (local_item p tag v)
unfolding local_item
local_item-IsParser p tag v h =
    step-if (tag == 0) _ _ (step-if (length p.usages == 96) _ _ tt h)
      (step-if (tag == 1) _ _ h (step-if (tag == 2) _ _ h h))

input_item-IsParser : (p : Parser) (flags : ℕ) → IsParser p → OnSome IsParser (input_item p flags)
unfolding input_item
input_item-IsParser p flags h =
    let b = p.layout.numbered in
    let n = p.g.bits * p.g.count in
    let o' = get_or (add_bits p.offsets p.g.report n) 0 0 in
    if-elim (OnSome IsParser) (input_refused p) _ _ (λ refused. tt)
      (λ taken.
        OnSome-bind (IsLayoutOf b o') IsParser (add_elements p flags p.g.count 0 p.layout)
          (λ l. some (advance p l))
          (input_elements-IsLayoutOf p flags o' taken h.0
            (λ many.
              add_bits-counted p.offsets p.g.report n h.2
                (mul-positive p.g.bits p.g.count (ground (arith, taken)) many))
            (IsLayoutOf-later b (offset_of p 0) o' p.layout (add_bits-le p.offsets p.g.report n)
              h.3))
          (λ l k.
            subst (λ b'. IsParserOf b' (advance p l)) (sym k.4)
              (h.0, h.1, length-set p.offsets p.g.report (offset_of p p.g.report + n) ∙ h.2, k)))

open_application-IsParser :
    (p : Parser) (page usage : ℕ) → IsParser p → OnSome IsParser (open_application p page usage)
unfolding open_application
open_application-IsParser p page usage h =
    step-if (length p.collections == 0 && is_other_device page usage) none _ tt h

open_collection-IsParser : (p : Parser) (v : ℕ) → IsParser p → OnSome IsParser (open_collection p v)
unfolding open_collection
open_collection-IsParser p v h = step-if (length p.collections == 16) none _ tt (
    step-if (v == 1) _ (some (record p { collections = in_gamepad p ∷ p.collections }))
      (open_application-IsParser p _ _ h) h)

main_item-IsParser : (p : Parser) (tag v : ℕ) → IsParser p → OnSome IsParser (main_item p tag v)
unfolding main_item
main_item-IsParser p tag v h = step-if (tag == 10) _ _ (open_collection-IsParser p v h) (
    step-if (tag == 12) _ _ (close_collection-IsParser p p.collections h)
      (step-if (tag == 8) _ (some p) (input_item-IsParser p v h) h))

item-IsParser : (p : Parser) (type tag v n : ℕ) → IsParser p → OnSome IsParser (item p type tag v n)
unfolding item
item-IsParser p type tag v n h = step-if (type == 1) _ _ (global_item-IsParser p tag v n h) (
    step-if (type == 2) _ _ (local_item-IsParser p tag v h) (
      step-if (type == 0) _ _
        (OnSome-bind IsParser IsParser (main_item p tag v) (λ q. some (clear_locals q))
          (main_item-IsParser p tag v h) (λ q k. k))
        h))

parse_items-IsParser :
    (skip : ℕ) (d : List ℕ) (p : Parser) → IsParser p → OnSome IsParser (parse_items skip d p)
unfolding parse_items on_prefix
parse_items-IsParser skip [] p h = h
parse_items-IsParser (suc skip) (b ∷ rest) p h = parse_items-IsParser skip rest p h
parse_items-IsParser zero (b ∷ rest) p h =
    OnSome-bind IsParser IsParser (on_prefix p b rest) (λ q. parse_items (item_bytes b) rest q)
      (step-if (b == 0xfe || ltb (length rest) (item_bytes b)) none _ tt
        (item-IsParser p _ _ _ _ h))
      (λ q k. parse_items-IsParser (item_bytes b) rest q k)

abbrev pub IsReadableClaimed : Bool → HidField → Type 0
IsReadableClaimed numbered f = IsReadable numbered f × (is_sound_usage f ≡ true)

-- What the readers of the reports rely on.
abbrev pub IsLayout : HidLayout → Type 0
IsLayout l =
    (length l.fields ≤ 96)
    × (length l.raw_fields ≤ 96)
    × All (IsReadableClaimed l.numbered) l.fields
    × All (IsReadable l.numbered) l.raw_fields
    × (1 ≤ length l.fields + length l.raw_fields)

accept-IsLayout : (p : Parser) → IsParser p → OnSome IsLayout (accept p)
unfolding accept
accept-IsLayout p h =
    if-elim (OnSome IsLayout)
      (ltb 0 (length p.collections) || ltb 0 (length p.stack) || no_fields p.layout) _ _
      (λ refused. tt)
      (λ taken.
        let b = p.layout.numbered in
        let o = offset_of p 0 in
        (
          h.3.0,
          h.3.1,
          All-map (IsClaimed b o) (IsReadableClaimed b) p.layout.fields (λ f c. (c.0.0, c.1)) h.3.2,
          All-map (IsField b o) (IsReadable b) p.layout.raw_fields (λ f c. c.0) h.3.3,
          ground (arith, taken),
        ))

-- A layout that the parser accepts has a field and at most 96 of each kind. Every field has 1 to
-- 32 bits within the 8,192 bits of a report and a minimum below its maximum; its report id is 1 to
-- 255 in a numbered layout and 0 in another, so that a report can reach it; a Button field and a
-- Button array have a usage of at least 1.
pub parse_descriptor-IsLayout :
    (d : List ℕ) (l : HidLayout) → parse_descriptor d ≡ some l → IsLayout l
unfolding parse_descriptor
parse_descriptor-IsLayout d l h =
    OnSome-value IsLayout (parse_items 0 d start >>= λ p. accept p) l
      (OnSome-bind IsParser IsLayout (parse_items 0 d start) (λ p. accept p)
        (parse_items-IsParser 0 d start (refl, tt, refl, (omega arith, omega arith, tt, tt, refl)))
        accept-IsLayout)
      h
