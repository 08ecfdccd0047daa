-- ===== src/Bt/Generic/Descriptor/Placed.antt =====
-- Where the controls of core/src/bt/generic.c lie in a report.
use ghostcontrol_ps5_usb_con.Base.{
  ◌≡◌, ℕ, zero, suc, ◌+◌, ◌*◌, ◌≤◌, arith, Bool, ◌&&◌, ◌||◌, Option, none, some, ◌>>=◌, List, [],
  ◌∷◌, length, replicate, get_or, All, All-set, ltb, leb, ◌==◌, if◌then◌else◌, if-elim, OnSome,
  OnSome-bind, OnSome-value, element_bound,
}
use ghostcontrol_ps5_usb_con.Bt.Generic.{
  Field, Controls, HidGlobals, Slot, axis_slot, button_slot, home_slot, back_slot, no_slot, slot_of,
  or_first, fill, put_slot, put_field,
}
use ghostcontrol_ps5_usb_con.Bt.Generic.Descriptor.{
  Walk, start, global_item, local_item, put_fields, bits_of, offset_of, is_data, pop, input_item,
  clear_locals, main_item, item, skip_of, item_size, on_prefix, walk, parse_descriptor,
}

-- A field of 1 to 32 bits within the 4,096 bits of a report.
abbrev pub IsPlaced : Field → Type 0
IsPlaced f = (1 ≤ f.size) × (f.size ≤ 32) × (f.off + f.size ≤ 4096)

abbrev pub IsControls : Controls → Type 0
IsControls g =
    All (OnSome IsPlaced) g.axis
    × All (OnSome IsPlaced) g.button
    × OnSome IsPlaced g.home
    × OnSome IsPlaced g.back
    × (g.nbuttons ≤ 32)

or_first-IsPlaced :
    (o : Option Field) (f : Field) → OnSome IsPlaced o → IsPlaced f → OnSome IsPlaced (or_first o f)
or_first-IsPlaced none f h k = k
or_first-IsPlaced (some old) f h k = h

get_or-IsPlaced :
    (fs : List (Option Field)) (i : ℕ)
    → All (OnSome IsPlaced) fs
    → OnSome IsPlaced (get_or fs i none)
get_or-IsPlaced [] i h = tt
get_or-IsPlaced (x ∷ xs) zero h = h.0
get_or-IsPlaced (x ∷ xs) (suc i) h = get_or-IsPlaced xs i h.1

fill-IsPlaced :
    (fs : List (Option Field)) (i : ℕ) (f : Field)
    → All (OnSome IsPlaced) fs
    → IsPlaced f
    → All (OnSome IsPlaced) (fill fs i f)
fill-IsPlaced fs i f h k =
    All-set (OnSome IsPlaced) fs i (or_first (get_or fs i none) f) h
      (or_first-IsPlaced (get_or fs i none) f (get_or-IsPlaced fs i h) k)

-- A button has a number below 32.
abbrev InRange : Slot → Type 0
InRange (axis_slot i) = Unit
InRange (button_slot i) = suc i ≤ 32
InRange home_slot = Unit
InRange back_slot = Unit
InRange no_slot = Unit

slot_of-InRange : (page usage : ℕ) → InRange (slot_of page usage)
unfolding slot_of
slot_of-InRange page usage =
    if-elim InRange (page == 0x01 && leb 0x30 usage && leb usage 0x37) _ _ (λ h. tt)
      (λ h1.
        if-elim InRange (page == 0x01 && usage == 0x39) _ _ (λ h. tt)
          (λ h2.
            if-elim InRange (page == 0x02 && usage == 0xc5) _ _ (λ h. tt)
              (λ h3.
                if-elim InRange (page == 0x02 && usage == 0xc4) _ _ (λ h. tt)
                  (λ h4.
                    if-elim InRange (page == 0x09 && leb 1 usage && leb usage 32) _ _
                      (λ h. ground (arith, h))
                      (λ h5.
                        if-elim InRange (page == 0x0c && usage == 0x223) _ _ (λ h. tt)
                          (λ h6.
                            if-elim InRange (page == 0x0c && usage == 0x224) back_slot no_slot
                              (λ h. tt) (λ h. tt)))))))

put_slot-IsControls :
    (g : Controls) (s : Slot) (f : Field)
    → InRange s
    → IsControls g
    → IsPlaced f
    → IsControls (put_slot g s f)
unfolding put_slot
put_slot-IsControls g (axis_slot i) f r h k = (fill-IsPlaced g.axis i f h.0 k, h.1, h.2, h.3, h.4)
put_slot-IsControls g (button_slot i) f r h k = (
  h.0,
  fill-IsPlaced g.button i f h.1 k,
  h.2,
  h.3,
  if-elim (λ n. n ≤ 32) (ltb g.nbuttons (suc i)) (suc i) g.nbuttons (λ e. r) (λ e. h.4),
)
put_slot-IsControls g home_slot f r h k = (h.0, h.1, or_first-IsPlaced g.home f h.2 k, h.3, h.4)
put_slot-IsControls g back_slot f r h k = (h.0, h.1, h.2, or_first-IsPlaced g.back f h.3 k, h.4)
put_slot-IsControls g no_slot f r h k = h

module _ (w : Walk) (off : ℕ) (low : 1 ≤ w.gl.size) (high : w.gl.size ≤ 32)
    (room : off + bits_of w ≤ 4096) where
  put_fields-IsControls :
      (n k : ℕ) (g : Controls)
      → k + n ≡ w.gl.count
      → IsControls g
      → IsControls (put_fields w off n k g)
  unfolding put_fields put_field
  put_fields-IsControls zero k g all h = h
  put_fields-IsControls (suc n) k g all h =
      let last = element_bound k w.gl.count w.gl.size (omega (arith, all)) in
      let inside : off + k * w.gl.size + w.gl.size ≤ 4096 = omega (arith, last, room) in
      put_fields-IsControls n (suc k) _ (omega (arith, all)) (
        put_slot-IsControls g _ _ (slot_of-InRange _ _) h
          (omega (arith, low, high), omega (arith, high), omega (arith, inside)))

abbrev IsWalk : Walk → Type 0
IsWalk w = IsControls w.controls

input_item-IsWalk : (w : Walk) (raw : ℕ) → IsWalk w → OnSome IsWalk (input_item w raw)
unfolding input_item
input_item-IsWalk w raw h =
    if-elim (OnSome IsWalk)
      (w.gl.size == 0
        || ltb 32 w.gl.size
        || ltb 4096 w.gl.count
        || ltb 4096 (offset_of w + bits_of w))
      none _ (λ refused. tt)
      (λ taken.
        if-elim IsControls (is_data w raw) _ w.controls
          (λ data_item.
            put_fields-IsControls w (offset_of w) (ground (arith, taken)) (ground (arith, taken))
              (ground (arith, taken)) w.gl.count 0 w.controls (omega arith) h)
          (λ padding. h))

step-if : (b : Bool) (x y : Walk) → IsWalk x → IsWalk y → IsWalk (if b then x else y)
step-if b x y h k = if-elim IsWalk b x y (λ _. h) (λ _. k)

pop-IsWalk : (w : Walk) (s : List HidGlobals) → IsWalk w → IsWalk (pop w s)
unfolding pop
pop-IsWalk w [] h = h
pop-IsWalk w (gl ∷ rest) h = h

global_item-IsWalk : (w : Walk) (tag raw size : ℕ) → IsWalk w → IsWalk (global_item w tag raw size)
unfolding global_item
global_item-IsWalk w tag raw size h = step-if (tag == 0) _ _ h (
    step-if (tag == 1) _ _ h (
      step-if (tag == 2) _ _ h (
        step-if (tag == 7) _ _ h (
          step-if (tag == 8) _ _ h (
            step-if (tag == 9) _ _ h (
              step-if (tag == 10) _ _ (step-if (ltb (length w.stack) 4) _ w h h)
                (step-if (tag == 11) _ w (pop-IsWalk w w.stack h) h)))))))

local_item-IsWalk : (w : Walk) (tag raw size : ℕ) → IsWalk w → IsWalk (local_item w tag raw size)
unfolding local_item
local_item-IsWalk w tag raw size h =
    step-if (tag == 0 && ltb (length w.usages) 64) _ _ h
      (step-if (tag == 1) _ _ h (step-if (tag == 2) _ w h h))

main_item-IsWalk : (w : Walk) (tag raw : ℕ) → IsWalk w → OnSome IsWalk (main_item w tag raw)
unfolding main_item
main_item-IsWalk w tag raw h =
    OnSome-bind IsWalk IsWalk (if tag == 8 then input_item w raw else some w)
      (λ w'. some (clear_locals w'))
      (if-elim (OnSome IsWalk) (tag == 8) _ (some w) (λ e. input_item-IsWalk w raw h) (λ e. h))
      (λ w' k. k)

item-IsWalk :
    (w : Walk) (type tag raw size : ℕ) → IsWalk w → OnSome IsWalk (item w type tag raw size)
unfolding item
item-IsWalk w type tag raw size h =
    if-elim (OnSome IsWalk) (type == 1) _ _ (λ e. global_item-IsWalk w tag raw size h)
      (λ e1.
        if-elim (OnSome IsWalk) (type == 2) _ _ (λ e. local_item-IsWalk w tag raw size h)
          (λ e2.
            if-elim (OnSome IsWalk) (type == 0) _ (some w) (λ e. main_item-IsWalk w tag raw h)
              (λ e. h)))

on_prefix-IsWalk :
    (w : Walk) (prefix : ℕ) (rest : List ℕ) → IsWalk w → OnSome IsWalk (on_prefix w prefix rest)
unfolding on_prefix
on_prefix-IsWalk w prefix rest h =
    if-elim (OnSome IsWalk) (prefix == 0xfe) _ _
      (λ long. if-elim (OnSome IsWalk) (ltb (length rest) 2) none (some w) (λ e. tt) (λ e. h))
      (λ short.
        if-elim (OnSome IsWalk) (ltb (length rest) (item_size prefix)) none _ (λ e. tt)
          (λ e. item-IsWalk w _ _ _ _ h))

walk-IsWalk : (skip : ℕ) (d : List ℕ) (w : Walk) → IsWalk w → OnSome IsWalk (walk skip d w)
unfolding walk
walk-IsWalk skip [] w h = h
walk-IsWalk (suc skip) (b ∷ rest) w h = walk-IsWalk skip rest w h
walk-IsWalk zero (b ∷ rest) w h =
    OnSome-bind IsWalk IsWalk (on_prefix w b rest) (λ w'. walk (skip_of b rest) rest w')
      (on_prefix-IsWalk w b rest h) (λ w' k. walk-IsWalk (skip_of b rest) rest w' k)

nothing-IsPlaced : (n : ℕ) → All (OnSome IsPlaced) (replicate n none)
nothing-IsPlaced zero = tt
nothing-IsPlaced (suc n) = (tt, nothing-IsPlaced n)

-- In the controls that an accepted descriptor gives, every field that is present has 1 to 32 bits
-- and ends within the 4,096 bits of a report, and the highest button is at most 32.
pub parse_descriptor-IsControls :
    (d : List ℕ) (g : Controls) → parse_descriptor d ≡ some g → IsControls g
unfolding parse_descriptor
parse_descriptor-IsControls d g h =
    OnSome-value IsControls (walk 0 d start >>= λ w. some w.controls) g
      (OnSome-bind IsWalk IsControls (walk 0 d start) (λ w. some w.controls)
        (walk-IsWalk 0 d start (nothing-IsPlaced 11, nothing-IsPlaced 32, tt, tt, omega arith))
        (λ w k. k))
      h
