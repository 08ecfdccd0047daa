-- ===== src/Bt/Generic/Reading/Kept.antt =====
-- Reports that a generic pad does not read: core/src/bt/generic.c.
use ghostcontrol_ps5_usb_con.Base.{
  ◌≡◌, refl, ap, ℕ, zero, suc, arith, Bool, true, false, Option, none, some, List, [], ◌∷◌, length,
  get_or, drop, ltb, if-elim, ◌⊎◌, inl, inr,
}
use ghostcontrol_ps5_usb_con.Controllers.PadData.{at}
use ghostcontrol_ps5_usb_con.Bt.Generic.{Field, Controls, ax_hat}
use ghostcontrol_ps5_usb_con.Bt.Generic.Mapping.{Mapping}
use ghostcontrol_ps5_usb_con.Bt.Generic.Reading.{
  PadState, Reader, carried, axis_of, read_axis, read_roles, read_button, read_buttons, read_hat,
  read_controls, fresh, finish_used, generic_parse,
}

-- Until a control is read, the pad is the one before.
abbrev IsKept : PadState → Reader → Type 0
IsKept st r = (r.used ≡ true) ⊎ (r.st ≡ st)

read_axis-IsKept :
    (st : PadState) (d : List ℕ) (i : ℕ) (inverted : Bool) (f : Option Field) (r : Reader)
    → IsKept st r
    → IsKept st (read_axis d i inverted f r)
unfolding read_axis
read_axis-IsKept st d i inverted none r h = h
read_axis-IsKept st d i inverted (some f) r h = inl refl

read_roles-IsKept :
    (st : PadState) (g : Controls) (d : List ℕ) (rid i : ℕ) (roles : List (Option ℕ))
    (inverts : List Bool) (r : Reader)
    → IsKept st r
    → IsKept st (read_roles g d rid i roles inverts r)
unfolding read_roles
read_roles-IsKept st g d rid i [] inverts r h = h
read_roles-IsKept st g d rid i (role ∷ roles) inverts r h =
    read_roles-IsKept st g d rid (suc i) roles (drop 1 inverts) _
      (read_axis-IsKept st d i (get_or inverts 0 false) (carried rid (axis_of g role)) r h)

read_button-IsKept :
    (st : PadState) (d : List ℕ) (m : ℕ) (f : Option Field) (r : Reader)
    → IsKept st r
    → IsKept st (read_button d m f r)
unfolding read_button
read_button-IsKept st d m none r h = h
read_button-IsKept st d m (some f) r h = inl refl

read_buttons-IsKept :
    (st : PadState) (g : Controls) (m : Mapping) (d : List ℕ) (rid n i : ℕ) (r : Reader)
    → IsKept st r
    → IsKept st (read_buttons g m d rid n i r)
unfolding read_buttons
read_buttons-IsKept st g m d rid zero i r h = h
read_buttons-IsKept st g m d rid (suc n) i r h =
    read_buttons-IsKept st g m d rid n (suc i) _
      (read_button-IsKept st d (get_or m.button_map i 0) (carried rid (get_or g.button i none)) r h)

read_hat-IsKept :
    (st : PadState) (d : List ℕ) (f : Option Field) (r : Reader)
    → IsKept st r
    → IsKept st (read_hat d f r)
unfolding read_hat
read_hat-IsKept st d none r h = h
read_hat-IsKept st d (some f) r h = inl refl

read_controls-IsKept :
    (st : PadState) (g : Controls) (m : Mapping) (d : List ℕ) (rid : ℕ) (r : Reader)
    → IsKept st r
    → IsKept st (read_controls g m d rid r)
unfolding read_controls
read_controls-IsKept st g m d rid r h = read_button-IsKept st d _ (carried rid g.back) _ (
    read_button-IsKept st d _ (carried rid g.home) _ (
      read_hat-IsKept st d (carried rid (get_or g.axis ax_hat none)) _ (
        read_buttons-IsKept st g m d rid g.nbuttons 0 _
          (read_roles-IsKept st g d rid 0 m.role m.invert r h))))

finish_used-kept :
    (m : Mapping) (st : PadState) (r : Reader)
    → IsKept st r
    → (finish_used m r).0 ≡ false
    → finish_used m r ≡ (false, st)
finish_used-kept m st r (inl used) e = absurd (ground (arith, used, e))
finish_used-kept m st r (inr same) e =
    if-elim (λ o. o.0 ≡ false → o ≡ (false, st)) r.used _ _ (λ used e. absurd (ground (arith, e)))
      (λ unused e. ap (λ s. (false, s)) same) e

-- A report that the source does not read (PARSE_NONE) leaves the pad as it was: one that is too
-- short for its report id, and one whose id no control has.
pub generic_parse-kept :
    (g : Controls) (m : Mapping) (report : List ℕ) (st : PadState)
    → (generic_parse g m report st).0 ≡ false
    → generic_parse g m report st ≡ (false, st)
unfolding generic_parse
generic_parse-kept g m report st =
    let P : Bool × PadState → Type 0 = λ r. r.0 ≡ false → r ≡ (false, st) in
    let read : (d : List ℕ) (rid : ℕ) → P (finish_used m (read_controls g m d rid (fresh st))) =
      λ d rid.
        finish_used-kept m st (read_controls g m d rid (fresh st))
          (read_controls-IsKept st g m d rid (fresh st) (inr refl)) in
    if-elim P g.has_ids _ _
      (λ ids.
        if-elim P (ltb (length report) 2) _ _ (λ short e. refl)
          (λ enough. read (drop 1 report) (at report 0)))
      (λ plain. read report 0)
