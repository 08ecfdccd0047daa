-- ===== src/Hid/Descriptor/Elements/Shape.antt =====
-- The fields that an accepted input item makes: core/src/gc_hid.c.
use ghostcontrol_ps5_usb_con.Base.{
  element_bound, ◌≡◌, ℕ, zero, suc, ◌+◌, ◌*◌, ◌%◌, ◌^◌, ◌≤◌, ◌<◌, arith, Bool, true, not, ◌&&◌,
  ◌||◌, [], ◌∷◌, length, length-append, All, All-append, ltb, leb, ◌==◌, ltb_ℤ, leb_ℤ,
  if◌then◌else◌, if-elim, subst, sym, OnSome, OnSome-bind,
}
use ghostcontrol_ps5_usb_con.Hid.Layout.{HidField, HidLayout}
use ghostcontrol_ps5_usb_con.Hid.Descriptor.{Parser, offset_of}
use ghostcontrol_ps5_usb_con.Hid.Descriptor.Elements.{
  Element, element, is_button_array, is_claimed, raw_field, claimed_field, add_claimed, keeps_raw,
  add_element, add_elements,
}

-- A numbered layout finds the field by a report id from 1 to 255, another by 0.
abbrev pub is_addressable : Bool → ℕ → Bool
is_addressable numbered report = if numbered then leb 1 report && leb report 255 else report == 0

-- The bits lie within a report, there are values, and a report looks for the field.
abbrev pub IsReadable : Bool → HidField → Type 0
IsReadable numbered f =
    (1 ≤ f.bits)
    × (f.bits ≤ 32)
    × (f.offset + f.bits ≤ 8192)
    × (ltb_ℤ f.minimum f.maximum ≡ true)
    × (is_addressable numbered f.report ≡ true)

-- `o` is the number of bits that report 0 has so far.
abbrev pub IsField : Bool → ℕ → HidField → Type 0
IsField numbered o f = IsReadable numbered f × ((ltb 0 o || leb 1 f.report) ≡ true)

-- The usages that the readers of the fields subtract from are not too small.
abbrev pub is_sound_usage : HidField → Bool
is_sound_usage f =
    if f.is_array
    then leb 1 f.array_usage_min && leb f.array_usage_min f.array_usage_max
    else not (f.page == 9) || leb 1 f.usage

abbrev pub IsClaimed : Bool → ℕ → HidField → Type 0
IsClaimed numbered o f = IsField numbered o f × (is_sound_usage f ≡ true)

abbrev pub IsLayoutOf : Bool → ℕ → HidLayout → Type 0
IsLayoutOf numbered o l =
    (length l.fields ≤ 96)
    × (length l.raw_fields ≤ 96)
    × All (IsClaimed numbered o) l.fields
    × All (IsField numbered o) l.raw_fields
    × (l.numbered ≡ numbered)

module _ (p : Parser) (numbered : Bool) (o : ℕ) (low : 1 ≤ p.g.bits) (high : p.g.bits ≤ 32)
    (room : offset_of p p.g.report + p.g.bits * p.g.count ≤ 8192)
    (found : is_addressable numbered p.g.report ≡ true)
    (counted : (ltb 0 o || leb 1 p.g.report) ≡ true) where
  raw_field-IsField :
      (e : Element)
      → e.index < p.g.count
      → ltb_ℤ p.g.min p.g.max ≡ true
      → IsField numbered o (raw_field p e)
  unfolding raw_field
  raw_field-IsField e lt values =
      let last = element_bound e.index p.g.count p.g.bits lt in
      let small : p.g.report < 256 = ground (arith, found) in
      let r : p.g.report % 2 ^ 8 ≡ p.g.report = omega (arith, small) in
      let b : p.g.bits % 2 ^ 8 ≡ p.g.bits = omega (arith, high) in
      let first : offset_of p p.g.report + e.index * p.g.bits + p.g.bits ≤ 8192 =
        omega (arith, last, room) in
      (
        (
          omega (arith, b, low),
          omega (arith, b, high),
          omega (arith, b, first),
          values,
          subst (λ n. is_addressable numbered n ≡ true) (sym r) found,
        ),
        subst (λ n. (ltb 0 o || leb 1 n) ≡ true) (sym r) counted,
      )

  claimed_field-IsClaimed :
      (e : Element)
      → e.index < p.g.count
      → ltb_ℤ p.g.min p.g.max ≡ true
      → is_claimed p e ≡ true
      → IsClaimed numbered o (claimed_field p e)
  unfolding claimed_field raw_field
  claimed_field-IsClaimed e lt values claimed =
      let shape = raw_field-IsField e lt values in
      if-elim (IsClaimed numbered o) (is_button_array p e.flags) _ _
        (λ array. (shape, ground (arith, array)))
        (λ variable. (shape, ground (arith, variable, claimed)))

  add_claimed-IsLayoutOf :
      (e : Element) (l : HidLayout)
      → e.index < p.g.count
      → is_claimed p e ≡ true
      → IsLayoutOf numbered o l
      → OnSome (IsLayoutOf numbered o) (add_claimed p e l)
  unfolding add_claimed
  add_claimed-IsLayoutOf e l lt claimed h =
      if-elim (OnSome (IsLayoutOf numbered o)) (length l.fields == 96 || leb_ℤ p.g.max p.g.min) _ _
        (λ refused. tt)
        (λ taken.
          let values : ltb_ℤ p.g.min p.g.max ≡ true = ground (arith, taken) in
          let longer = length-append l.fields (claimed_field p e ∷ []) in
          (
            ground (arith, taken, longer, h.0),
            h.1,
            All-append (IsClaimed numbered o) l.fields (claimed_field p e ∷ []) h.2
                (claimed_field-IsClaimed e lt values claimed, tt),
            h.3,
            h.4,
          ))

  add_element-IsLayoutOf :
      (e : Element) (l : HidLayout)
      → e.index < p.g.count
      → IsLayoutOf numbered o l
      → OnSome (IsLayoutOf numbered o) (add_element p e l)
  unfolding add_element
  add_element-IsLayoutOf e l lt h =
      if-elim (OnSome (IsLayoutOf numbered o)) (is_claimed p e) _ _
        (λ claimed. add_claimed-IsLayoutOf e l lt claimed h)
        (λ other.
          if-elim (OnSome (IsLayoutOf numbered o)) (keeps_raw p e l) _ _
            (λ kept.
              let values : ltb_ℤ p.g.min p.g.max ≡ true = ground (arith, kept) in
              let longer = length-append l.raw_fields (raw_field p e ∷ []) in
              (
                h.0,
                ground (arith, kept, longer),
                h.2,
                All-append (IsField numbered o) l.raw_fields (raw_field p e ∷ []) h.3
                    (raw_field-IsField e lt values, tt),
                h.4,
              ))
            (λ full. h))

  pub add_elements-IsLayoutOf :
      (flags n i : ℕ) (l : HidLayout)
      → i + n ≡ p.g.count
      → IsLayoutOf numbered o l
      → OnSome (IsLayoutOf numbered o) (add_elements p flags n i l)
  unfolding add_elements
  add_elements-IsLayoutOf flags zero i l all h = h
  add_elements-IsLayoutOf flags (suc n) i l all h =
      let lt : i < p.g.count = omega arith in
      OnSome-bind (IsLayoutOf numbered o) (IsLayoutOf numbered o)
        (add_element p (element p flags i) l) (λ l'. add_elements p flags n (suc i) l')
        (add_element-IsLayoutOf (element p flags i) l lt h)
        (λ l' h'. add_elements-IsLayoutOf flags n (suc i) l' (omega arith) h')
