-- ===== src/Usb/Admission/Families.antt =====
-- What core/src/gc_usb_admission.c admits.
use ghostcontrol_ps5_usb_con.Base.{
  ℕ, ◌≡◌, ◌≢◌, ◌⊎◌, inl, inr, refl, Bool-cases, true, false, Option, none, some, arith,
}
use ghostcontrol_ps5_usb_con.Usb.Admission.{
  UsbInterface, UsbFamily, unqualified, gip, target_none, skip, family_pairs, interface_is_gip,
  kind_agrees, kind_of, is_skipped, find_pair, qualify, family, route, route_in, enabled_count,
  route_template,
}

qualify_sound :
    (o : Option UsbFamily) (i : Option UsbInterface)
    → qualify o i ≢ unqualified
    → (o ≡ some (qualify o i))
      × (kind_agrees (qualify o i) (kind_of i) ≡ true)
      × (is_skipped i ≡ false)
unfolding qualify
qualify_sound o i h = ground arith

-- A family is granted only by the interface's GIP signature, for GIP, or by the pair of numbers,
-- to the family that the table has for that pair, and then only on an interface that fits the
-- family and that the refusal table does not refuse.
family_sound :
    (v p : ℕ) (i : Option UsbInterface)
    → family v p i ≢ unqualified
    → ((family v p i ≡ gip) × (interface_is_gip i ≡ true))
      ⊎ ((find_pair family_pairs v p ≡ some (family v p i))
          × (kind_agrees (family v p i) (kind_of i) ≡ true)
          × (is_skipped i ≡ false))
unfolding family
family_sound v p i h = elim (Bool-cases (interface_is_gip i)) [
  | inl g ↦ inl (ground arith)
  | inr g ↦
      let e : family v p i ≡ qualify (find_pair family_pairs v p) i = rw g refl in
      inr (rw e (qualify_sound (find_pair family_pairs v p) i (rw (← e) h)))
]

qualify_skipped :
    (o : Option UsbFamily) (i : Option UsbInterface)
    → is_skipped i ≡ true
    → qualify o i ≡ unqualified
unfolding qualify
qualify_skipped o i k = ground arith

gip_not_skipped : (i : Option UsbInterface) → interface_is_gip i ≡ true → is_skipped i ≡ false
unfolding interface_is_gip is_skipped skip
gip_not_skipped none h = refl
gip_not_skipped (some i) h = ground arith

-- No family is granted on an interface that the refusal table refuses, whatever the device;
-- such an interface never has the GIP signature.
family-skip :
    (v p : ℕ) (i : UsbInterface)
    → is_skipped (some i) ≡ true
    → (family v p (some i) ≡ unqualified) × (interface_is_gip (some i) ≡ false)
unfolding family
family-skip v p i k = elim (Bool-cases (interface_is_gip (some i))) [
  | inl g ↦ absurd (cc (k, gip_not_skipped (some i) g))
  | inr g ↦ (rw g (qualify_skipped (find_pair family_pairs v p) (some i) k), g)
]

-- No route is open: every family is refused, with no target, and no row of the template is
-- enabled.
route_closed :
    (f : UsbFamily)
    → ((route f).0 ≡ false)
      × ((route f).1.routed ≡ false)
      × ((route f).1.target ≡ target_none)
      × ((route f).1.refusal ≢ none)
      × (enabled_count route_template ≡ 0)
unfolding route route_in enabled_count
route_closed f = ground arith
