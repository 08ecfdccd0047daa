-- ===== src/Controllers/Logitech/Circle.antt =====
-- The sticks of core/src/controller_logitech.c, from a square onto a circle.
use ghostcontrol_ps5_usb_con.Base.{
  ◌≡◌, refl, subst, ap, ◌∙◌, ℕ, zero, suc, ◌+◌, ◌-◌, ◌*◌, ◌/◌, ◌≤◌, ◌<◌, arith, pos, negsuc, neg,
  ◌*ℤ◌, leb, if_true, if_false, true, false, Bool-cases, ◌⊎◌, inl, inr, mul_mono,
}
use native.Mathlib.Nat.{div-le_of_le-mul}
use ghostcontrol_ps5_usb_con.Controllers.Logitech.{
  centered, magnitude, divide, root, to_byte, circular,
}
use ghostcontrol_ps5_usb_con.Controllers.Logitech.Sqrt.{IsRoot, isqrt32-IsRoot, square_mono}

root-IsRoot : (v : ℕ) → IsRoot (32768 - magnitude (centered v) * magnitude (centered v)) (root v)
unfolding root
root-IsRoot v =
    (isqrt32-IsRoot (32768 - magnitude (centered v) * magnitude (centered v)) (omega arith)).1

root-le : (v : ℕ) → root v ≤ 181
root-le v = elim (Bool-cases (leb (root v) 181)) [
  | inl small ↦ ground (arith, small)
  | inr large ↦
      absurd
        (ground (arith, large, square_mono 182 (root v) (ground (arith, large)), (root-IsRoot v).0))
]

-- Without the other coordinate the radius is full.
root-middle : root 128 ≡ 181
root-middle =
    let h = root-IsRoot 128 in
    elim (Bool-cases (leb (root 128) 180)) [
      | inl small ↦
          absurd
            (ground (arith, small, square_mono (root 128 + 1) 181 (ground (arith, small)), h.1))
      | inr large ↦ ground (arith, large, root-le 128)
    ]

divide-neg : (m : ℕ) → divide (neg m) 181 ≡ neg (m / 181)
divide-neg zero = refl
divide-neg (suc m) = refl

to_byte-neg : (q : ℕ) → q ≤ 128 → to_byte (neg q) ≡ 128 - q
to_byte-neg zero h = refl
to_byte-neg (suc q) h = if_false 0 (128 - suc q) (ground (arith, h))

shrunk-le : (a r : ℕ) → r ≤ 181 → a * r / 181 ≤ a
shrunk-le a r h = div-le_of_le-mul 181 (omega (arith, mul_mono r 181 a h))

centered-above : (a : ℕ) → centered (128 + a) ≡ pos a
centered-above a =
    let test : leb 128 (128 + a) ≡ true = ground arith in
    let rest : 128 + a - 128 ≡ a = omega arith in
    if_true (pos (128 + a - 128)) (neg (128 - (128 + a))) test ∙ ap pos rest

centered-below : (a : ℕ) → suc a ≤ 128 → centered (128 - suc a) ≡ negsuc a
centered-below a h =
    let test : leb 128 (128 - suc a) ≡ false = ground (arith, h) in
    let rest : 128 - (128 - suc a) ≡ suc a = omega (arith, h) in
    if_false (pos (128 - suc a - 128)) (neg (128 - (128 - suc a))) test ∙ ap neg rest

-- The distance of a coordinate from the middle shrinks by the root over the norm.
circular-above : (a other : ℕ) → a ≤ 127 → circular (128 + a) other ≡ 128 + a * root other / 181
unfolding circular
circular-above a other h =
    let near = shrunk-le a (root other) (root-le other) in
    ap (λ c. to_byte (divide (c *ℤ pos (root other)) 181)) (centered-above a)
    ∙ if_false 255 (128 + a * root other / 181) (ground (arith, near, h))

circular-below :
    (a other : ℕ) → suc a ≤ 128 → circular (128 - suc a) other ≡ 128 - suc a * root other / 181
unfolding circular
circular-below a other h =
    let near = shrunk-le (suc a) (root other) (root-le other) in
    ap (λ c. to_byte (divide (c *ℤ pos (root other)) 181)) (centered-below a h)
    ∙ ap to_byte (divide-neg (suc a * root other))
    ∙ to_byte-neg (suc a * root other / 181) (omega (arith, near, h))

-- From the value towards the middle.
abbrev pub IsBetween : ℕ → ℕ → Type 0
IsBetween v c = ((128 ≤ c) × (c ≤ v)) ⊎ ((v ≤ c) × (c ≤ 128))

-- A coordinate stays on its side of the middle, within a byte and no further out than it was, so
-- the limits of the source change nothing; and with the other coordinate in the middle it stays
-- where it is.
circular-IsBetween : (v other : ℕ) → v < 256 → IsBetween v (circular v other) × (circular v 128 ≡ v)
circular-IsBetween v other byte = elim (Bool-cases (leb 128 v)) [
  | inl high ↦
      let a = v - 128 in
      let whole : 128 + a ≡ v = ground (arith, high) in
      let small : a ≤ 127 = omega (arith, byte) in
      let near = shrunk-le a (root other) (root-le other) in
      let c = circular-above a other small in
      subst (λ v. IsBetween v (circular v other) × (circular v 128 ≡ v)) whole
        (inl (omega (arith, c), omega (arith, c, near)), circular-above a 128 small ∙ exact_above a)
  | inr low ↦
      let a = 127 - v in
      let whole : 128 - suc a ≡ v = ground (arith, low) in
      let small : suc a ≤ 128 = omega arith in
      let near = shrunk-le (suc a) (root other) (root-le other) in
      let c = circular-below a other small in
      subst (λ v. IsBetween v (circular v other) × (circular v 128 ≡ v)) whole
        (inr (omega (arith, c, near), omega (arith, c)), circular-below a 128 small ∙ exact_below a)
]
  where
    exact_above : (a : ℕ) → 128 + a * root 128 / 181 ≡ 128 + a
    exact_above a = omega (arith, ap (λ r. a * r / 181) root-middle)

    exact_below : (a : ℕ) → 128 - suc a * root 128 / 181 ≡ 128 - suc a
    exact_below a = omega (arith, ap (λ r. suc a * r / 181) root-middle)
