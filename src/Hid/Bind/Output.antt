-- ===== src/Hid/Bind/Output.antt =====
-- The axis values that core/src/gc_hid.c makes of a bound value.
use ghostcontrol_ps5_usb_con.Base.{
  ◌≡◌, refl, sym, subst, ap, ◌∙◌, ℕ, zero, suc, ◌+◌, ◌-◌, ◌*◌, ◌≤◌, arith, ℤ, pos, negsuc, Bool,
  true, false, leb, leb_ℤ, above, neg, ◌-ℤ◌, ◌*ℤ◌, if◌then◌else◌, if-elim, if_true, if_false, place,
  place_mono, place-none, place-le,
}
use ghostcontrol_ps5_usb_con.Hid.Pad.{Axis, is_trigger}
use ghostcontrol_ps5_usb_con.Hid.Pad.Scaled.{leb_ℤ-refl, above_self}
use ghostcontrol_ps5_usb_con.Hid.Bind.{
  HidAxisBinding, directed, positive_range, negative_range, trigger_output, upper_half, lower_half,
  stick_output, bound_axis,
}

-- The output on one side, without the casts: it reaches `k` at the end of the range.
abbrev side : ℕ → ℕ → ℕ → ℕ
side a k n = if leb n a then k else place a k n

side-le : (a k n : ℕ) → 1 ≤ n → side a k n ≤ k
side-le a k n some_range =
    if-elim (λ r. r ≤ k) (leb n a) k _ (λ far. omega arith)
      (λ near. place-le a k n some_range (ground (arith, near)))

side_mono : (a b k n : ℕ) → 1 ≤ n → a ≤ b → side a k n ≤ side b k n
side_mono a b k n some_range h =
    if-elim (λ r. side a k n ≤ r) (leb n b) k _ (λ far. side-le a k n some_range)
      (λ near.
        if-elim (λ r. r ≤ place b k n) (leb n a) k _ (λ far. absurd (ground (arith, near, far, h)))
          (λ near'. place_mono a b k n some_range h))

side-zero : (k n : ℕ) → 1 ≤ n → side 0 k n ≡ 0
side-zero k n some_range =
    if_false k (place 0 k n) (ground (arith, some_range)) ∙ place-none k n some_range

upper_half-side : (a n : ℕ) → 1 ≤ n → upper_half (pos a) (pos n) ≡ 128 + side a 127 n
unfolding upper_half
upper_half-side a n some_range = ground (arith, some_range, side-le a 127 n some_range)

lower_half-side : (a n : ℕ) → 1 ≤ n → lower_half a (pos n) ≡ 128 - side a 128 n
unfolding lower_half
lower_half-side a n some_range = ground (arith, some_range)

trigger_output-side : (a n : ℕ) → 1 ≤ n → trigger_output (pos a) (pos n) ≡ side a 255 n
unfolding trigger_output
trigger_output-side zero n some_range = ground (arith, some_range, place-none 255 n some_range)
trigger_output-side (suc a) n some_range =
    ground (arith, some_range, side-le (suc a) 255 n some_range)

trigger_output-below : (a n : ℕ) → trigger_output (negsuc a) (pos n) ≡ 0
unfolding trigger_output
trigger_output-below a n = refl

stick_output-above : (a n m : ℕ) → 1 ≤ n → stick_output (pos a) (pos n) (pos m) ≡ 128 + side a 127 n
unfolding stick_output
stick_output-above a n m h =
    if_true {b = leb_ℤ (pos 0) (pos a)} _ (lower_half (above (pos 0) (pos a)) (pos m))
      (ground arith)
    ∙ upper_half-side a n h

stick_output-below :
    (a n m : ℕ) → 1 ≤ m → stick_output (negsuc a) (pos n) (pos m) ≡ 128 - side (suc a) 128 m
unfolding stick_output
stick_output-below a n m h =
    ap (λ k. lower_half k (pos m)) (omega arith) ∙ lower_half-side (suc a) m h

-- The range on a side of the centre has values.
abbrev pub IsRange : ℤ → ℕ → Type 0
IsRange z n = (z ≡ pos n) × (1 ≤ n)

abbrev output : Axis → ℤ → ℤ → ℤ → ℕ
output t d p q = if is_trigger t then trigger_output d p else stick_output d p q

-- More in the direction of the binding is more on the axis, and the axis is a byte.
trigger_output_mono :
    (d e : ℤ) (n : ℕ)
    → 1 ≤ n
    → leb_ℤ d e ≡ true
    → (trigger_output d (pos n) ≤ trigger_output e (pos n)) × (trigger_output e (pos n) ≤ 255)
trigger_output_mono (pos a) (pos b) n some_range h =
    let x = trigger_output-side a n some_range in
    let y = trigger_output-side b n some_range in
    (
      omega (arith, x, y, side_mono a b 255 n some_range (ground (arith, h))),
      omega (arith, y, side-le b 255 n some_range),
    )
trigger_output_mono (pos a) (negsuc b) n some_range h = absurd (ground (arith, h))
trigger_output_mono (negsuc a) (pos b) n some_range h =
    let x : trigger_output (negsuc a) (pos n) ≡ 0 = trigger_output-below a n in
    (
      omega (arith, x),
      omega (arith, trigger_output-side b n some_range, side-le b 255 n some_range),
    )
trigger_output_mono (negsuc a) (negsuc b) n some_range h = (
  omega (arith, trigger_output-below a n, trigger_output-below b n),
  omega (arith, trigger_output-below b n),
)

stick_output_mono :
    (d e : ℤ) (n m : ℕ)
    → 1 ≤ n
    → 1 ≤ m
    → leb_ℤ d e ≡ true
    → (stick_output d (pos n) (pos m) ≤ stick_output e (pos n) (pos m))
      × (stick_output e (pos n) (pos m) ≤ 255)
stick_output_mono (pos a) (pos b) n m hn hm h =
    let x = stick_output-above a n m hn in
    let y = stick_output-above b n m hn in
    (
      omega (arith, x, y, side_mono a b 127 n hn (ground (arith, h))),
      omega (arith, y, side-le b 127 n hn),
    )
stick_output_mono (pos a) (negsuc b) n m hn hm h = absurd (ground (arith, h))
stick_output_mono (negsuc a) (pos b) n m hn hm h =
    let x = stick_output-below a n m hm in
    let y = stick_output-above b n m hn in
    (omega (arith, x, y), omega (arith, y, side-le b 127 n hn))
stick_output_mono (negsuc a) (negsuc b) n m hn hm h =
    let x = stick_output-below a n m hm in
    let y = stick_output-below b n m hm in
    (omega (arith, x, y, side_mono (suc b) (suc a) 128 m hm (ground (arith, h))), omega (arith, y))

at_center : (z c : ℤ) → z *ℤ (c -ℤ c) ≡ pos 0
at_center z c =
    ap (λ d. z *ℤ d)
      (if_true (pos (above c c)) (neg (above c c)) (leb_ℤ-refl c) ∙ ap pos (above_self c))
    ∙ times-zero z
  where
    times-zero : (z : ℤ) → z *ℤ pos 0 ≡ pos 0
    times-zero (pos a) = let e : a * 0 ≡ 0 = omega arith in ap pos e
    times-zero (negsuc a) = let e : suc a * 0 ≡ 0 = omega arith in ap neg e

output_mono :
    (t : Axis) (d e p q : ℤ) (n m : ℕ)
    → IsRange p n
    → IsRange q m
    → leb_ℤ d e ≡ true
    → (output t d p q ≤ output t e p q) × (output t e p q ≤ 255)
output_mono t d e p q n m hn hm h =
    subst (λ p. (output t d p q ≤ output t e p q) × (output t e p q ≤ 255)) (sym hn.0)
      (subst (λ q. (output t d (pos n) q ≤ output t e (pos n) q) × (output t e (pos n) q ≤ 255))
        (sym hm.0) (ranges (is_trigger t)))
  where
    ranges :
        (c : Bool)
        → ((if c then trigger_output d (pos n) else stick_output d (pos n) (pos m))
            ≤ (if c then trigger_output e (pos n) else stick_output e (pos n) (pos m)))
          × ((if c then trigger_output e (pos n) else stick_output e (pos n) (pos m)) ≤ 255)
    ranges true = trigger_output_mono d e n hn.1 h
    ranges false = stick_output_mono d e n m hn.1 hm.1 h

stick_output-zero : (n : ℕ) (q : ℤ) → stick_output (pos 0) (pos n) q ≡ upper_half (pos 0) (pos n)
unfolding stick_output
stick_output-zero n q = refl

output-center :
    (t : Axis) (p q : ℤ) (n : ℕ)
    → IsRange p n
    → output t (pos 0) p q ≡ (if is_trigger t then 0 else 128)
output-center t p q n h =
    subst (λ p. output t (pos 0) p q ≡ (if is_trigger t then 0 else 128)) (sym h.0)
      (rest (is_trigger t))
  where
    rest :
        (c : Bool)
        → (if c then trigger_output (pos 0) (pos n) else stick_output (pos 0) (pos n) q)
          ≡ (if c then 0 else 128)
    rest true = trigger_output-side 0 n h.1 ∙ side-zero 255 n h.1
    rest false =
        stick_output-zero n q ∙ upper_half-side 0 n h.1 ∙ ap (λ s. 128 + s) (side-zero 127 n h.1)

-- For a centre inside the range of the source: the axis goes up with the value in the direction of
-- the binding, and is a byte. In the centre a stick is at 128 and a trigger at 0.
pub bound_axis_mono :
    (b : HidAxisBinding) (t : Axis) (v w : ℤ) (n m : ℕ)
    → IsRange (positive_range b) n
    → IsRange (negative_range b) m
    → leb_ℤ (directed b v) (directed b w) ≡ true
    → (bound_axis b t v ≤ bound_axis b t w)
      × (bound_axis b t w ≤ 255)
      × (bound_axis b t b.center ≡ (if is_trigger t then 0 else 128))
unfolding bound_axis
bound_axis_mono b t v w n m hn hm h =
    let p = positive_range b in
    let q = negative_range b in
    let both = output_mono t (directed b v) (directed b w) p q n m hn hm h in
    (
      both.0,
      both.1,
      ap (λ d. output t d p q) (at_center b.polarity b.center) ∙ output-center t p q n hn,
    )
