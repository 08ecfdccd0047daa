-- ===== src/Hid/Pad/Scaled.antt =====
-- The axis values that core/src/gc_hid.c scales from the range of a field.
use ghostcontrol_ps5_usb_con.Base.{
  ◌≡◌, refl, sym, subst, ap, ap₂, ◌∙◌, ℕ, suc, ◌+◌, ◌≤◌, arith, ℤ, pos, negsuc, true, false, leb_ℤ,
  ltb_ℤ, above, if◌then◌else◌, if-elim, if_false, place, place_mono, place-full, place-none,
  place-le,
}
use native.Mathlib.Nat.{div-eq_of_lt-le}
use ghostcontrol_ps5_usb_con.Hid.Layout.{HidField}
use ghostcontrol_ps5_usb_con.Hid.Pad.{bounded, scaled}

above-positive : (a b : ℤ) → ltb_ℤ a b ≡ true → 1 ≤ above b a
above-positive (pos a) (pos b) h = ground (arith, h)
above-positive (pos a) (negsuc b) h = absurd (ground (arith, h))
above-positive (negsuc a) (pos b) h = omega arith
above-positive (negsuc a) (negsuc b) h = ground (arith, h)

above_mono : (a b c : ℤ) → leb_ℤ a b ≡ true → above a c ≤ above b c
above_mono (pos a) (pos b) (pos c) h = ground (arith, h)
above_mono (pos a) (pos b) (negsuc c) h = ground (arith, h)
above_mono (pos a) (negsuc b) c h = absurd (ground (arith, h))
above_mono (negsuc a) (pos b) (pos c) h = omega arith
above_mono (negsuc a) (pos b) (negsuc c) h = omega arith
above_mono (negsuc a) (negsuc b) (pos c) h = omega arith
above_mono (negsuc a) (negsuc b) (negsuc c) h = ground (arith, h)

leb_ℤ-trans : (a b c : ℤ) → leb_ℤ a b ≡ true → leb_ℤ b c ≡ true → leb_ℤ a c ≡ true
leb_ℤ-trans (pos a) (pos b) (pos c) h k = ground (arith, h, k)
leb_ℤ-trans (pos a) (pos b) (negsuc c) h k = absurd (ground (arith, k))
leb_ℤ-trans (pos a) (negsuc b) c h k = absurd (ground (arith, h))
leb_ℤ-trans (negsuc a) b (pos c) h k = refl
leb_ℤ-trans (negsuc a) (pos b) (negsuc c) h k = absurd (ground (arith, k))
leb_ℤ-trans (negsuc a) (negsuc b) (negsuc c) h k = ground (arith, h, k)

bounded-le : (f : HidField) (v : ℤ) → bounded f v ≤ above f.maximum f.minimum
bounded-le f v =
    if-elim (λ r. r ≤ above f.maximum f.minimum) (ltb_ℤ v f.minimum) 0 _ (λ low. omega arith)
      (λ ok.
        if-elim (λ r. r ≤ above f.maximum f.minimum) (ltb_ℤ f.maximum v) _ _ (λ high. omega arith)
          (λ inside. above_mono v f.maximum f.minimum (ground (arith, inside))))

bounded_mono : (f : HidField) (v w : ℤ) → leb_ℤ v w ≡ true → bounded f v ≤ bounded f w
bounded_mono f v w h =
    if-elim (λ r. r ≤ bounded f w) (ltb_ℤ v f.minimum) 0 _ (λ low. omega arith)
      (λ ok.
        if-elim
          (λ r. (if ltb_ℤ f.maximum v then above f.maximum f.minimum else above v f.minimum) ≤ r)
          (ltb_ℤ w f.minimum) 0 _
          (λ low.
            absurd (ground (arith, ok, low, leb_ℤ-trans f.minimum v w (ground (arith, ok)) h)))
          (λ ok'.
            if-elim
              (λ r.
                r ≤ (if ltb_ℤ f.maximum w then above f.maximum f.minimum else above w f.minimum))
              (ltb_ℤ f.maximum v) _ _
              (λ high.
                if-elim (λ r. above f.maximum f.minimum ≤ r) (ltb_ℤ f.maximum w) _ _
                  (λ high'. omega arith)
                  (λ inside.
                    absurd
                      (ground (arith, high, leb_ℤ-trans v w f.maximum h (ground (arith, inside))))))
              (λ inside.
                if-elim (λ r. above v f.minimum ≤ r) (ltb_ℤ f.maximum w) _ _
                  (λ high'. above_mono v f.maximum f.minimum (ground (arith, inside)))
                  (λ inside'. above_mono v w f.minimum h))))

pub leb_ℤ-refl : (a : ℤ) → leb_ℤ a a ≡ true
leb_ℤ-refl (pos a) = ground arith
leb_ℤ-refl (negsuc a) = ground arith

pub above_self : (a : ℤ) → above a a ≡ 0
above_self (pos a) = omega arith
above_self (negsuc a) = omega arith

leb_ℤ-total : (a b : ℤ) → leb_ℤ a b ≡ false → leb_ℤ b a ≡ true
leb_ℤ-total (pos a) (pos b) h = ground (arith, h)
leb_ℤ-total (pos a) (negsuc b) h = refl
leb_ℤ-total (negsuc a) (pos b) h = absurd (ground (arith, h))
leb_ℤ-total (negsuc a) (negsuc b) h = ground (arith, h)

bounded-minimum : (f : HidField) → ltb_ℤ f.minimum f.maximum ≡ true → bounded f f.minimum ≡ 0
bounded-minimum f range =
    if-elim (λ r. r ≡ 0) (ltb_ℤ f.minimum f.minimum) 0 _ (λ low. refl)
      (λ ok.
        if-elim (λ r. r ≡ 0) (ltb_ℤ f.maximum f.minimum) _ _
          (λ high.
            absurd (ground (arith, range, leb_ℤ-total f.minimum f.maximum (ground (arith, high)))))
          (λ inside. above_self f.minimum))

bounded-maximum :
    (f : HidField)
    → ltb_ℤ f.minimum f.maximum ≡ true
    → bounded f f.maximum ≡ above f.maximum f.minimum
bounded-maximum f range =
    if-elim (λ r. r ≡ above f.maximum f.minimum) (ltb_ℤ f.maximum f.minimum) 0 _
      (λ low. absurd (ground (arith, range, leb_ℤ-total f.minimum f.maximum (ground (arith, low)))))
      (λ ok.
        if-elim (λ r. r ≡ above f.maximum f.minimum) (ltb_ℤ f.maximum f.maximum) _ _ (λ high. refl)
          (λ inside. refl))

scaled-place :
    (f : HidField) (v : ℤ)
    → ltb_ℤ f.minimum f.maximum ≡ true
    → scaled f v ≡ place (bounded f v) 255 (above f.maximum f.minimum)
unfolding scaled
scaled-place f v h =
    let positive = above-positive f.minimum f.maximum h in
    let le = place-le (bounded f v) 255 (above f.maximum f.minimum) positive (bounded-le f v) in
    omega (arith, le)

-- For a field with a minimum below its maximum, as the parser accepts them, the value of the axis
-- goes up with the value of the field, it is a byte, the minimum gives 0 and the maximum 255.
scaled_mono :
    (f : HidField) (v w : ℤ)
    → ltb_ℤ f.minimum f.maximum ≡ true
    → leb_ℤ v w ≡ true
    → (scaled f v ≤ scaled f w)
      × (scaled f w ≤ 255)
      × (scaled f f.minimum ≡ 0)
      × (scaled f f.maximum ≡ 255)
scaled_mono f v w range h =
    let n = above f.maximum f.minimum in
    let some_range = above-positive f.minimum f.maximum range in
    let mono = place_mono (bounded f v) (bounded f w) 255 n some_range (bounded_mono f v w h) in
    let byte = place-le (bounded f w) 255 n some_range (bounded-le f w) in
    (
      omega (arith, scaled-place f v range, scaled-place f w range, mono),
      omega (arith, scaled-place f w range, byte),
      scaled-place f f.minimum range
          ∙ ap (λ b. place b 255 n) (bounded-minimum f range)
          ∙ place-none 255 n some_range,
      scaled-place f f.maximum range
          ∙ ap (λ b. place b 255 n) (bounded-maximum f range)
          ∙ place-full 255 n some_range,
    )

-- The middle of a signed range that is as long on both sides of 0 is the neutral 128.
pub scaled-neutral :
    (f : HidField) (n : ℕ) → f.minimum ≡ negsuc n → f.maximum ≡ pos (suc n) → scaled f (pos 0) ≡ 128
scaled-neutral f n low high =
    let range : ltb_ℤ f.minimum f.maximum ≡ true =
      subst (λ z. ltb_ℤ z f.maximum ≡ true) (sym low)
        (subst (λ z. ltb_ℤ (negsuc n) z ≡ true) (sym high) refl) in
    let half : bounded f (pos 0) ≡ suc n =
      subst
        (λ z.
          (if ltb_ℤ (pos 0) z
            then 0
            else if ltb_ℤ f.maximum (pos 0)
            then above f.maximum z
            else above (pos 0) z)
          ≡ suc n)
        (sym low)
        (subst (λ z. (if ltb_ℤ z (pos 0) then above z (negsuc n) else 0 + suc n) ≡ suc n) (sym high)
          (if_false (suc n + suc n) (0 + suc n) (ground arith) ∙ omega arith)) in
    let whole : above f.maximum f.minimum ≡ suc n + suc n = ap₂ above high low in
    scaled-place f (pos 0) range
    ∙ ap₂ (λ a m. place a 255 m) half whole
    ∙ div-eq_of_lt-le (suc n + suc n) (omega arith) (omega arith)
