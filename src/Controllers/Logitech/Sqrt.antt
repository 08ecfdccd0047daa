-- ===== src/Controllers/Logitech/Sqrt.antt =====
-- The integer square root of core/src/controller_logitech.c.
use ghostcontrol_ps5_usb_con.Base.{
  ◌≡◌, refl, sym, subst, ap, ◌∙◌, ℕ, zero, suc, ◌+◌, ◌*◌, ◌/◌, ◌^◌, ◌≤◌, ◌<◌, arith, Bool, true,
  false, Option, some, ltb, u32, inl, inr, if-elim, mul_mono, Bool-cases,
}
use native.Mathlib.Nat.{
  div-mul-le_self, lt-div-mul-add, le-div_iff_mul-le, div-le_self, mul-div_left,
}
use ghostcontrol_ps5_usb_con.Controllers.Logitech.{newton, isqrt_within, isqrt32, returned}

-- The largest number whose square is not above `n`.
abbrev pub IsRoot : ℕ → ℕ → Type 0
IsRoot n r = (r * r ≤ n) × (n < (r + 1) * (r + 1))

-- Four times a product is at most the square of the sum.
product-le : (a b : ℕ) → 4 * (a * b) ≤ (a + b) * (a + b)
product-le zero b = omega arith
product-le (suc a) zero = omega arith
product-le (suc a) (suc b) = omega (arith, product-le a b)

pub square_mono : (a b : ℕ) → a ≤ b → a * a ≤ b * b
square_mono a b h = omega (arith, mul_mono a b a h, mul_mono a b b h)

-- Half of the sum is not below the root.
next-high : (n x : ℕ) → 1 ≤ x → n < ((x + n / x) / 2 + 1) * ((x + n / x) / 2 + 1)
next-high n x some_x =
    let q = n / x in
    let h = (x + n / x) / 2 in
    let below : n < n / x * x + x = lt-div-mul-add some_x in
    let product = product-le x (q + 1) in
    let square = square_mono (x + (q + 1)) (2 * (h + 1)) (omega arith) in
    omega (arith, below, product, square)

quotient-positive : (n x : ℕ) → 1 ≤ x → x ≤ n → 1 ≤ n / x
quotient-positive n x some_x le = (le-div_iff_mul-le some_x).1 (omega (arith, le))

-- An `x` that the next value is not below is the root.
last-low : (n x : ℕ) → x ≤ (x + n / x) / 2 → x * x ≤ n
last-low n x h =
    let quotient : x ≤ n / x = omega (arith, h) in
    omega (arith, mul_mono x (n / x) x quotient, div-mul-le_self n x)

-- The loop has ended, with the root.
abbrev Rooted : ℕ → Option ℕ → Type 0
Rooted n o = (r : ℕ) × (o ≡ some r) × IsRoot n r

newton-Rooted :
    (fuel n x : ℕ)
    → x ≤ fuel
    → 1 ≤ x
    → x ≤ n
    → n < 2 ^ 31
    → n < (x + 1) * (x + 1)
    → Rooted n (newton fuel n x (u32 (x + n / x) / 2))
unfolding newton
newton-Rooted zero n x enough some_x le small high = absurd (omega (arith, enough, some_x))
newton-Rooted (suc fuel) n x enough some_x le small high =
    let quotient = quotient-positive n x some_x le in
    let y = u32 (x + n / x) / 2 in
    let whole : y ≡ (x + n / x) / 2 = omega (arith, le, small, div-le_self n x) in
    let next : Bool → Option ℕ =
      λ b. elim b [ true ↦ newton fuel n y (u32 (y + n / y) / 2) | false ↦ some x ] in
    elim (Bool-cases (ltb y x)) [
      | inl smaller ↦
          subst (λ b. Rooted n (next b)) (sym smaller)
            (newton-Rooted fuel n y (ground (arith, smaller, enough))
              (omega (arith, whole, quotient, some_x)) (ground (arith, smaller, le)) small
              (subst (λ y. n < (y + 1) * (y + 1)) (sym whole) (next-high n x some_x)))
      | inr done ↦
          subst (λ b. Rooted n (next b)) (sym done)
            (x, refl, (last-low n x (ground (arith, done, whole)), high))
    ]

isqrt_within-Rooted : (n : ℕ) → n < 2 ^ 31 → Rooted n (isqrt_within n n)
unfolding isqrt_within
isqrt_within-Rooted n small =
    if-elim (Rooted n) (ltb n 2) (some n) _ (λ tiny. (n, refl, tiny_root n (ground (arith, tiny))))
      (λ large.
        let some_n : 1 ≤ n = ground (arith, large) in
        let self : n / n ≡ 1 = ap (λ m. m / n) (omega arith) ∙ mul-div_left 1 some_n in
        subst (λ q. Rooted n (newton n n n (u32 (n + q) / 2))) self
          (newton-Rooted n n n (omega arith) some_n (omega arith) small
            (omega (arith, mul_mono 1 n n some_n))))
  where
    tiny_root : (n : ℕ) → n ≤ 1 → IsRoot n n
    tiny_root zero h = (omega arith, omega arith)
    tiny_root (suc zero) h = (omega arith, omega arith)
    tiny_root (suc (suc n)) h = absurd (omega arith)

-- Below 2 ^ 31 the loop ends within `n` rounds, and the function returns the integer square root:
-- the largest number whose square is not above `n`.
pub isqrt32-IsRoot :
    (n : ℕ) → n < 2 ^ 31 → (isqrt_within n n ≡ some (isqrt32 n)) × IsRoot n (isqrt32 n)
unfolding isqrt32
isqrt32-IsRoot n small =
    let (r, ended, root) = isqrt_within-Rooted n small in
    (
      ended ∙ ap (λ o. some (returned o)) (sym ended),
      subst (IsRoot n) (ap returned (sym ended)) root,
    )
