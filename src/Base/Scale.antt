-- ===== src/Base/Scale.antt =====
-- Rounded scaling: the place of `a` in 0..n, as a number in 0..k.
use Prim.Native.Nat.{ℕ, zero, suc, ◌+◌, ◌*◌, ◌/◌, ◌≤◌, ◌<◌}
use mathlib.Core.Path.{◌≡◌}
use native.Mathlib.Nat.{le-div_iff_mul-le, div-eq_of_lt-le, div-eq_of_lt, div-mul-le_self}
use native.Mathlib.Omega.{arith}

abbrev pub place : ℕ → ℕ → ℕ → ℕ
place a k n = (a * k + n / 2) / n

pub div_mono : (a b n : ℕ) → 1 ≤ n → a ≤ b → a / n ≤ b / n
div_mono a b n pos le = (le-div_iff_mul-le pos).1 (omega (arith, div-mul-le_self a n, le))

pub mul_mono : (a b k : ℕ) → a ≤ b → a * k ≤ b * k
mul_mono a b zero h = omega arith
mul_mono a b (suc k) h = omega (arith, mul_mono a b k h)

pub place_mono : (a b k n : ℕ) → 1 ≤ n → a ≤ b → place a k n ≤ place b k n
place_mono a b k n pos le =
    div_mono (a * k + n / 2) (b * k + n / 2) n pos (omega (arith, mul_mono a b k le))

pub place-full : (k n : ℕ) → 1 ≤ n → place n k n ≡ k
place-full k n pos = div-eq_of_lt-le n (omega (arith, pos)) (omega (arith, pos))

pub place-none : (k n : ℕ) → 1 ≤ n → place 0 k n ≡ 0
place-none k n pos = div-eq_of_lt (omega (arith, pos))

pub place-le : (a k n : ℕ) → 1 ≤ n → a ≤ n → place a k n ≤ k
place-le a k n pos le = omega (arith, place_mono a n k n pos le, place-full k n pos)

-- `i` steps of `b` and one more, below `c` steps.
pub element_bound : (i c b : ℕ) → i < c → i * b + b ≤ b * c
element_bound i zero b h = absurd (omega arith)
element_bound zero (suc c) b h = omega arith
element_bound (suc i) (suc c) b h = omega (arith, element_bound i c b (omega arith))
