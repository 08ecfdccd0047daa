-- ===== src/Base/Masks.antt =====
-- `bit_and` and `bit_or` at variables.
use Prim.Native.Nat.{ℕ, zero, suc, ◌+◌, ◌*◌, ◌/◌, ◌%◌, ◌≤◌, min, bit_and, digits, bit_and-bitwise}
use mathlib.Core.Path.{◌≡◌, refl, ap, ◌∙◌}
use native.Mathlib.Omega.{arith}

module _ (low : ℕ → ℕ) (op : ℕ → ℕ → ℕ) where
  -- Any fuel that reaches the first number gives the same digits.
  pub digits-enough : (k l a b : ℕ) → a ≤ k → a ≤ l → digits low op k a b ≡ digits low op l a b
  digits-enough zero zero a b hk hl = refl
  digits-enough zero (suc l) zero b hk hl = refl
  digits-enough (suc k) zero zero b hk hl = refl
  digits-enough (suc k) (suc l) zero b hk hl = refl
  digits-enough zero l (suc a) b hk hl = absurd (omega arith)
  digits-enough (suc k) zero (suc a) b hk hl = absurd (omega arith)
  digits-enough (suc k) (suc l) (suc a) b hk hl =
      let tail = digits-enough k l (suc a / 2) (b / 2) (omega arith) (omega arith) in
      omega (arith, tail)

zero-bit_and : (b : ℕ) → bit_and 0 b ≡ 0
zero-bit_and b = bit_and-bitwise 0 b

-- The lowest digit, and the digits above it.
pub and_digit : (a b : ℕ) → bit_and a b ≡ 2 * bit_and (a / 2) (b / 2) + min (a % 2) (b % 2)
and_digit zero b = omega (arith, zero-bit_and b, zero-bit_and (b / 2))
and_digit (suc a) b =
    let tail =
      digits-enough (λ n. 0) min a (suc a / 2) (suc a / 2) (b / 2) (omega arith) (omega arith) in
    omega (arith, tail, bit_and-bitwise (suc a) b, bit_and-bitwise (suc a / 2) (b / 2))

-- `k` ones.
abbrev pub ones : ℕ → ℕ
ones zero = 0
ones (suc k) = 2 * ones k + 1

-- A number that the ones reach to is kept by them.
pub bit_and-ones : (k a : ℕ) → a ≤ ones k → bit_and a (ones k) ≡ a
bit_and-ones zero zero h = refl
bit_and-ones zero (suc a) h = absurd (omega arith)
bit_and-ones (suc k) a h =
    let half : (2 * ones k + 1) / 2 ≡ ones k = omega arith in
    let tail = bit_and-ones k (a / 2) (omega arith) in
    let digit = and_digit a (2 * ones k + 1) in
    let tail' = ap (bit_and (a / 2)) half ∙ tail in omega (arith, digit, tail')
