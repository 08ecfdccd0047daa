-- ===== src/Base/Xors.antt =====
-- `bit_xor` at variables, and the lowest digits of a number.
use Prim.Native.Nat.{
  ℕ, zero, suc, ◌+◌, ◌*◌, ◌/◌, ◌%◌, ◌≤◌, ◌<◌, differ, bit_and, bit_xor, bit_xor-bitwise,
}
use mathlib.Core.Path.{◌≡◌, refl, ap, ◌∙◌}
use native.Mathlib.Omega.{arith}
use ghostcontrol_ps5_usb_con.Base.Masks.{digits-enough, and_digit, ones}

differ_bits : (x y : ℕ) → x < 2 → y < 2 → differ x y ≡ (x + y) % 2
differ_bits zero y h k = omega arith
differ_bits (suc zero) zero h k = refl
differ_bits (suc zero) (suc zero) h k = refl
differ_bits (suc zero) (suc (suc y)) h k = absurd (omega arith)
differ_bits (suc (suc x)) y h k = absurd (omega arith)

pub zero-xor : (b : ℕ) → bit_xor 0 b ≡ b
zero-xor b = bit_xor-bitwise 0 b

-- The lowest digit, and the digits above it.
xor_digit : (a b : ℕ) → bit_xor a b ≡ 2 * bit_xor (a / 2) (b / 2) + (a % 2 + b % 2) % 2
xor_digit zero b = omega (arith, zero-xor b, zero-xor (b / 2))
xor_digit (suc a) b =
    let tail =
      digits-enough (λ n. n) differ a (suc a / 2) (suc a / 2) (b / 2) (omega arith) (omega arith) in
    let digit = differ_bits (suc a % 2) (b % 2) (omega arith) (omega arith) in
    omega (arith, tail, digit, bit_xor-bitwise (suc a) b, bit_xor-bitwise (suc a / 2) (b / 2))

pub xor-half : (a b : ℕ) → bit_xor a b / 2 ≡ bit_xor (a / 2) (b / 2)
xor-half a b = omega (arith, xor_digit a b)

pub xor-parity : (a b : ℕ) → bit_xor a b % 2 ≡ (a % 2 + b % 2) % 2
xor-parity a b = omega (arith, xor_digit a b)

xor_assoc_to :
    (k a b c : ℕ) → a ≤ k → b ≤ k → c ≤ k → bit_xor a (bit_xor b c) ≡ bit_xor (bit_xor a b) c
xor_assoc_to zero zero zero zero h i j = refl
xor_assoc_to zero (suc a) b c h i j = absurd (omega arith)
xor_assoc_to zero zero (suc b) c h i j = absurd (omega arith)
xor_assoc_to zero zero zero (suc c) h i j = absurd (omega arith)
xor_assoc_to (suc k) a b c h i j =
    let tail = xor_assoc_to k (a / 2) (b / 2) (c / 2) (omega arith) (omega arith) (omega arith) in
    let left = ap (bit_xor (a / 2)) (xor-half b c) in
    let right = ap (λ x. bit_xor x (c / 2)) (xor-half a b) in
    omega (
      arith,
      tail,
      left,
      right,
      xor_digit a (bit_xor b c),
      xor_digit (bit_xor a b) c,
      xor-parity b c,
      xor-parity a b,
    )

pub xor_assoc : (a b c : ℕ) → bit_xor a (bit_xor b c) ≡ bit_xor (bit_xor a b) c
xor_assoc a b c = xor_assoc_to (a + b + c) a b c (omega arith) (omega arith) (omega arith)

-- `b` with `k` zeros behind it, and `a` without its `k` lowest digits.
abbrev pub shifted : ℕ → ℕ → ℕ
shifted zero b = b
shifted (suc k) b = 2 * shifted k b

abbrev pub halved : ℕ → ℕ → ℕ
halved zero a = a
halved (suc k) a = halved k (a / 2)

-- The `k` lowest digits.
abbrev pub low : ℕ → ℕ → ℕ
low zero a = 0
low (suc k) a = 2 * low k (a / 2) + a % 2

pub xor-double :
    (a c : ℕ) → (bit_xor a (2 * c) / 2 ≡ bit_xor (a / 2) c) × (bit_xor a (2 * c) % 2 ≡ a % 2)
xor-double a c =
    let half : 2 * c / 2 ≡ c = omega arith in
    (xor-half a (2 * c) ∙ ap (bit_xor (a / 2)) half, omega (arith, xor-parity a (2 * c)))

pub xor-halved : (k a b : ℕ) → halved k (bit_xor a b) ≡ bit_xor (halved k a) (halved k b)
xor-halved zero a b = refl
xor-halved (suc k) a b = ap (halved k) (xor-half a b) ∙ xor-halved k (a / 2) (b / 2)

xor_zero_to : (k a : ℕ) → a ≤ k → bit_xor a 0 ≡ a
xor_zero_to zero zero h = refl
xor_zero_to zero (suc a) h = absurd (omega arith)
xor_zero_to (suc k) a h = omega (arith, xor_digit a 0, xor_zero_to k (a / 2) (omega arith))

pub xor-zero : (a : ℕ) → bit_xor a 0 ≡ a
xor-zero a = xor_zero_to a a (omega arith)

-- A number is its lowest digits and the others.
pub xor-low : (k a : ℕ) → bit_xor (low k a) (shifted k (halved k a)) ≡ a
xor-low zero a = zero-xor a
xor-low (suc k) a =
    let d = xor-double (low (suc k) a) (shifted k (halved k (a / 2))) in
    let half : low (suc k) a / 2 ≡ low k (a / 2) = omega arith in
    let tail = ap (λ x. bit_xor x (shifted k (halved k (a / 2)))) half ∙ xor-low k (a / 2) in
    omega (arith, d.0, d.1, tail)

and_zero_to : (k a : ℕ) → a ≤ k → bit_and a 0 ≡ 0
and_zero_to zero zero h = refl
and_zero_to zero (suc a) h = absurd (omega arith)
and_zero_to (suc k) a h = omega (arith, and_digit a 0, and_zero_to k (a / 2) (omega arith))

pub and-ones : (k a : ℕ) → bit_and a (ones k) ≡ low k a
and-ones zero a = and_zero_to a a (omega arith)
and-ones (suc k) a =
    let half : (2 * ones k + 1) / 2 ≡ ones k = omega arith in
    let tail = ap (bit_and (a / 2)) half ∙ and-ones k (a / 2) in
    omega (arith, and_digit a (2 * ones k + 1), tail)
