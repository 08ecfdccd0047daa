-- ===== src/Bt/Crc32/Bitwise.antt =====
-- The table of core/src/bt/crc32.c against the division of polynomials, bit by bit.
use Prim.Native.Nat.{bit_and, bit_xor}
use ghostcontrol_ps5_usb_con.Base.{
  ◌≡◌, refl, sym, ap, ap₂, ◌∙◌, ℕ, zero, suc, ◌*◌, ◌/◌, ◌%◌, ◌<◌, arith, List, [], ◌∷◌, All, ◌==◌,
  if◌then◌else◌, Bool-cases, inl, inr,
}
use ghostcontrol_ps5_usb_con.Base.Xors.{
  xor_assoc, xor-double, xor-halved, xor-zero, xor-low, and-ones, shifted, halved, low,
}
use ghostcontrol_ps5_usb_con.Bt.Crc32.{rounds, g_table, update}

-- The checksum with no table: a byte is added at the low end and divided out in eight rounds.
pub by_bits : ℕ → List ℕ → ℕ
by_bits crc [] = crc
by_bits crc (p ∷ rest) = by_bits (rounds 8 (bit_xor crc p)) rest

abbrev polynomial : ℕ
polynomial = 0xEDB88320

abbrev one_round : ℕ → ℕ
one_round c = if c % 2 == 1 then bit_xor polynomial (c / 2) else c / 2

round-odd : (c : ℕ) → c % 2 ≡ 1 → one_round c ≡ bit_xor polynomial (c / 2)
round-odd c h = ground (arith, h)

round-even : (c : ℕ) → c % 2 ≡ 0 → one_round c ≡ c / 2
round-even c h = ground (arith, h)

-- Higher digits pass through a round.
one_round-shifted : (a y : ℕ) → one_round (bit_xor a (2 * y)) ≡ bit_xor (one_round a) y
one_round-shifted a y =
    let d = xor-double a y in
    let x = bit_xor a (2 * y) in
    elim (Bool-cases (a % 2 == 1)) [
      | inl odd ↦
          let one : a % 2 ≡ 1 = ground (arith, odd) in
          round-odd x (d.1 ∙ one)
          ∙ ap (bit_xor polynomial) d.0
          ∙ xor_assoc polynomial (a / 2) y
          ∙ ap (λ c. bit_xor c y) (sym (round-odd a one))
      | inr even ↦
          let none : a % 2 ≡ 0 = ground (arith, even) in
          round-even x (d.1 ∙ none) ∙ d.0 ∙ ap (λ c. bit_xor c y) (sym (round-even a none))
    ]

rounds-shifted : (n a b : ℕ) → rounds n (bit_xor a (shifted n b)) ≡ bit_xor (rounds n a) b
unfolding rounds
rounds-shifted zero a b = refl
rounds-shifted (suc n) a b =
    ap (rounds n) (one_round-shifted a (shifted n b)) ∙ rounds-shifted n (one_round a) b

-- Eight rounds are the entry of the low byte, and the other bytes.
rounds-g_table : (x : ℕ) → rounds 8 x ≡ bit_xor (g_table (bit_and x 0xFF)) (halved 8 x)
unfolding g_table
rounds-g_table x =
    ap (rounds 8) (sym (xor-low 8 x))
    ∙ rounds-shifted 8 (low 8 x) (halved 8 x)
    ∙ ap (λ e. bit_xor (rounds 8 e) (halved 8 x)) (sym (and-ones 8 x))

-- A byte has no digits beyond the eighth.
halved-byte : (crc p : ℕ) → p < 256 → halved 8 (bit_xor crc p) ≡ crc / 256
halved-byte crc p h =
    let none : halved 8 p ≡ 0 = omega arith in
    let all : halved 8 crc ≡ crc / 256 = omega arith in
    xor-halved 8 crc p ∙ ap₂ bit_xor all none ∙ xor-zero (crc / 256)

-- For bytes, the loop over the table computes what the division bit by bit does, from any start.
pub update-by_bits :
    (crc : ℕ) (bytes : List ℕ) → All (λ p. p < 256) bytes → update crc bytes ≡ by_bits crc bytes
unfolding update by_bits
update-by_bits crc [] h = refl
update-by_bits crc (p ∷ rest) h =
    let x = bit_xor crc p in
    let entry = g_table (bit_and x 0xFF) in
    let one : bit_xor entry (crc / 256) ≡ rounds 8 x =
      ap (bit_xor entry) (sym (halved-byte crc p h.0)) ∙ sym (rounds-g_table x) in
    ap (λ c. update c rest) one ∙ update-by_bits (rounds 8 x) rest h.1
