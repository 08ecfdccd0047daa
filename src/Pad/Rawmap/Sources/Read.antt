-- ===== src/Pad/Rawmap/Sources/Read.antt =====
-- A bit of the mask and the source that reads it back: core/src/gc_rawmap.c.
use ghostcontrol_ps5_usb_con.Base.{
  ◌≡◌, refl, sym, subst, ap, ◌∙◌, ℕ, zero, suc, ◌+◌, ◌*◌, ◌/◌, ◌%◌, ◌^◌, ◌<◌, arith, Bool, true,
  false, not, ◌&&◌, none, some, List, [], ◌∷◌, length, get_or, take, drop, All, All-take, All-drop,
  get_or-take, leb, ◌==◌, Bool-cases, inl, inr, if◌then◌else◌, if_false,
}
use native.Mathlib.Nat.{div-div-eq-div-mul, zero-div, pow-suc}
use ghostcontrol_ps5_usb_con.Controllers.PadData.{bit, at}
use ghostcontrol_ps5_usb_con.Pad.Rawmap.{digital_range, little_endian, at_most_four, digital_mask}
use ghostcontrol_ps5_usb_con.Pad.Rawmap.Masks.{IsByte, digital_range_inside}
use ghostcontrol_ps5_usb_con.Pad.Rawmap.Sources.{
  index_of, is_one_bit, bit_source, source_at, source_from_mask, bit_on,
}

-- A test of every number below the limit.
abbrev every : ℕ → (ℕ → Bool) → Bool
every zero test = true
every (suc n) test = test n && every n test

every-IsTrue : (n : ℕ) (test : ℕ → Bool) → every n test ≡ true → (k : ℕ) → k < n → test k ≡ true
every-IsTrue zero test all k lt = absurd (omega arith)
every-IsTrue (suc n) test all k lt = elim (Bool-cases (k == n)) [
  | inl same ↦
      let e : n ≡ k = ground (arith, same) in subst (λ m. test m ≡ true) e (ground (arith, all))
  | inr below ↦
      let rest : every n test ≡ true = ground (arith, all) in
      every-IsTrue n test rest k (ground (arith, below, lt))
]

powers : every 32 (λ k. is_one_bit (2 ^ k) && index_of 32 (2 ^ k) == k) ≡ true
unfolding index_of
powers = refl

abbrev digit : ℕ → ℕ → ℕ
digit n i = n / 2 ^ i % 2

pow_byte : (m : ℕ) → 2 ^ (8 + m) ≡ 256 * 2 ^ m
pow_byte m =
    let e : 8 + m ≡ suc (suc (suc (suc (suc (suc (suc (suc m))))))) = omega arith in
    ap (λ i. 2 ^ i) e
    ∙ omega (
      arith,
      pow-suc 2 m,
      pow-suc 2 (suc m),
      pow-suc 2 (suc (suc m)),
      pow-suc 2 (suc (suc (suc m))),
      pow-suc 2 (suc (suc (suc (suc m)))),
      pow-suc 2 (suc (suc (suc (suc (suc m))))),
      pow-suc 2 (suc (suc (suc (suc (suc (suc m)))))),
      pow-suc 2 (suc (suc (suc (suc (suc (suc (suc m))))))),
    )

-- The byte at the front has the first eight digits.
digit-low : (b rest s : ℕ) → s < 8 → digit (b + 256 * rest) s ≡ digit b s
digit-low b rest zero h = omega arith
digit-low b rest (suc zero) h = omega arith
digit-low b rest (suc (suc zero)) h = omega arith
digit-low b rest (suc (suc (suc zero))) h = omega arith
digit-low b rest (suc (suc (suc (suc zero)))) h = omega arith
digit-low b rest (suc (suc (suc (suc (suc zero))))) h = omega arith
digit-low b rest (suc (suc (suc (suc (suc (suc zero)))))) h = omega arith
digit-low b rest (suc (suc (suc (suc (suc (suc (suc zero))))))) h = omega arith
digit-low b rest (suc (suc (suc (suc (suc (suc (suc (suc s)))))))) h = absurd (omega arith)

digit-high : (b rest m : ℕ) → b < 256 → digit (b + 256 * rest) (8 + m) ≡ digit rest m
digit-high b rest m h =
    let whole : (b + 256 * rest) / 256 ≡ rest = omega (arith, h) in
    ap (λ p. (b + 256 * rest) / p % 2) (pow_byte m)
    ∙ ap (λ q. q % 2) (sym (div-div-eq-div-mul (b + 256 * rest) 256 (2 ^ m)))
    ∙ ap (λ q. q / 2 ^ m % 2) whole

digit-zero : (i : ℕ) → digit 0 i ≡ 0
digit-zero i = omega (arith, zero-div (2 ^ i))

little_endian-digit :
    (bs : List ℕ) (q s : ℕ)
    → All IsByte bs
    → s < 8
    → digit (little_endian bs) (q * 8 + s) ≡ digit (get_or bs q 0) s
unfolding little_endian
little_endian-digit [] q s h lt = digit-zero (q * 8 + s) ∙ sym (digit-zero s)
little_endian-digit (b ∷ bs) zero s h lt =
    ap (digit (b + 256 * little_endian bs)) (omega arith) ∙ digit-low b (little_endian bs) s lt
little_endian-digit (b ∷ bs) (suc q) s h lt =
    let place : suc q * 8 + s ≡ 8 + (q * 8 + s) = omega arith in
    ap (digit (b + 256 * little_endian bs)) place
    ∙ digit-high b (little_endian bs) (q * 8 + s) h.0
    ∙ little_endian-digit bs q s h.1 lt

get_or-drop : (o q : ℕ) (xs : List ℕ) → get_or (drop o xs) q 0 ≡ get_or xs (o + q) 0
get_or-drop zero q xs = let e : q ≡ 0 + q = omega arith in ap (λ i. get_or xs i 0) e
get_or-drop (suc o) q [] = refl
get_or-drop (suc o) q (x ∷ xs) =
    let e : suc (o + q) ≡ suc o + q = omega arith in
    get_or-drop o q xs ∙ ap (λ i. get_or (x ∷ xs) i 0) e

source_at-some :
    (report : List ℕ) (k : ℕ)
    → k < (digital_range report).count * 8
    → source_at report k ≡ some (bit_source ((digital_range report).offset + k / 8) (k % 8))
unfolding source_at
source_at-some report k lt =
    let inside = digital_range_inside report in if_false none _ (ground (arith, lt, inside))

bit_on-source :
    (report : List ℕ) (byte shift : ℕ)
    → byte < length report
    → length report < 2 ^ 13
    → shift < 8
    → bit_on report (bit_source byte shift) ≡ bit (at report byte) shift
unfolding bit_on
bit_on-source report byte shift inside small low =
    let b : (byte * 8 + shift) % 2 ^ 16 / 8 ≡ byte = omega (arith, inside, small, low) in
    let s : (byte * 8 + shift) % 2 ^ 16 % 8 ≡ shift = omega (arith, inside, small, low) in
    let P : ℕ → ℕ → Type 0 = λ b' s'.
      (if leb (length report) b' then false else bit (at report b') s')
      ≡ bit (at report byte) shift in
    subst (λ b'. P b' ((byte * 8 + shift) % 2 ^ 16 % 8)) (sym b)
      (subst (P byte) (sym s)
        (if_false false (bit (at report byte) shift) (ground (arith, inside))))

mask-bit :
    (report : List ℕ) (k : ℕ)
    → All IsByte report
    → k < (digital_range report).count * 8
    → bit (digital_mask report) k ≡ bit (at report ((digital_range report).offset + k / 8)) (k % 8)
unfolding digital_mask bit
mask-bit report k bytes lt =
    let r = digital_range report in
    let inside = digital_range_inside report in
    let n = at_most_four r.count in
    let bs = take n (drop r.offset report) in
    let whole : digital_mask report ≡ little_endian bs =
      if_false 0 (little_endian bs) (ground (arith, lt, inside)) in
    let place : k ≡ k / 8 * 8 + k % 8 = omega arith in
    let digits =
      ap (λ i. digit (little_endian bs) i) place
      ∙ little_endian-digit bs (k / 8) (k % 8)
          (All-take IsByte n (drop r.offset report) (All-drop IsByte r.offset report bytes))
          (omega arith)
      ∙ ap (λ b. digit b (k % 8))
          (get_or-take n (drop r.offset report) (k / 8) 0 (ground (arith, lt, inside))
            ∙ get_or-drop r.offset (k / 8) report) in
    ap (λ m. bit m k) whole ∙ ap (λ d. d == 1) digits

-- Bit `k` of the mask of the digital bytes has a source, and the source reads the bit back from the
-- report, which is a list of bytes shorter than 2 ^ 13, so that the place of a bit fits in 16 bits.
source_from_mask-bit_on :
    (report : List ℕ) (k : ℕ)
    → All IsByte report
    → length report < 2 ^ 13
    → k < (digital_range report).count * 8
    → let s = bit_source ((digital_range report).offset + k / 8) (k % 8) in
      (source_from_mask report (2 ^ k) ≡ some s) × (bit_on report s ≡ bit (digital_mask report) k)
unfolding source_from_mask
source_from_mask-bit_on report k bytes small lt =
    let r = digital_range report in
    let inside = digital_range_inside report in
    let table =
      every-IsTrue 32 (λ k. is_one_bit (2 ^ k) && index_of 32 (2 ^ k) == k) powers k
        (omega (arith, lt, inside)) in
    let one : is_one_bit (2 ^ k) ≡ true = ground (arith, table) in
    let index : index_of 32 (2 ^ k) ≡ k = ground (arith, table) in
    (
      if_false none (source_at report (index_of 32 (2 ^ k))) (ap not one)
          ∙ ap (source_at report) index
          ∙ source_at-some report k lt,
      bit_on-source report (r.offset + k / 8) (k % 8) (omega (arith, lt, inside)) small
            (omega arith)
          ∙ sym (mask-bit report k bytes lt),
    )
