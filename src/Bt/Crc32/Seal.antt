-- ===== src/Bt/Crc32/Seal.antt =====
-- What `crc32_seal_output` leaves in a report.
use ghostcontrol_ps5_usb_con.Base.{
  ◌≡◌, refl, sym, ap, ◌∙◌, ℕ, ◌-◌, ◌≤◌, arith, List, [], ◌∷◌, ◌++◌, length, take, length-append,
  length-take,
}
use ghostcontrol_ps5_usb_con.Bt.Crc32.{hdr, put32, update, crc32_calc, crc32_seal_output}

take-append {ℓ} : {A : Type ℓ} → (xs ys : List A) → take (length xs) (xs ++ ys) ≡ xs
take-append [] ys = refl
take-append (x ∷ xs) ys = ap (λ l. x ∷ l) (take-append xs ys)

-- The bytes that the seal covers.
abbrev pub body : List ℕ → List ℕ
body report = take (length report - 4) report

seal_calc :
    (report : List ℕ)
    → crc32_seal_output report ≡ body report ++ put32 (crc32_calc (hdr ∷ body report))
unfolding crc32_seal_output crc32_calc update
seal_calc report = refl

length-seal :
    (report : List ℕ) → 4 ≤ length report → length (crc32_seal_output report) ≡ length report
length-seal report h =
    ap length (seal_calc report)
    ∙ omega (
      arith,
      length-append (body report) (put32 (crc32_calc (hdr ∷ body report))),
      length-take (length report - 4) report (omega arith),
    )

body-seal : (report : List ℕ) → 4 ≤ length report → body (crc32_seal_output report) ≡ body report
body-seal report h =
    let n : length (crc32_seal_output report) - 4 ≡ length (body report) =
      omega (arith, length-seal report h, length-take (length report - 4) report (omega arith)) in
    ap (λ k. take k (crc32_seal_output report)) n
    ∙ ap (take (length (body report))) (seal_calc report)
    ∙ take-append (body report) (put32 (crc32_calc (hdr ∷ body report)))

-- A report of four bytes or more keeps its length and all but its last four bytes, which become the
-- checksum of the header byte 0xA2 and the bytes before them, the lowest byte first; to seal it once
-- more changes nothing.
crc32_seal_output_lem :
    (report : List ℕ)
    → 4 ≤ length report
    → (length (crc32_seal_output report) ≡ length report)
      × (body (crc32_seal_output report) ≡ body report)
      × (crc32_seal_output report ≡ body report ++ put32 (crc32_calc (hdr ∷ body report)))
      × (crc32_seal_output (crc32_seal_output report) ≡ crc32_seal_output report)
crc32_seal_output_lem report h = (
  length-seal report h,
  body-seal report h,
  seal_calc report,
  seal_calc (crc32_seal_output report)
      ∙ ap (λ b. b ++ put32 (crc32_calc (hdr ∷ b))) (body-seal report h)
      ∙ sym (seal_calc report),
)
