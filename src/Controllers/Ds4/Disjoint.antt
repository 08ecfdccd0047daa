-- ===== src/Controllers/Ds4/Disjoint.antt =====
-- The devices of core/src/controller_ds3.c and core/src/controller_ds4.c.
use ghostcontrol_ps5_usb_con.Base.{
  ◌≡◌, refl, sym, ap₂, ◌∙◌, ℕ, arith, Bool, true, false, not, ◌&&◌, List, [], ◌∷◌, ◌==◌, Bool-cases,
  inl, inr,
}
use ghostcontrol_ps5_usb_con.Controllers.Ds3.{extra_pairs, listed, ds3_is_compatible_vidpid}
use ghostcontrol_ps5_usb_con.Controllers.Ds4.{ds4_is_compatible_vidpid}

-- None of the pairs passes the test.
abbrev none_of : (ℕ → ℕ → Bool) → List (ℕ × ℕ) → Bool
none_of test [] = true
none_of test (pair ∷ rest) = not (test pair.0 pair.1) && none_of test rest

listed-none_of :
    (test : ℕ → ℕ → Bool) (pairs : List (ℕ × ℕ)) (vid pid : ℕ)
    → none_of test pairs ≡ true
    → listed vid pid pairs ≡ true
    → test vid pid ≡ false
listed-none_of test [] vid pid free h = absurd (ground (arith, h))
listed-none_of test (pair ∷ rest) vid pid free h =
    elim (Bool-cases (pair.0 == vid && pair.1 == pid)) [
      | inl same ↦
          let v : pair.0 ≡ vid = ground (arith, same) in
          let p : pair.1 ≡ pid = ground (arith, same) in sym (ap₂ test v p) ∙ ground (arith, free)
      | inr other ↦
          let below : none_of test rest ≡ true = ground (arith, free) in
          let left : listed vid pid rest ≡ true = ground (arith, h, other) in
          listed-none_of test rest vid pid below left
    ]

-- A device that the DualShock 3 module takes is none that the DualShock 4 module takes: no vendor
-- and product belong to both.
ds3_is_compatible_vidpid-not_ds4 :
    (vid pid : ℕ)
    → ds3_is_compatible_vidpid vid pid ≡ true
    → ds4_is_compatible_vidpid vid pid ≡ false
ds3_is_compatible_vidpid-not_ds4 vid pid h =
    listed-none_of ds4_is_compatible_vidpid extra_pairs vid pid refl h
