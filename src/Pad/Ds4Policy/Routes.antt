-- ===== src/Pad/Ds4Policy/Routes.antt =====
-- The routes that core/src/gc_ds4_policy.c selects, against the pads that match a source.
use ghostcontrol_ps5_usb_con.Base.{
  ℕ, suc, ◌+◌, ◌≡◌, inl, inr, refl, Bool-cases, true, false, if◌then◌else◌, some, List, [], ◌∷◌,
  ◌++◌, length, get_elem?, All, arith,
}
use ghostcontrol_ps5_usb_con.Base.{ℤ, eq_ℤ}
use ghostcontrol_ps5_usb_con.Pad.Ds4Policy.{
  Ds4Source, Ds4GamePad, Ds4Route, RouteResult, route_ok, Search, consider, is_eligible,
  search_pads, already_used, no_candidate, source_valid,
}

-- The pads that a source may feed.
unfoldable pub eligible_pads : Ds4Source → List Ds4GamePad → List Ds4GamePad
eligible_pads s [] = []
eligible_pads s (p ∷ ps) = if is_eligible s p then p ∷ eligible_pads s ps else eligible_pads s ps

-- No two routes lead to the same pad handle.
abbrev pub Apart : ℤ → List Ds4Route → Type 0
Apart h rs = already_used rs h ≡ false

unfoldable pub Distinct : List Ds4Route → Type 0
Distinct [] = Unit
Distinct (r ∷ rs) = Apart r.pad_handle rs × Distinct rs

unfoldable pub ok_count : List RouteResult → ℕ
ok_count [] = 0
ok_count (route_ok ∷ rs) = suc (ok_count rs)
ok_count (r ∷ rs) = ok_count rs

-- The search counts the eligible pads, and where there is one, it is that.
search_count :
    (s : Ds4Source) (i : ℕ) (ps : List Ds4GamePad) (f : Search)
    → (search_pads s i ps f).candidate_count ≡ f.candidate_count + length (eligible_pads s ps)
unfolding search_pads eligible_pads
search_count s i [] f = ground arith
search_count s i (p ∷ ps) f = ground (arith, search_count s (suc i) ps (consider s i p f))

length-none : {A : Type 0} (xs : List A) → length xs ≡ 0 → xs ≡ []
length-none [] h = refl
length-none (x ∷ xs) h = absurd (omega arith)

search_empty :
    (s : Ds4Source) (i : ℕ) (ps : List Ds4GamePad) (f : Search)
    → eligible_pads s ps ≡ []
    → search_pads s i ps f ≡ f
unfolding search_pads eligible_pads
search_empty s i [] f h = refl
search_empty s i (p ∷ ps) f h = ground (arith, search_empty s (suc i) ps f)

-- A search that ends with one candidate found the only eligible pad.
pub search_single :
    (s : Ds4Source) (i : ℕ) (ps : List Ds4GamePad)
    → (search_pads s i ps no_candidate).candidate_count ≡ 1
    → (j : ℕ) × (p : Ds4GamePad) × ((search_pads s i ps no_candidate).candidate ≡ some (j, p))
      × (eligible_pads s ps ≡ p ∷ [])
unfolding search_pads eligible_pads
search_single s i [] h = absurd (ground arith)
search_single s i (p ∷ ps) h = elim (Bool-cases (is_eligible s p)) [
  | inl e ↦
      let f : Search = record { candidate = some (i, p); candidate_count = 1 } in
      let count : (search_pads s (suc i) ps f).candidate_count ≡ 1 = ground arith in
      let none_else =
        length-none (eligible_pads s ps) (omega (arith, count, search_count s (suc i) ps f)) in
      (i, p, ground (arith, search_empty s (suc i) ps f none_else), ground arith)
  | inr e ↦
      let (j, q, c, l) = search_single s (suc i) ps (ground arith) in
      (j, q, ground arith, ground arith)
]

-- The route leads from a valid source to the one pad that is eligible for it.
abbrev pub IsRouteOf : List Ds4Source → List Ds4GamePad → Ds4Route → Type 0
IsRouteOf sources pads r =
    (s : Ds4Source) × (p : Ds4GamePad) × (get_elem? sources r.source_slot ≡ some s)
    × (source_valid s ≡ true)
    × (eligible_pads s pads ≡ p ∷ [])
    × (p.pad_handle ≡ r.pad_handle)

abbrev pub Good : List Ds4Source → List Ds4GamePad → List Ds4Route → Type 0
Good sources pads rs = Distinct rs × All (IsRouteOf sources pads) rs

already_used-append :
    (rs : List Ds4Route) (r : Ds4Route) (h : ℤ)
    → already_used rs h ≡ false
    → eq_ℤ r.pad_handle h ≡ false
    → already_used (rs ++ r ∷ []) h ≡ false
unfolding already_used
already_used-append [] r h u e = ground arith
already_used-append (x ∷ rs) r h u e = ground (arith, already_used-append rs r h)

eq_ℤ_sym : (a b : ℤ) → eq_ℤ a b ≡ eq_ℤ b a
eq_ℤ_sym a b = ground arith

pub Distinct-append :
    (rs : List Ds4Route) (r : Ds4Route)
    → Distinct rs
    → already_used rs r.pad_handle ≡ false
    → Distinct (rs ++ r ∷ [])
unfolding Distinct already_used
Distinct-append [] r d u = (refl, tt)
Distinct-append (x ∷ rs) r d u = (
  already_used-append rs r x.pad_handle d.0 (ground (arith, eq_ℤ_sym x.pad_handle r.pad_handle)),
  Distinct-append rs r d.1 (ground arith),
)
