-- ===== src/Pad/Ds4Policy/Selection.antt =====
-- The selection of core/src/gc_ds4_policy.c over all sources.
use ghostcontrol_ps5_usb_con.Base.{
  ℕ, suc, ◌+◌, ◌<◌, ◌%◌, ◌≡◌, ◌≢◌, ◌⊎◌, ◌==◌, inl, inr, refl, sym, subst, Bool-cases, true, false,
  some, List, [], ◌∷◌, ◌++◌, append_assoc, length, length-append, length-take_le, get_elem?,
  get_elem?-append, take, All-append, arith,
}
use ghostcontrol_ps5_usb_con.Pad.Ds4Policy.{
  Ds4Source, Ds4GamePad, Ds4Route, RouteResult, route_ok, search_pads, already_used, match_found,
  select_one, select_loop, select_routes, no_candidate, source_valid, is_duplicate, max_routes,
}
use ghostcontrol_ps5_usb_con.Pad.Ds4Policy.Routes.{
  eligible_pads, ok_count, Distinct, IsRouteOf, Good, Distinct-append, search_single,
}

abbrev new_route : ℕ → ℕ → Ds4GamePad → Ds4Route
new_route i j p = record { source_slot = i % 256; game_slot = j % 256; pad_handle = p.pad_handle }

-- A source gets one route, to the only eligible pad, which no route had, or none.
abbrev Adds : List Ds4Source → Ds4Source → List Ds4GamePad → List Ds4Route → Type 0
Adds before s pads routes =
    (j : ℕ) × (p : Ds4GamePad) × (select_one before s pads routes
      ≡ (route_ok, routes ++ new_route (length before) j p ∷ []))
    × (source_valid s ≡ true)
    × (eligible_pads s pads ≡ p ∷ [])
    × (already_used routes p.pad_handle ≡ false)

abbrev Refuses : RouteResult × List Ds4Route → List Ds4Route → Type 0
Refuses one routes = (one.1 ≡ routes) × (one.0 ≢ route_ok)

one_refused :
    (before : List Ds4Source) (s : Ds4Source) (pads : List Ds4GamePad) (routes : List Ds4Route)
    → ((search_pads s 0 pads no_candidate).candidate_count == 1) ≡ false
    → Refuses (select_one before s pads routes) routes
unfolding select_one match_found
one_refused before s pads routes n = ground arith

one_adds :
    (before : List Ds4Source) (s : Ds4Source) (pads : List Ds4GamePad) (routes : List Ds4Route)
    (j : ℕ) (p : Ds4GamePad)
    → (search_pads s 0 pads no_candidate).candidate_count ≡ 1
    → (search_pads s 0 pads no_candidate).candidate ≡ some (j, p)
    → source_valid s ≡ true
    → is_duplicate before s ≡ false
    → already_used routes p.pad_handle ≡ false
    → select_one before s pads routes ≡ (route_ok, routes ++ new_route (length before) j p ∷ [])
unfolding select_one match_found
one_adds before s pads routes j p c f v d u = rw (v, d, c, f, u) refl

one_cases :
    (before : List Ds4Source) (s : Ds4Source) (pads : List Ds4GamePad) (routes : List Ds4Route)
    → Refuses (select_one before s pads routes) routes ⊎ Adds before s pads routes
unfolding select_one match_found
one_cases before s pads routes =
    let count = (search_pads s 0 pads no_candidate).candidate_count in
    elim (Bool-cases (count == 1)) [
      | inr c ↦ inl (one_refused before s pads routes c)
      | inl c ↦ elim (Bool-cases (source_valid s)) [
        | inr v ↦ inl (ground arith)
        | inl v ↦ elim (Bool-cases (is_duplicate before s)) [
          | inl d ↦ inl (ground arith)
          | inr d ↦
              let one : count ≡ 1 = ground arith in
              let (j, p, found, only) = search_single s 0 pads one in
              elim (Bool-cases (already_used routes p.pad_handle)) [
                | inl u ↦ inl (ground arith)
                | inr u ↦ inr (j, p, one_adds before s pads routes j p one found v d u, v, only, u)
              ]
        ]
      ]
    ]

one-Good :
    (before after : List Ds4Source) (s : Ds4Source) (pads : List Ds4GamePad)
    (routes : List Ds4Route)
    → length before < 256
    → Adds before s pads routes
    → Good (before ++ s ∷ after) pads routes
    → Good (before ++ s ∷ after) pads (select_one before s pads routes).1
one-Good before after s pads routes b (j, p, e, v, only, u) g =
    let r = new_route (length before) j p in
    let here : length before % 256 ≡ length before = omega arith in
    let at : get_elem? (before ++ s ∷ after) r.source_slot ≡ some s =
      rw here (get_elem?-append before s after) in
    let all =
      All-append (IsRouteOf (before ++ s ∷ after) pads) routes (r ∷ []) g.1
        ((s, p, at, v, only, refl), tt) in
    subst (λ o. Good (before ++ s ∷ after) pads o.1) (sym e) (Distinct-append routes r g.0 u, all)

ok_count_other :
    (r : RouteResult) (rs : List RouteResult) → r ≢ route_ok → ok_count (r ∷ rs) ≡ ok_count rs
unfolding ok_count
ok_count_other r rs h = ground arith

-- What holds of the routes and the results over some sources, from the routes so far.
abbrev Selected :
    List Ds4Source → List Ds4GamePad → ℕ → ℕ → List Ds4Route × List RouteResult → Type 0
Selected sources pads count left out =
    Good sources pads out.0 × (length out.0 ≡ count + ok_count out.1) × (length out.1 ≡ left)

loop-Selected :
    (before after : List Ds4Source) (pads : List Ds4GamePad) (routes : List Ds4Route)
    → length before + length after < 256
    → Good (before ++ after) pads routes
    → Selected
        (before ++ after)
        pads
        (length routes)
        (length after)
        (select_loop before after pads routes)
unfolding select_loop ok_count
loop-Selected before [] pads routes b g = (g, omega arith, refl)
loop-Selected before (s ∷ after) pads routes b g =
    let one = select_one before s pads routes in
    let rest = select_loop (before ++ s ∷ []) after pads one.1 in
    let split = append_assoc before (s ∷ []) after in
    let shorter : length (before ++ s ∷ []) + length after < 256 =
      omega (arith, length-append before (s ∷ [])) in
    let next : Good (before ++ s ∷ after) pads one.1
        → Selected (before ++ s ∷ after) pads (length one.1) (length after) rest =
      λ h.
        subst (λ l. Selected l pads (length one.1) (length after) rest) split
          (loop-Selected (before ++ s ∷ []) after pads one.1 shorter
            (subst (λ l. Good l pads one.1) (sym split) h)) in
    elim (one_cases before s pads routes) [
      | inl (same, other) ↦
          let ih = next (subst (λ rs. Good (before ++ s ∷ after) pads rs) (sym same) g) in
          let kept : length one.1 ≡ length routes = rw same refl in
          (ih.0, omega (arith, ih.1, kept, ok_count_other one.0 rest.1 other), omega (arith, ih.2))
      | inr (j, p, e, v, only, u) ↦
          let ih =
            next (one-Good before after s pads routes (omega arith) (j, p, e, v, only, u) g) in
          let r = new_route (length before) j p in
          let grown : length one.1 ≡ length routes + 1 = rw e (length-append routes (r ∷ [])) in
          let counted : ok_count (one.0 ∷ rest.1) ≡ suc (ok_count rest.1) = rw e refl in
          (ih.0, omega (arith, ih.1, grown, counted), omega (arith, ih.2))
    ]

-- For any sources and pads: no two selected routes lead to the same pad handle; each route leads
-- from a valid source at its slot to the one pad that is eligible for that source; there are as
-- many routes as results that are OK; and each of the first four sources has a result.
pub select_routes-Good :
    (sources : List Ds4Source) (pads : List Ds4GamePad)
    → let first = take max_routes sources in
      let out = select_routes sources pads in
      Good first pads out.0 × (length out.0 ≡ ok_count out.1) × (length out.1 ≡ length first)
unfolding select_routes Distinct
select_routes-Good sources pads =
    let first = take max_routes sources in
    let out =
      loop-Selected [] first pads [] (omega (arith, length-take_le max_routes sources)) (tt, tt) in
    (out.0, omega (arith, out.1), out.2)
