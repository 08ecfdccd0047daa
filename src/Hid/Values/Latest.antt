-- ===== src/Hid/Values/Latest.antt =====
-- The state of core/src/gc_hid.c as the last value of each coordinate.
use ghostcontrol_ps5_usb_con.Base.{
  ◌≡◌, refl, sym, subst, ap, ◌∙◌, ℕ, suc, ◌+◌, ◌≤◌, arith, ℤ, pos, negsuc, eq_ℤ, Bool, true, false,
  not, Option, none, some, List, [], ◌∷◌, ◌++◌, length, set, ◌==◌, if◌then◌else◌, if-elim, if_true,
  if_false, Bool-cases, length-append, length-set, inl, inr,
}
use ghostcontrol_ps5_usb_con.Hid.Layout.{HidValue, HidLayout, max_fields}
use ghostcontrol_ps5_usb_con.Hid.Values.{
  same_coordinate, place_of, store_value, store_values, store_report, state_update, hid_values,
}

eq_ℤ-equal : (a b : ℤ) → eq_ℤ a b ≡ true → a ≡ b
eq_ℤ-equal (pos a) (pos b) h = ap pos (ground (arith, h))
eq_ℤ-equal (pos a) (negsuc b) h = absurd (ground (arith, h))
eq_ℤ-equal (negsuc a) (pos b) h = absurd (ground (arith, h))
eq_ℤ-equal (negsuc a) (negsuc b) h = ap negsuc (ground (arith, h))

-- Values of one coordinate have it in common with the same values.
same_coordinate_trans :
    (a b c : HidValue) → same_coordinate a b ≡ true → same_coordinate a c ≡ same_coordinate b c
unfolding same_coordinate
same_coordinate_trans a b c h =
    let lo = eq_ℤ-equal a.source.minimum b.source.minimum (ground (arith, h)) in
    let hi = eq_ℤ-equal a.source.maximum b.source.maximum (ground (arith, h)) in
    let off : a.field_offset ≡ b.field_offset = ground (arith, h) in
    let rep : a.source.report ≡ b.source.report = ground (arith, h) in
    let bits : a.source.bits ≡ b.source.bits = ground (arith, h) in
    let page : a.source.page ≡ b.source.page = ground (arith, h) in cc

eq_ℤ-sym : (a b : ℤ) → eq_ℤ a b ≡ eq_ℤ b a
eq_ℤ-sym (pos a) (pos b) = ground arith
eq_ℤ-sym (pos a) (negsuc b) = refl
eq_ℤ-sym (negsuc a) (pos b) = refl
eq_ℤ-sym (negsuc a) (negsuc b) = ground arith

same_coordinate-sym : (a b : HidValue) → same_coordinate a b ≡ same_coordinate b a
unfolding same_coordinate
same_coordinate-sym a b =
    let lo = eq_ℤ-sym a.source.minimum b.source.minimum in
    let hi = eq_ℤ-sym a.source.maximum b.source.maximum in ground (arith, lo, hi)

-- The value stored for the coordinate of another value.
unfoldable pub lookup : List HidValue → HidValue → Option HidValue
lookup [] k = none
lookup (x ∷ xs) k = let rest = lookup xs k in if same_coordinate x k then some x else rest

-- The last value with the coordinate, or the one that was there before.
unfoldable pub newest : List HidValue → HidValue → Option HidValue → Option HidValue
newest [] k old = old
newest (v ∷ vs) k old = newest vs k (if same_coordinate v k then some v else old)

abbrev put_at : List HidValue → ℕ → HidValue → List HidValue
put_at s i v = if i == length s then s ++ v ∷ [] else set s i v

put_at-zero : (x : HidValue) (xs : List HidValue) (v : HidValue) → put_at (x ∷ xs) 0 v ≡ v ∷ xs
put_at-zero x xs v =
    if-elim (λ r. r ≡ v ∷ xs) (0 == suc (length xs)) _ _ (λ e. absurd (ground (arith, e)))
      (λ e. refl)

put_at-suc :
    (x : HidValue) (xs : List HidValue) (i : ℕ) (v : HidValue)
    → put_at (x ∷ xs) (suc i) v ≡ x ∷ put_at xs i v
put_at-suc x xs i v =
    if-elim (λ r. put_at (x ∷ xs) (suc i) v ≡ x ∷ r) (i == length xs) _ _
      (λ e.
        if-elim (λ r. r ≡ x ∷ (xs ++ v ∷ [])) (suc i == suc (length xs)) _ _ (λ e'. refl)
          (λ e'. absurd (ground (arith, e, e'))))
      (λ e.
        if-elim (λ r. r ≡ x ∷ set xs i v) (suc i == suc (length xs)) _ _
          (λ e'. absurd (ground (arith, e, e'))) (λ e'. refl))

abbrev put : List HidValue → HidValue → List HidValue
put s v = put_at s (place_of s v) v

abbrev found : HidValue → HidValue → Option HidValue → Option HidValue
found x k rest = if same_coordinate x k then some x else rest

-- A value behind another one with its coordinate is not seen.
found-found :
    (v x k : HidValue) (o : Option HidValue)
    → same_coordinate x v ≡ true
    → found v k o ≡ found v k (found x k o)
found-found v x k o h =
    hide (same_coordinate v k) (same_coordinate x k) (sym (same_coordinate_trans x v k h))
  where
    hide :
        (b c : Bool)
        → b ≡ c
        → (if b then some v else o) ≡ (if b then some v else if c then some x else o)
    hide true c e = refl
    hide false false e = refl
    hide false true e = absurd (ground (arith, e))

-- Values of different coordinates are found in either order.
found-swap :
    (v x k : HidValue) (o : Option HidValue)
    → same_coordinate x v ≡ false
    → found x k (found v k o) ≡ found v k (found x k o)
found-swap v x k o h =
    swap (same_coordinate v k) (same_coordinate x k) (λ xk.
      same_coordinate-sym v k ∙ same_coordinate_trans k x v (same_coordinate-sym k x ∙ xk) ∙ h)
  where
    swap :
        (b c : Bool)
        → (c ≡ true → b ≡ false)
        → (if c then some x else if b then some v else o)
          ≡ (if b then some v else if c then some x else o)
    swap b false e = refl
    swap false true e = refl
    swap true true e = absurd (ground (arith, e refl))

lookup-put : (s : List HidValue) (v k : HidValue) → lookup (put s v) k ≡ found v k (lookup s k)
unfolding lookup place_of
lookup-put [] v k = refl
lookup-put (x ∷ xs) v k =
    if-elim (λ i. lookup (put_at (x ∷ xs) i v) k ≡ found v k (found x k (lookup xs k)))
      (same_coordinate x v) 0 (suc (place_of xs v))
      (λ same. ap (λ l. lookup l k) (put_at-zero x xs v) ∙ found-found v x k (lookup xs k) same)
      (λ differ.
        ap (λ l. lookup l k) (put_at-suc x xs (place_of xs v) v)
        ∙ ap (found x k) (lookup-put xs v k)
        ∙ found-swap v x k (lookup xs k) differ)

abbrev pub is_known : Option HidValue → Bool
is_known none = false
is_known (some v) = true

-- How many of the values have a coordinate that the state lacks.
abbrev pub missing : List HidValue → List HidValue → ℕ
missing s [] = 0
missing s (v ∷ vs) = (if is_known (lookup s v) then 0 else 1) + missing s vs

place_of-is_known :
    (s : List HidValue) (v : HidValue) → (place_of s v == length s) ≡ not (is_known (lookup s v))
unfolding place_of lookup
place_of-is_known [] v = refl
place_of-is_known (x ∷ xs) v = step (same_coordinate x v) (place_of-is_known xs v)
  where
    step :
        (b : Bool)
        → (place_of xs v == length xs) ≡ not (is_known (lookup xs v))
        → ((if b then 0 else suc (place_of xs v)) == suc (length xs))
          ≡ not (is_known (if b then some x else lookup xs v))
    step true tail = ground arith
    step false tail = ground (arith, tail)

store_value-put :
    (s : List HidValue) (v : HidValue)
    → length s + (if is_known (lookup s v) then 0 else 1) ≤ 96
    → (store_value s v ≡ some (put s v))
      × (length (put s v) ≡ length s + (if is_known (lookup s v) then 0 else 1))
unfolding store_value
store_value-put s v room =
    let place = place_of-is_known s v in
    let more = length-append s (v ∷ []) in
    let same = length-set s (place_of s v) v in
    elim (Bool-cases (place_of s v == length s)) [
      | inl new ↦
          let fits : (length s == max_fields) ≡ false = ground (arith, room, place, new) in
          let p = if_true (s ++ v ∷ []) (set s (place_of s v) v) new in
          (
            if_true _ _ new ∙ if_false none (some (s ++ v ∷ [])) fits ∙ ap some (sym p),
            ground (arith, ap length p, place, new, more),
          )
      | inr known ↦
          let p = if_false (s ++ v ∷ []) (set s (place_of s v) v) known in
          (if_false _ _ known ∙ ap some (sym p), ground (arith, ap length p, place, known, same))
    ]

found-is_known :
    (v k : HidValue) (o : Option HidValue) → is_known o ≡ true → is_known (found v k o) ≡ true
found-is_known v k o h =
    if-elim (λ r. is_known r ≡ true) (same_coordinate v k) _ o (λ e. refl) (λ e. h)

missing-put :
    (s : List HidValue) (v : HidValue) (vs : List HidValue) → missing (put s v) vs ≤ missing s vs
missing-put s v [] = omega arith
missing-put s v (x ∷ vs) =
    let tail = missing-put s v vs in
    let known : is_known (lookup s x) ≡ true → is_known (lookup (put s v) x) ≡ true =
      λ h. ap is_known (lookup-put s v x) ∙ found-is_known v x (lookup s x) h in
    elim (Bool-cases (is_known (lookup s x))) [
      | inl h ↦ ground (arith, tail, h, known h)
      | inr h ↦ ground (arith, tail, h)
    ]

-- The state as a map from coordinates to the values last stored.
abbrev pub IsStored : List HidValue → List HidValue → HidValue → Bool × List HidValue → Type 0
IsStored vs s k r = (r.0 ≡ true) × (length r.1 ≤ 96) × (lookup r.1 k ≡ newest vs k (lookup s k))

store_values-IsStored :
    (vs s : List HidValue) (k : HidValue)
    → length s + missing s vs ≤ 96
    → IsStored vs s k (store_values vs s)
unfolding store_values newest
store_values-IsStored [] s k h = (refl, omega (arith, h), refl)
store_values-IsStored (v ∷ vs) s k h =
    let next : Option (List HidValue) → Bool × List HidValue =
      λ o. elim o [ none ↦ (false, s) | some s' ↦ store_values vs s' ] in
    let stored = store_value-put s v (omega (arith, h)) in
    let rest =
      store_values-IsStored vs (put s v) k (omega (arith, h, stored.1, missing-put s v vs)) in
    subst (λ o. IsStored (v ∷ vs) s k (next o)) (sym stored.0)
      (rest.0, rest.1, rest.2 ∙ ap (newest vs k) (lookup-put s v k))

-- The state is a map from coordinates to values. When a report has values and at most 96
-- coordinates are known with them, the report is stored: every coordinate of the report has its
-- last value, every other one keeps the value it had, and there are still at most 96.
pub state_update-latest :
    (s : List HidValue) (l : HidLayout) (report : List ℕ) (vs : List HidValue) (k : HidValue)
    → hid_values l report max_fields ≡ some vs
    → length s + missing s vs ≤ 96
    → IsStored vs s k (state_update s l report)
unfolding state_update store_report
state_update-latest s l report vs k h room =
    subst (λ o. IsStored vs s k (store_report o s)) (sym h) (store_values-IsStored vs s k room)
