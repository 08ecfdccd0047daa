-- ===== src/Update/Policy/Order.antt =====
-- The order on versions and the names of releases in core/src/gc_update_policy.c.
use ghostcontrol_ps5_usb_con.Base.{
  ℕ, zero, suc, ◌+◌, ◌-◌, ◌≤◌, ◌≡◌, inl, inr, refl, sym, ap, ◌∙◌, bind_some, Bool-cases, true, some,
  List, [], ◌∷◌, length, take, ◌*◌, ◌&&◌, not, ltb, arith,
}
use ghostcontrol_ps5_usb_con.Base.{ℤ, pos, negsuc}
use ghostcontrol_ps5_usb_con.Update.Policy.{
  Number, Version, digits, part, after_dot, skip_v, is_digit, version_end, parse_version,
  compare_versions, version_compare, starts_with, same_text,
}

abbrev pub neg : ℤ → ℤ
neg (pos zero) = pos zero
neg (pos (suc n)) = negsuc n
neg (negsuc n) = pos (suc n)

compare-neg : (l r : Version) → compare_versions r l ≡ neg (compare_versions l r)
unfolding compare_versions
compare-neg l r = ground arith

compare_zero : (l r : Version) → compare_versions l r ≡ pos 0 → l ≡ r
unfolding compare_versions
compare_zero l r h = ground arith

digits_bound :
    (s : List ℕ) (n : ℕ) (r : Number) → n ≤ 1000009 → digits s n ≡ some r → r.value ≤ 1000009
unfolding digits
digits_bound [] n r b h = ground arith
digits_bound (c ∷ cs) n r b h = elim (Bool-cases (is_digit c && not (ltb 100000 n))) [
  | inl e ↦ digits_bound cs (n * 10 + (c - 48)) r (ground arith) (ground arith)
  | inr e ↦ ground arith
]

part_bound : (s : List ℕ) (r : Number) → part s ≡ some r → r.value ≤ 1000009
unfolding part
part_bound s r h = digits_bound s 0 r (omega arith) (ground arith)

abbrev pub Small : Version → Type 0
Small v = (v.major ≤ 1000009) × (v.minor ≤ 1000009) × (v.patch ≤ 1000009)

version_end-Small :
    (a b : ℕ) (last : Number) (v : Version)
    → a ≤ 1000009
    → b ≤ 1000009
    → last.value ≤ 1000009
    → version_end a b last ≡ some v
    → Small v
unfolding version_end
version_end-Small a b last v ha hb hc h = ground arith

-- A version that is read has parts that fit in 32 bits many times over, so none wrapped around.
pub parse_version-Small : (s : List ℕ) (v : Version) → parse_version s ≡ some v → Small v
unfolding parse_version
parse_version-Small s v h =
    let (first, a, k) = bind_some (part (skip_v s)) _ v h in
    let (tail, d, l) = bind_some (after_dot first.rest) _ v k in
    let (second, b, m) = bind_some (part tail) _ v l in
    let (tail', e, n) = bind_some (after_dot second.rest) _ v m in
    let (third, c, o) = bind_some (part tail') _ v n in
    version_end-Small first.value second.value third v (part_bound (skip_v s) first a)
      (part_bound tail second b) (part_bound tail' third c) o

compared :
    (l r : List ℕ) (z : ℤ)
    → version_compare l r ≡ some z
    → (v : Version) × (w : Version) × (parse_version l ≡ some v)
      × (parse_version r ≡ some w)
      × (some (compare_versions v w) ≡ some z)
unfolding version_compare
compared l r z h =
    let (v, a, k) = bind_some (parse_version l) _ z h in
    let (w, b, m) = bind_some (parse_version r) _ z k in (v, w, a, b, m)

-- Where two versions compare, the other way round they compare to the opposite, and they compare
-- as equal only if they have the same three numbers and are both prereleases or both not.
version_compare-antisymmetric :
    (l r : List ℕ) (z : ℤ)
    → version_compare l r ≡ some z
    → (version_compare r l ≡ some (neg z)) × (z ≡ pos 0 → parse_version l ≡ parse_version r)
unfolding version_compare
version_compare-antisymmetric l r z h =
    let (v, w, a, b, m) = compared l r z h in
    let same : compare_versions v w ≡ z = cc m in
    (
      rw (a, b) (ap some (compare-neg v w ∙ ap neg same)),
      λ e. a ∙ ap some (compare_zero v w (same ∙ e)) ∙ sym b,
    )

pub same_text_equal : (s t : List ℕ) → same_text s t ≡ true → s ≡ t
unfolding same_text
same_text_equal [] [] h = refl
same_text_equal [] (b ∷ t) h = absurd (ground arith)
same_text_equal (a ∷ s) [] h = absurd (ground arith)
same_text_equal (a ∷ s) (b ∷ t) h = ground (arith, same_text_equal s t)

same_text_self : (s : List ℕ) → same_text s s ≡ true
unfolding same_text
same_text_self [] = refl
same_text_self (a ∷ s) = ground (arith, same_text_self s)

pub starts_take : (s p : List ℕ) → starts_with s p ≡ true → take (length p) s ≡ p
unfolding starts_with
starts_take s [] h = refl
starts_take [] (b ∷ p) h = absurd (ground arith)
starts_take (a ∷ s) (b ∷ p) h = ground (arith, starts_take s p)
