-- ===== src/Hid/Descriptor/Main/Input.antt =====
-- The bits that an input item takes, and the layout after it: core/src/gc_hid.c.
use ghostcontrol_ps5_usb_con.Base.{
  ◌≡◌, refl, sym, subst, ℕ, zero, suc, ◌+◌, ◌*◌, ◌≤◌, arith, Bool, true, false, ◌||◌, List, [], ◌∷◌,
  length, get_or, set, All-map, ltb, leb, ◌==◌, if◌then◌else◌, OnSome, ◌⊎◌, inl, inr,
}
use ghostcontrol_ps5_usb_con.Hid.Layout.{HidField, HidLayout}
use ghostcontrol_ps5_usb_con.Hid.Descriptor.{Parser}
use ghostcontrol_ps5_usb_con.Hid.Descriptor.Elements.{add_elements}
use ghostcontrol_ps5_usb_con.Hid.Descriptor.Elements.Shape.{
  IsField, IsClaimed, IsLayoutOf, add_elements-IsLayoutOf,
}
use ghostcontrol_ps5_usb_con.Hid.Descriptor.Main.{input_refused}

Nat-cases : (n : ℕ) → (n ≡ 0) ⊎ (1 ≤ n)
Nat-cases zero = inl refl
Nat-cases (suc n) = inr (omega arith)

-- Until a report has an id, report 0 is the current one.
abbrev pub is_current : Bool → ℕ → Bool
is_current numbered report = if numbered then leb report 255 else report == 0

abbrev pub add_bits : List ℕ → ℕ → ℕ → List ℕ
add_bits offsets r n = set offsets r (get_or offsets r 0 + n)

-- The bits of report 0 do not become fewer, and there are some when it gets a field.
pub add_bits-le : (xs : List ℕ) (r n : ℕ) → get_or xs 0 0 ≤ get_or (add_bits xs r n) 0 0
add_bits-le [] r n = omega arith
add_bits-le (x ∷ xs) zero n = omega arith
add_bits-le (x ∷ xs) (suc r) n = omega arith

pub add_bits-counted :
    (xs : List ℕ) (r n : ℕ)
    → length xs ≡ 256
    → 1 ≤ n
    → (ltb 0 (get_or (add_bits xs r n) 0 0) || leb 1 r) ≡ true
add_bits-counted [] r n size some_bits = absurd (omega arith)
add_bits-counted (x ∷ xs) zero n size some_bits = ground arith
add_bits-counted (x ∷ xs) (suc r) n size some_bits = ground arith

pub mul-positive : (b c : ℕ) → 1 ≤ b → 1 ≤ c → 1 ≤ b * c
mul-positive zero c hb hc = absurd (omega arith)
mul-positive (suc b) zero hb hc = absurd (omega arith)
mul-positive (suc b) (suc c) hb hc = omega arith

IsField-later : (b : Bool) (o o' : ℕ) (f : HidField) → o ≤ o' → IsField b o f → IsField b o' f
IsField-later b o o' f le h = (h.0, ground (arith, le, h.1))

pub IsLayoutOf-later :
    (b : Bool) (o o' : ℕ) (l : HidLayout) → o ≤ o' → IsLayoutOf b o l → IsLayoutOf b o' l
IsLayoutOf-later b o o' l le h = (
  h.0,
  h.1,
  All-map (IsClaimed b o) (IsClaimed b o') l.fields (λ f c. (IsField-later b o o' f le c.0, c.1))
      h.2,
  All-map (IsField b o) (IsField b o') l.raw_fields (λ f c. IsField-later b o o' f le c) h.3,
  h.4,
)

pub input_elements-IsLayoutOf :
    (p : Parser) (flags : ℕ) (o : ℕ)
    → input_refused p ≡ false
    → is_current p.layout.numbered p.g.report ≡ true
    → (1 ≤ p.g.count → (ltb 0 o || leb 1 p.g.report) ≡ true)
    → IsLayoutOf p.layout.numbered o p.layout
    → OnSome (IsLayoutOf p.layout.numbered o) (add_elements p flags p.g.count 0 p.layout)
unfolding add_elements
input_elements-IsLayoutOf p flags o taken current counted h = elim (Nat-cases p.g.count) [
  | inl z ↦
      subst (λ n. OnSome (IsLayoutOf p.layout.numbered o) (add_elements p flags n 0 p.layout))
        (sym z) h
  | inr nz ↦
      add_elements-IsLayoutOf p p.layout.numbered o (ground (arith, taken)) (ground (arith, taken))
        (ground (arith, taken)) (ground (arith, taken, current)) (counted nz) flags p.g.count 0
        p.layout (omega arith) h
]
