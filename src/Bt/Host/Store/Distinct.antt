-- ===== src/Bt/Host/Store/Distinct.antt =====
-- The store of core/src/bt/host.c keeps one record for an address.
use ghostcontrol_ps5_usb_con.Base.{
  ◌≡◌, refl, sym, subst, ap, ◌∙◌, ℕ, zero, suc, ◌+◌, ◌≤◌, ◌<◌, arith, true, false, List, [], ◌∷◌,
  ◌++◌, length, take, drop, All, All-append, All-take, All-drop, none, some, ◌==◌, length-append,
  length-drop, get_elem?, Option-cases, inl, inr, Bool-cases, ap₂,
}
use ghostcontrol_ps5_usb_con.Bt.Host.Store.{
  DbRec, same_addr, find_from, db_find, empty_rec, with_room, db_put, remove, db_forget, db_max,
}

same_addr_equal : (x y : List ℕ) → same_addr x y ≡ true → x ≡ y
same_addr_equal [] [] h = refl
same_addr_equal [] (b ∷ y) h = absurd (ground (arith, h))
same_addr_equal (a ∷ x) [] h = absurd (ground (arith, h))
same_addr_equal (a ∷ x) (b ∷ y) h =
    let first : a ≡ b = ground (arith, h) in
    ap₂ (λ c z. c ∷ z) first (same_addr_equal x y (ground (arith, h)))

same_addr_self : (x : List ℕ) → same_addr x x ≡ true
same_addr_self [] = refl
same_addr_self (a ∷ x) = ground (arith, same_addr_self x)

-- None of the records has the address.
abbrev pub Absent : List ℕ → List DbRec → Type 0
Absent addr db = All (λ (r : DbRec). same_addr r.addr addr ≡ false) db

-- No two records have the same address.
abbrev pub Distinct : List DbRec → Type 0
Distinct [] = Unit
Distinct (r ∷ rs) = Absent r.addr rs × Distinct rs

find_from-none :
    (i : ℕ) (db : List DbRec) (addr : List ℕ) → find_from i db addr ≡ none → Absent addr db
unfolding find_from
find_from-none i [] addr h = tt
find_from-none i (r ∷ rs) addr h = elim (Bool-cases (same_addr r.addr addr)) [
  | inl same ↦ absurd (ground (arith, h, same))
  | inr other ↦ (other, find_from-none (suc i) rs addr (ground (arith, h, other)))
]

find_from-Absent :
    (i : ℕ) (db : List DbRec) (addr : List ℕ) → Absent addr db → find_from i db addr ≡ none
unfolding find_from
find_from-Absent i [] addr h = refl
find_from-Absent i (r ∷ rs) addr h = ground (arith, h.0, find_from-Absent (suc i) rs addr h.1)

same_addr_sym : (x y : List ℕ) → same_addr x y ≡ false → same_addr y x ≡ false
same_addr_sym x y h = elim (Bool-cases (same_addr y x)) [
  | inl same ↦
      let e : y ≡ x = same_addr_equal y x same in
      absurd (ground (arith, h, subst (λ z. same_addr x z ≡ true) (sym e) (same_addr_self x)))
  | inr other ↦ other
]

abbrev Other : List ℕ → DbRec → Type 0
Other addr r = same_addr r.addr addr ≡ false

-- A record that is appended, of an address that is not there.
Distinct-append :
    (db : List DbRec) (r : DbRec) → Distinct db → Absent r.addr db → Distinct (db ++ r ∷ [])
Distinct-append [] r d a = (tt, tt)
Distinct-append (x ∷ db) r d a = (
  All-append (Other x.addr) db (r ∷ []) d.0 (same_addr_sym x.addr r.addr a.0, tt),
  Distinct-append db r d.1 a.1,
)

Distinct-drop_one : (db : List DbRec) → Distinct db → Distinct (drop 1 db)
Distinct-drop_one [] d = tt
Distinct-drop_one (r ∷ db) d = d.1

find_from-le :
    (k : ℕ) (db : List DbRec) (addr : List ℕ) (j : ℕ) → find_from k db addr ≡ some j → k ≤ j
unfolding find_from
find_from-le k [] addr j h = cc
find_from-le k (r ∷ db) addr j h = ground (arith, h, find_from-le (suc k) db addr j)

All-remove : (P : DbRec → Type 0) (i : ℕ) (db : List DbRec) → All P db → All P (remove i db)
All-remove P i db h =
    All-append P (take i db) (drop (suc i) db) (All-take P i db h) (All-drop P (suc i) db h)

-- The address is gone, and every address that is left is there once.
abbrev pub Gone : List ℕ → List DbRec → List DbRec → Type 0
Gone addr db left = Distinct left × Absent addr left × (suc (length left) ≡ length db)

-- The first record of an address goes, and with it the address.
remove-Gone :
    (db : List DbRec) (k i : ℕ) (addr : List ℕ)
    → Distinct db
    → find_from k db addr ≡ some (k + i)
    → Gone addr db (remove i db)
unfolding find_from
remove-Gone [] k i addr d h = absurd (ground (arith, h))
remove-Gone (r ∷ db) k zero addr d h = elim (Bool-cases (same_addr r.addr addr)) [
  | inl same ↦ (d.1, subst (λ a. Absent a db) (same_addr_equal r.addr addr same) d.0, refl)
  | inr other ↦
      let later : find_from (suc k) db addr ≡ some (k + 0) = ground (arith, h, other) in
      absurd (omega (arith, find_from-le (suc k) db addr (k + 0) later))
]
remove-Gone (r ∷ db) k (suc i) addr d h = elim (Bool-cases (same_addr r.addr addr)) [
  | inl same ↦ absurd (ground (arith, h, same))
  | inr other ↦
      let later : find_from (suc k) db addr ≡ some (suc k + i) = ground (arith, h, other) in
      let rest = remove-Gone db (suc k) i addr d.1 later in
      ((All-remove (Other r.addr) i db d.0, rest.0), (other, rest.1), omega (arith, rest.2))
]

pub record IsStore (db : List DbRec) : Type 0 where
  pub distinct : Distinct db
  pub small : length db ≤ db_max

get_elem?-last : (db : List DbRec) (r : DbRec) → get_elem? (db ++ r ∷ []) (length db) ≡ some r
get_elem?-last [] r = refl
get_elem?-last (x ∷ db) r = get_elem?-last db r

-- What a store has after a pad is put into it: still one record for an address and at most sixteen,
-- and if the pad is new, a blank record of its address as the last one, to which the index leads.
pub record Put (db : List DbRec) (addr : List ℕ) : Type 0 where
  pub store : IsStore (db_put db addr).0
  pub blank :
      db_find db addr ≡ none
      → get_elem? (db_put db addr).0 (db_put db addr).1 ≡ some (empty_rec addr)
  pub known : (i : ℕ) → db_find db addr ≡ some i → db_put db addr ≡ (db, i)

with_room-IsStore :
    (db : List DbRec) (addr : List ℕ)
    → IsStore db
    → Absent addr db
    → Distinct (with_room db) × Absent addr (with_room db) × (length (with_room db) < db_max)
with_room-IsStore db addr v a = elim (Bool-cases (length db == db_max)) [
  | inl full ↦ rw full (
    Distinct-drop_one db v.distinct,
    All-drop (Other addr) 1 db a,
    ground (arith, length-drop 1 db, full),
  )
  | inr free ↦ rw free (v.distinct, a, ground (arith, free, v.small))
]

new_pad-IsStore :
    (db : List DbRec) (addr : List ℕ)
    → IsStore db
    → Absent addr db
    → IsStore (with_room db ++ empty_rec addr ∷ [])
new_pad-IsStore db addr v a =
    let w = with_room-IsStore db addr v a in
    record {
      distinct = Distinct-append (with_room db) (empty_rec addr) w.0 w.1;
      small = omega (arith, length-append (with_room db) (empty_rec addr ∷ []), w.2);
    }

put_known :
    (db : List DbRec) (addr : List ℕ) (i : ℕ) → db_find db addr ≡ some i → db_put db addr ≡ (db, i)
unfolding db_put
put_known db addr i h = ground (arith, h)

put_new :
    (db : List DbRec) (addr : List ℕ)
    → db_find db addr ≡ none
    → db_put db addr ≡ (with_room db ++ empty_rec addr ∷ [], length (with_room db))
unfolding db_put
put_new db addr h = ground (arith, h)

-- Putting a pad into a store keeps it a store, and makes a blank record of a new pad.
pub db-Put-Put : (db : List DbRec) (addr : List ℕ) → IsStore db → Put db addr
db-Put-Put db addr v = record {
  store = elim (Option-cases (db_find db addr)) [
    | inl new ↦
        subst (λ (r : List DbRec × ℕ). IsStore r.0) (sym (put_new db addr new))
          (new_pad-IsStore db addr v (find_from-none 0 db addr (unfold db_find in new)))
    | inr (i, old) ↦ subst (λ (r : List DbRec × ℕ). IsStore r.0) (sym (put_known db addr i old)) v
  ];
  blank = λ new.
      subst (λ (r : List DbRec × ℕ). get_elem? r.0 r.1 ≡ some (empty_rec addr))
        (sym (put_new db addr new)) (get_elem?-last (with_room db) (empty_rec addr));
  known = put_known db addr;
}

forget_known :
    (db : List DbRec) (addr : List ℕ) (i : ℕ)
    → db_find db addr ≡ some i
    → db_forget db addr ≡ remove i db
unfolding db_forget
forget_known db addr i h = ground (arith, h)

forget_unknown : (db : List DbRec) (addr : List ℕ) → db_find db addr ≡ none → db_forget db addr ≡ db
unfolding db_forget
forget_unknown db addr h = ground (arith, h)

-- A store from which the address is gone.
abbrev pub Forgot : List ℕ → List DbRec → Type 0
Forgot addr db = IsStore db × (db_find db addr ≡ none)

removed-Forgot :
    (db : List DbRec) (addr : List ℕ) (i : ℕ)
    → IsStore db
    → db_find db addr ≡ some i
    → Forgot addr (remove i db)
unfolding db_find
removed-Forgot db addr i v old =
    let here : i ≡ 0 + i = omega arith in
    let gone = remove-Gone db 0 i addr v.distinct (old ∙ ap some here) in
    (
      record { distinct = gone.0; small = omega (arith, v.small, gone.2) },
      find_from-Absent 0 (remove i db) addr gone.1,
    )

-- A pad that is forgotten is not found again; the store keeps one record for an address.
pub db_forget-Forgot :
    (db : List DbRec) (addr : List ℕ) → IsStore db → Forgot addr (db_forget db addr)
db_forget-Forgot db addr v = elim (Option-cases (db_find db addr)) [
  | inl new ↦ subst (Forgot addr) (sym (forget_unknown db addr new)) (v, new)
  | inr (i, old) ↦
      subst (Forgot addr) (sym (forget_known db addr i old)) (removed-Forgot db addr i v old)
]
