-- ===== src/Usb/Desc/Endpoints.antt =====
-- The functions that core/src/bt/usb_desc.c finds in a descriptor.
use ghostcontrol_ps5_usb_con.Base.{
  ℕ, zero, suc, ◌+◌, ◌*◌, ◌%◌, ◌≤◌, ◌<◌, ◌≡◌, ◌⊎◌, inl, inr, refl, Bool-cases, true, ◌&&◌, ◌==◌,
  ltb, leb, Option, none, some, List, [], ◌∷◌, length, length-append, length-set, length-drop,
  get_or, drop, All, All-append, All-set, arith,
}
use ghostcontrol_ps5_usb_con.Usb.Desc.{
  HciFunction, new_function, Walk, is_complete, is_hci_class, hci_functions_max, on_interface,
  add_endpoint, write_endpoint, transfer_type, dt_interface, dt_endpoint, on_endpoint,
  on_descriptor, walk, no_walk, keep_complete, find_hci_functions,
}

-- An endpoint that was found goes the way that its use asks for: 0 is none yet.
abbrev pub Directed : HciFunction → Type 0
Directed f =
    ((f.ep_events ≡ 0) ⊎ (128 ≤ f.ep_events % 256))
    × ((f.ep_acl_in ≡ 0) ⊎ (128 ≤ f.ep_acl_in % 256))
    × ((f.ep_acl_out ≡ 0) ⊎ (f.ep_acl_out % 256 < 128))
    × (length f.other ≤ 8)

All-get_or_default :
    {A : Type 0} (P : A → Type 0) (xs : List A) (i : ℕ) (d : A) → All P xs → P d → P (get_or xs i d)
All-get_or_default P [] i d h p = p
All-get_or_default P (x ∷ xs) zero d h p = h.0
All-get_or_default P (x ∷ xs) (suc i) d h p = All-get_or_default P xs i d h.1 p

add_endpoint-Directed :
    (f : HciFunction) (addr attr mps : ℕ) → Directed f → Directed (add_endpoint f addr attr mps)
unfolding add_endpoint
add_endpoint-Directed f addr attr mps v = ground (arith, length-append f.other (addr ∷ []))

abbrev Sound : Walk → Type 0
Sound w = All Directed w.found × (length w.found ≤ 4)

interface_Sound : (w : Walk) (d : List ℕ) → Sound w → Sound (on_interface w d)
unfolding on_interface
interface_Sound w d v =
    elim (Bool-cases (is_hci_class d && ltb (length w.found) hci_functions_max)) [
      | inl e ↦ rw e (
        All-append Directed w.found (new_function (get_or d 2 0) ∷ []) v.0
            (new_Directed (get_or d 2 0), tt),
        ground (arith, length-append w.found (new_function (get_or d 2 0) ∷ [])),
      )
      | inr e ↦ rw e v
    ]
  where
    new_Directed : (i : ℕ) → Directed (new_function i)
    new_Directed i = (inl refl, inl refl, inl refl, omega arith)

endpoint_Sound : (w : Walk) (d : List ℕ) (o : Option ℕ) → Sound w → Sound (write_endpoint w d o)
unfolding write_endpoint
endpoint_Sound w d none v = v
endpoint_Sound w d (some i) v =
    let old = get_or w.found i (new_function 0) in
    let new =
      add_endpoint old (get_or d 2 0) (transfer_type (get_or d 3 0))
        (get_or d 4 0 + 256 * get_or d 5 0) in
    let was =
      All-get_or_default Directed w.found i (new_function 0) v.0
        (inl refl, inl refl, inl refl, omega arith) in
    let now =
      add_endpoint-Directed old (get_or d 2 0) (transfer_type (get_or d 3 0))
        (get_or d 4 0 + 256 * get_or d 5 0) was in
    (All-set Directed w.found i new v.0 now, rw (length-set w.found i new) v.1)

descriptor_Sound : (w : Walk) (d : List ℕ) (dl : ℕ) → Sound w → Sound (on_descriptor w d dl)
unfolding on_descriptor on_endpoint
descriptor_Sound w d dl v = elim (Bool-cases (get_or d 1 0 == dt_interface && leb 9 dl)) [
  | inl a ↦ rw a (interface_Sound w d v)
  | inr a ↦ elim (Bool-cases (get_or d 1 0 == dt_endpoint && leb 7 dl && w.in_class)) [
    | inl b ↦ rw (a, b) (endpoint_Sound w d w.cur v)
    | inr b ↦ rw (a, b) v
  ]
]

walk-Sound : (n : ℕ) (w : Walk) (d : List ℕ) → Sound w → Sound (walk n w d)
unfolding walk
walk-Sound zero w d v = v
walk-Sound (suc n) w d v =
    let dl = get_or d 0 0 in
    elim (Bool-cases (leb 2 (length d) && leb 2 dl && leb dl (length d))) [
      | inl e ↦ rw e (walk-Sound n (on_descriptor w d dl) (drop dl d) (descriptor_Sound w d dl v))
      | inr e ↦ rw e v
    ]

abbrev pub IsHci : HciFunction → Type 0
IsHci f = (is_complete f ≡ true) × Directed f

keep_complete_lem :
    (fs : List HciFunction)
    → All Directed fs
    → All IsHci (keep_complete fs) × (length (keep_complete fs) ≤ length fs)
unfolding keep_complete
keep_complete_lem [] v = (tt, omega arith)
keep_complete_lem (f ∷ fs) v =
    let ih = keep_complete_lem fs v.1 in
    elim (Bool-cases (is_complete f)) [
      | inl e ↦ rw e (((e, v.0), ih.0), omega arith)
      | inr e ↦ rw e (ih.0, omega arith)
    ]

-- Of any bytes, at most four functions are found, and each has its three endpoints: for events and
-- for incoming data with the direction bit set, for outgoing data without, and at most eight
-- others.
pub find_hci_functions-IsHci :
    (cfg : List ℕ) → All IsHci (find_hci_functions cfg) × (length (find_hci_functions cfg) ≤ 4)
unfolding find_hci_functions
find_hci_functions-IsHci cfg =
    let w = walk-Sound (length cfg) no_walk cfg (tt, omega arith) in
    let kept = keep_complete_lem (walk (length cfg) no_walk cfg).found w.0 in
    (kept.0, omega (arith, kept.1, w.1))

-- More rounds than bytes change nothing, so the walk never ends for lack of them.
walk_fuel :
    (n m : ℕ) (w : Walk) (d : List ℕ) → length d ≤ n → length d ≤ m → walk n w d ≡ walk m w d
unfolding walk
walk_fuel zero zero w d h k = refl
walk_fuel zero (suc m) w d h k = ground arith
walk_fuel (suc n) zero w d h k = ground arith
walk_fuel (suc n) (suc m) w d h k =
    let dl = get_or d 0 0 in
    elim (Bool-cases (leb 2 (length d) && leb 2 dl && leb dl (length d))) [
      | inl e ↦
          let shorter = length-drop dl d in
          rw e (
            walk_fuel n m (on_descriptor w d dl) (drop dl d) (ground (arith, shorter))
              (ground (arith, shorter)))
      | inr e ↦ rw e refl
    ]
