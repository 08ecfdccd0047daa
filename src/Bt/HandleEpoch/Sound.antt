-- ===== src/Bt/HandleEpoch/Sound.antt =====
-- The table of core/src/bt/handle_epoch.c over every history: the live links stay apart.
use ghostcontrol_ps5_usb_con.Base.{
  ℕ, zero, suc, ◌+◌, ◌≤◌, ◌<◌, ◌^◌, ◌≡◌, ◌≢◌, true, Option-cases, none, some, List, [], ◌∷◌, length,
  set, arith, ◌⊎◌, inl, inr, All, All-set, length-set,
}
use ghostcontrol_ps5_usb_con.Bt.HandleEpoch.{
  HandleSlot, HandleTable, empty_slot, find_slot, has_addr, find_handle, find_addr, free_slot,
  new_slot, init, take_epoch, claim, connect, owns, release, disconnect,
}

pub data Op : Type 0 where
  connecting : ℕ → ℕ → Op  -- address, handle
  disconnecting : ℕ → Op
  asking : ℕ → ℕ → Op  -- handle, epoch

unfoldable pub step : HandleTable → Op → HandleTable
step t (connecting a h) = (connect t a h).0
step t (disconnecting h) = disconnect t h
step t (asking h e) = (owns t h e).0

unfoldable pub run : HandleTable → List Op → HandleTable
run t [] = t
run t (o ∷ os) = run (step t o) os

abbrev pub IsBelow : ℕ → HandleSlot → Type 0
IsBelow n s = s.used ≡ true → (0 < s.epoch) × (s.epoch < n)

abbrev pub Apart : HandleSlot → HandleSlot → Type 0
Apart s u = s.used ≡ true → u.used ≡ true → (s.epoch ≢ u.epoch) × (s.addr ≢ u.addr)

abbrev pub Distinct : List HandleSlot → Type 0
Distinct [] = Unit
Distinct (s ∷ ss) = All (Apart s) ss × Distinct ss

-- No live link has the epoch.
abbrev pub Lacks : ℕ → HandleSlot → Type 0
Lacks e s = s.used ≡ true → s.epoch ≢ e

pub record IsSound (t : HandleTable) : Type 0 where
  pub eight : length t.slots ≡ 8
  pub epochs : All (IsBelow t.next_epoch) t.slots
  pub apart : Distinct t.slots
  pub started : 0 < t.next_epoch

IsBelow-mono : (ss : List HandleSlot) (n m : ℕ) → n ≤ m → All (IsBelow n) ss → All (IsBelow m) ss
IsBelow-mono [] n m h b = tt
IsBelow-mono (s ∷ ss) n m h b = ((λ u. ground (arith, b.0 u)), IsBelow-mono ss n m h b.1)

Distinct-set :
    (ss : List HandleSlot) (i : ℕ) (v : HandleSlot)
    → Distinct ss
    → All (λ s. Apart s v × Apart v s) ss
    → Distinct (set ss i v)
Distinct-set [] i v d a = tt
Distinct-set (s ∷ ss) zero v d a = (seconds ss a.1, d.1)
  where
    seconds : (l : List HandleSlot) → All (λ s. Apart s v × Apart v s) l → All (Apart v) l
    seconds [] h = tt
    seconds (x ∷ l) h = (h.0.1, seconds l h.1)
Distinct-set (s ∷ ss) (suc i) v d a =
    (All-set (Apart s) ss i v d.0 a.0.0, Distinct-set ss i v d.1 a.1)

-- A slot with the next epoch and an address that no link has stands apart from the others.
claim-Apart :
    (ss : List HandleSlot) (n a h : ℕ)
    → All (IsBelow n) ss
    → find_slot (has_addr a) ss ≡ none
    → All (λ s. Apart s (new_slot a h n) × Apart (new_slot a h n) s) ss
unfolding find_slot
claim-Apart [] n a h b f = tt
claim-Apart (s ∷ ss) n a h b f = (
  ((λ u w. ground (arith, b.0 u)), (λ w u. ground (arith, b.0 u))),
  claim-Apart ss n a h b.1 (ground arith),
)

empty-Apart : (ss : List HandleSlot) → All (λ s. Apart s empty_slot × Apart empty_slot s) ss
empty-Apart [] = tt
empty-Apart (s ∷ ss) =
    (((λ u w. absurd (ground arith)), (λ w u. absurd (ground arith))), empty-Apart ss)

-- Short of 2 ^ 32 connections the next epoch just counts up.
pub take_epoch_next : (n : ℕ) → 0 < n → suc n < 2 ^ 32 → take_epoch n ≡ (n, suc n)
unfolding take_epoch
take_epoch_next n p h = ground arith

claim-IsSound :
    (t : HandleTable) (i a h : ℕ)
    → suc t.next_epoch < 2 ^ 32
    → IsSound t
    → find_addr t a ≡ none
    → IsSound (claim t i a h)
unfolding claim
claim-IsSound t i a h b v f =
    let n = t.next_epoch in
    let w = new_slot a h n in
    let below = IsBelow-mono t.slots n (suc n) (omega arith) v.epochs in
    rw (take_epoch_next n v.started b) (record {
      eight = rw (length-set t.slots i w) v.eight;
      epochs = All-set (IsBelow (suc n)) t.slots i w below (λ u. (v.started, omega arith));
      apart = Distinct-set t.slots i w v.apart (claim-Apart t.slots n a h v.epochs f);
      started = omega arith;
    })

release-IsSound : (t : HandleTable) (i : ℕ) → IsSound t → IsSound (release t i)
unfolding release
release-IsSound t i v = record {
  eight = rw (length-set t.slots i empty_slot) v.eight;
  epochs = All-set (IsBelow t.next_epoch) t.slots i empty_slot v.epochs (λ u. cc);
  apart = Distinct-set t.slots i empty_slot v.apart (empty-Apart t.slots);
  started = v.started;
}

-- The slots and the next epoch, which is all that soundness speaks of, are unchanged.
abbrev pub Keeps : HandleTable → HandleTable → Type 0
Keeps t u = (u.slots ≡ t.slots) × (u.next_epoch ≡ t.next_epoch)

Keeps-IsSound : (t u : HandleTable) → Keeps t u → IsSound t → IsSound u
Keeps-IsSound t u k v = record {
  eight = rw (k.0) v.eight;
  epochs = rw (k.0, k.1) v.epochs;
  apart = rw (k.0) v.apart;
  started = rw (k.1) v.started;
}

pub connect_cases :
    (t : HandleTable) (a h : ℕ)
    → Keeps t (connect t a h).0
      ⊎ ((i : ℕ) × (find_addr t a ≡ none) × ((connect t a h).0 ≡ claim t i a h))
unfolding connect
connect_cases t a h = elim (Option-cases (find_addr t a)) [
  | inl f ↦ elim (Option-cases (free_slot t)) [
    | inl g ↦ inl (ground arith)
    | inr (i, g) ↦ inr (i, f, ground arith)
  ]
  | inr (i, f) ↦ inl (ground arith)
]

pub disconnect_of_found :
    (t : HandleTable) (h i : ℕ) → find_handle t h ≡ some i → disconnect t h ≡ release t i
unfolding disconnect
disconnect_of_found t h i f = ground arith

pub disconnect_cases :
    (t : HandleTable) (h : ℕ)
    → Keeps t (disconnect t h)
      ⊎ ((i : ℕ) × (find_handle t h ≡ some i) × (disconnect t h ≡ release t i))
unfolding disconnect
disconnect_cases t h = elim (Option-cases (find_handle t h)) [
  | inl f ↦ inl (ground arith)
  | inr (i, f) ↦ inr (i, f, ground arith)
]

-- A question changes counters only.
pub owns-Keeps : (t : HandleTable) (h e : ℕ) → Keeps t (owns t h e).0
unfolding owns
owns-Keeps t h e = ground arith

pub step-IsSound :
    (t : HandleTable) (o : Op) → suc t.next_epoch < 2 ^ 32 → IsSound t → IsSound (step t o)
unfolding step
step-IsSound t (connecting a h) b v = elim (connect_cases t a h) [
  | inl k ↦ Keeps-IsSound t _ k v
  | inr (i, f, q) ↦ rw q (claim-IsSound t i a h b v f)
]
step-IsSound t (disconnecting h) b v = elim (disconnect_cases t h) [
  | inl k ↦ Keeps-IsSound t _ k v
  | inr (i, f, q) ↦ rw q (release-IsSound t i v)
]
step-IsSound t (asking h e) b v = Keeps-IsSound t _ (owns-Keeps t h e) v

pub step_next_epoch :
    (t : HandleTable) (o : Op)
    → suc t.next_epoch < 2 ^ 32
    → IsSound t
    → (t.next_epoch ≤ (step t o).next_epoch) × ((step t o).next_epoch ≤ suc t.next_epoch)
unfolding step connect claim disconnect release owns
step_next_epoch t (connecting a h) b v = ground (arith, take_epoch_next t.next_epoch v.started b)
step_next_epoch t (disconnecting h) b v = ground arith
step_next_epoch t (asking h e) b v = ground arith

-- Over any history of the table that is short enough for the epoch counter not to wrap, there are
-- eight slots, the live links have epochs above 0 and below the next one, and no two live links
-- share an epoch or an address.
pub run-IsSound :
    (t : HandleTable) (os : List Op)
    → t.next_epoch + length os + 1 < 2 ^ 32
    → IsSound t
    → IsSound (run t os) × ((run t os).next_epoch ≤ t.next_epoch + length os)
unfolding run
run-IsSound t [] b v = (v, omega arith)
run-IsSound t (o ∷ os) b v =
    let n = step_next_epoch t o (omega arith) v in
    let ih = run-IsSound (step t o) os (omega arith) (step-IsSound t o (omega arith) v) in
    (ih.0, omega arith)

pub init-IsSound : IsSound init
unfolding init
init-IsSound = ground arith
