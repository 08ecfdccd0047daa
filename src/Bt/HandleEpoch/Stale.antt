-- ===== src/Bt/HandleEpoch/Stale.antt =====
-- A released epoch of core/src/bt/handle_epoch.c never counts again.
use ghostcontrol_ps5_usb_con.Base.{
  ℕ, zero, suc, ◌+◌, ◌<◌, ◌^◌, ◌≡◌, true, false, Option-cases, some, List, [], ◌∷◌, length, get_or,
  set, sym, arith, inl, inr, All, All-get_or, All-set,
}
use mathlib.Core.Path.{subst}
use ghostcontrol_ps5_usb_con.Bt.HandleEpoch.{
  HandleSlot, HandleTable, empty_slot, find_slot, has_handle, find_handle, slot_at, init, claim,
  owns, release, disconnect,
}
use ghostcontrol_ps5_usb_con.Bt.HandleEpoch.Slots.{find_slot_passes}
use ghostcontrol_ps5_usb_con.Bt.HandleEpoch.Sound.{
  Op, connecting, disconnecting, asking, step, run, Apart, Distinct, Lacks, IsBelow, IsSound,
  take_epoch_next, connect_cases, disconnect_cases, disconnect_of_found, owns-Keeps, step-IsSound,
  step_next_epoch, run-IsSound, init-IsSound,
}

-- The state in which an epoch is gone: it was given out, and no live link has it.
abbrev IsGone : HandleTable → ℕ → Type 0
IsGone t e = All (Lacks e) t.slots × (e < t.next_epoch)

Apart-Lacks :
    (ss : List HandleSlot) (s : HandleSlot)
    → s.used ≡ true
    → All (Apart s) ss
    → All (Lacks s.epoch) ss
Apart-Lacks [] s u a = tt
Apart-Lacks (x ∷ ss) s u a = ((λ w q. (a.0 u w).0 (sym q)), Apart-Lacks ss s u a.1)

release-IsGone :
    (ss : List HandleSlot) (h i : ℕ)
    → Distinct ss
    → find_slot (has_handle h) ss ≡ some i
    → All (Lacks (get_or ss i empty_slot).epoch) (set ss i empty_slot)
unfolding find_slot
release-IsGone [] h i d f = tt
release-IsGone (s ∷ ss) h zero d f = ((λ u. cc), Apart-Lacks ss s (ground arith) d.0)
release-IsGone (s ∷ ss) h (suc i) d f =
    let f' : find_slot (has_handle h) ss ≡ some i = ground arith in
    let passes = find_slot_passes (has_handle h) ss i f' in
    let apart = All-get_or (Apart s) ss i empty_slot d.0 passes.1 in
    ((λ u. (apart u (ground (arith, passes.0))).0), release-IsGone ss h i d.1 f')

-- A claimed slot gets the next epoch, so an epoch that is gone stays gone.
step-IsGone :
    (t : HandleTable) (o : Op) (e : ℕ)
    → suc t.next_epoch < 2 ^ 32
    → IsSound t
    → IsGone t e
    → All (Lacks e) (step t o).slots
unfolding step claim release
step-IsGone t (connecting a h) e b v g = elim (connect_cases t a h) [
  | inl k ↦ rw (k.0) g.0
  | inr (i, f, q) ↦
      rw (q, take_epoch_next t.next_epoch v.started b)
        (All-set (Lacks e) t.slots i _ g.0 (λ u p. omega arith))
]
step-IsGone t (disconnecting h) e b v g = elim (disconnect_cases t h) [
  | inl k ↦ rw (k.0) g.0
  | inr (i, f, q) ↦ rw q (All-set (Lacks e) t.slots i empty_slot g.0 (λ u. cc))
]
step-IsGone t (asking h e') e b v g = rw ((owns-Keeps t h e').0) g.0

run-IsGone :
    (t : HandleTable) (os : List Op) (e : ℕ)
    → t.next_epoch + length os + 1 < 2 ^ 32
    → IsSound t
    → IsGone t e
    → All (Lacks e) (run t os).slots
unfolding run
run-IsGone t [] e b v g = g.0
run-IsGone t (o ∷ os) e b v g =
    let n = step_next_epoch t o (omega arith) v in
    run-IsGone (step t o) os e (omega arith) (step-IsSound t o (omega arith) v)
      (step-IsGone t o e (omega arith) v g, omega (arith, g.1))

-- With the epoch gone no handle owns it.
owns_of_Lacks : (t : HandleTable) (h e : ℕ) → All (Lacks e) t.slots → (owns t h e).1 ≡ false
unfolding owns
owns_of_Lacks t h e g = elim (Option-cases (find_handle t h)) [
  | inl f ↦ ground arith
  | inr (i, f) ↦
      let p = find_slot_passes (has_handle h) t.slots i f in
      let l = All-get_or (Lacks e) t.slots i empty_slot g p.1 in
      ground (arith, p.0, l (ground (arith, p.0)))
]

owns_inverts :
    (t : HandleTable) (h e : ℕ)
    → (owns t h e).1 ≡ true
    → (i : ℕ) × (find_handle t h ≡ some i) × ((slot_at t i).epoch ≡ e)
unfolding owns
owns_inverts t h e q = elim (Option-cases (find_handle t h)) [
  | inl f ↦ absurd (ground arith)
  | inr (i, f) ↦ (i, f, ground arith)
]

disconnect-IsGone :
    (t : HandleTable) (h e : ℕ)
    → IsSound t
    → (owns t h e).1 ≡ true
    → All (Lacks e) (disconnect t h).slots
unfolding release
disconnect-IsGone t h e v q =
    let (i, f, at) = owns_inverts t h e q in
    let gone = release-IsGone t.slots h i v.apart f in
    rw (disconnect_of_found t h i f) (subst (λ x. All (Lacks x) (set t.slots i empty_slot)) at gone)

-- An owned epoch was given out before.
owned-lt-next : (t : HandleTable) (h e : ℕ) → IsSound t → (owns t h e).1 ≡ true → e < t.next_epoch
owned-lt-next t h e v q =
    let (i, f, at) = owns_inverts t h e q in
    let p = find_slot_passes (has_handle h) t.slots i f in
    let below = All-get_or (IsBelow t.next_epoch) t.slots i empty_slot v.epochs p.1 in
    omega (arith, at, below (ground (arith, p.0)))

-- Whatever happened before, once a handle that owns an epoch is disconnected, no handle owns that
-- epoch again after any further connections, disconnections and questions, as long as the history
-- is too short for the epoch counter to wrap.
pub stale_never_owned :
    (before after : List Op) (h e k : ℕ)
    → length before + length after + 3 < 2 ^ 32
    → (owns (run init before) h e).1 ≡ true
    → (owns (run (disconnect (run init before) h) after) k e).1 ≡ false
unfolding init step
stale_never_owned before after h e k b q =
    let t = run init before in
    let (v, n) = run-IsSound init before (omega arith) init-IsSound in
    let m = step_next_epoch t (disconnecting h) (omega arith) v in
    let v' = step-IsSound t (disconnecting h) (omega arith) v in
    let lt = owned-lt-next t h e v q in
    owns_of_Lacks (run (disconnect t h) after) k e (
      run-IsGone (disconnect t h) after e (omega arith) v'
        (disconnect-IsGone t h e v q, omega arith))
