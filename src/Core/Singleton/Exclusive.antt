-- ===== src/Core/Singleton/Exclusive.antt =====
-- A takeover of core/src/gc_singleton.c goes on only with a lock.
use ghostcontrol_ps5_usb_con.Base.{
  ℕ, zero, suc, ◌≡◌, inl, inr, refl, sym, subst, if_true, Bool, Bool-cases, true, false, ◌||◌, List,
  [], ◌∷◌, if◌then◌else◌, arith,
}
use ghostcontrol_ps5_usb_con.Core.Singleton.{
  Posix, State, Action, locking, pid_file, hold_file, LockFile, note, pause, try_lock, retry_lock,
  lock_retry_ms, lock_retry_steps, claim_secondary, take_busy, evict_known, is_ghost,
  read_previous_pid, settle, claim_pid_file, takeover,
}

-- Some lock on the file was granted.
unfoldable pub granted : LockFile → List Action → Bool
granted f [] = false
granted pid_file (locking pid_file true ∷ older) = true
granted hold_file (locking hold_file true ∷ older) = true
granted f (a ∷ older) = granted f older

module _ {W : Type 0} (P : Posix W) where
  -- Where the call succeeds, the lock was granted.
  abbrev Ok : LockFile → Bool × State W → Type 0
  Ok f out = out.0 ≡ true → granted f out.1.trace ≡ true

  lock-Ok : (s : State W) (f : LockFile) → Ok f (try_lock P s f)
  unfolding try_lock note granted
  lock-Ok s pid_file h = ground arith
  lock-Ok s hold_file h = ground arith

  retry-Ok : (n : ℕ) (s : State W) → Ok pid_file (retry_lock P n s)
  unfolding retry_lock
  retry-Ok zero s = lock-Ok s pid_file
  retry-Ok (suc n) s =
      let locked = try_lock P s pid_file in
      let rest = retry_lock P n (pause P locked.1 lock_retry_ms) in
      elim (Bool-cases locked.0) [
        | inl e ↦ subst (λ o. Ok pid_file o) (sym (if_true locked rest e)) (lock-Ok s pid_file)
        | inr e ↦ rw e (retry-Ok n (pause P locked.1 lock_retry_ms))
      ]

  secondary-Ok : (s : State W) → Ok hold_file (claim_secondary P s)
  unfolding claim_secondary try_lock note granted
  secondary-Ok s h = ground arith

  -- Where the call succeeds, one of the two locks was granted.
  abbrev Held : Bool × State W → Type 0
  Held out = out.0 ≡ true → (granted pid_file out.1.trace || granted hold_file out.1.trace) ≡ true

  Held-pid : (out : Bool × State W) → Ok pid_file out → Held out
  Held-pid out k h = rw (k h) refl

  Held-hold : (out : Bool × State W) → Ok hold_file out → Held out
  Held-hold out k h = ground (arith, k h)

  refused_Held : (s : State W) → Held (false, s)
  refused_Held s h = absurd (ground arith)

  busy_Held : (s : State W) → Held (take_busy P s)
  unfolding take_busy
  busy_Held s =
      let read = read_previous_pid P s in
      let known = evict_known P read.1 read.0 in
      let locked = retry_lock P lock_retry_steps known.1 in
      let rest : Bool × State W =
        if is_ghost known.0 then claim_secondary P locked.1 else (false, locked.1) in
      elim (Bool-cases locked.0) [
        | inl e ↦
            subst (λ o. Held o) (sym (if_true locked rest e))
              (Held-pid locked (retry-Ok lock_retry_steps known.1))
        | inr e ↦ elim (Bool-cases (is_ghost known.0)) [
          | inl f ↦ rw (e, f) (Held-hold (claim_secondary P locked.1) (secondary-Ok locked.1))
          | inr f ↦ rw (e, f) (refused_Held locked.1)
        ]
      ]

  claimed_granted :
      (s : State W) (ms : ℕ) (f : LockFile)
      → granted f (settle P (claim_pid_file P s) ms).trace ≡ granted f s.trace
  unfolding note pause granted
  claimed_granted s ms pid_file = ground arith
  claimed_granted s ms hold_file = ground arith

  claimed_Held :
      (out : Bool × State W) (ms : ℕ)
      → out.0 ≡ true
      → Held out
      → Held (true, settle P (claim_pid_file P out.1) ms)
  claimed_Held out ms e k h =
      rw (claimed_granted out.1 ms pid_file, claimed_granted out.1 ms hold_file) (k e)

-- A takeover that succeeds was granted the lock of the pid file or the second lock.
takeover-granted :
    {W : Type 0} (P : Posix W) (s : State W) (ms : ℕ)
    → (takeover P s ms).0 ≡ true
    → let trace = (takeover P s ms).1.trace in
      (granted pid_file trace || granted hold_file trace) ≡ true
unfolding takeover
takeover-granted P s ms =
    let locked = try_lock P s pid_file in
    let busy = take_busy P locked.1 in
    elim (Bool-cases locked.0) [
      | inl e ↦ rw e (claimed_Held P locked ms e (Held-pid P locked (lock-Ok P s pid_file)))
      | inr e ↦ elim (Bool-cases busy.0) [
        | inl f ↦ rw (e, f) (claimed_Held P busy ms f (busy_Held P locked.1))
        | inr f ↦ rw (e, f) (refused_Held P busy.1)
      ]
    ]
