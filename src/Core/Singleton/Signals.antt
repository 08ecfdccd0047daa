-- ===== src/Core/Singleton/Signals.antt =====
-- Whom the takeover of core/src/gc_singleton.c signals, and when it kills.
use ghostcontrol_ps5_usb_con.Base.{
  ℕ, zero, suc, ◌+◌, ◌*◌, ◌≤◌, ◌≡◌, inl, inr, refl, Bool, Bool-cases, true, false, ◌&&◌, not, List,
  [], ◌∷◌, leb, arith,
}
use ghostcontrol_ps5_usb_con.Base.{ℤ, eq_ℤ}
use ghostcontrol_ps5_usb_con.Core.Singleton.{
  Posix, State, Action, waiting, signalling, locking, reading, opening_hold, closing_hold, claiming,
  sig_none, sig_term, sig_kill, pid_file, above_one, poll_ms, term_polls, kill_polls, lock_retry_ms,
  note, send, pause, try_lock, process_is_alive, await_exit, force_exit, evict_previous, retry_lock,
  claim_secondary, take_busy, evict_known, is_delivered, is_ghost, lock_retry_steps, LockFile,
  settle, claim_pid_file, read_previous_pid, takeover,
}

-- The time waited in a trace.
unfoldable pub waited_ms : List Action → ℕ
waited_ms [] = 0
waited_ms (waiting ms ∷ older) = ms + waited_ms older
waited_ms (locking f b ∷ older) = waited_ms older
waited_ms (signalling p g k ∷ older) = waited_ms older
waited_ms (reading ∷ older) = waited_ms older
waited_ms (opening_hold b ∷ older) = waited_ms older
waited_ms (closing_hold ∷ older) = waited_ms older
waited_ms (claiming p ∷ older) = waited_ms older

abbrev pub another : ℤ → ℤ → Bool
another own pid = above_one pid && not (eq_ℤ pid own)

-- Every signal goes to another process than this one and init, and SIGKILL only after 12 s.
unfoldable pub proper : ℤ → List Action → Bool
proper own [] = true
proper own (signalling pid sig_kill k ∷ older) =
    another own pid && leb 12000 (waited_ms older) && proper own older
proper own (signalling pid sig_none k ∷ older) = another own pid && proper own older
proper own (signalling pid sig_term k ∷ older) = another own pid && proper own older
proper own (waiting ms ∷ older) = proper own older
proper own (locking f b ∷ older) = proper own older
proper own (reading ∷ older) = proper own older
proper own (opening_hold b ∷ older) = proper own older
proper own (closing_hold ∷ older) = proper own older
proper own (claiming p ∷ older) = proper own older

module _ {W : Type 0} (P : Posix W) where
  -- The trace stays proper, and the time waited does not go down.
  abbrev Goes : State W → State W → Type 0
  Goes s t =
      (proper P.getpid s.trace ≡ true → proper P.getpid t.trace ≡ true)
      × (waited_ms s.trace ≤ waited_ms t.trace)

  Goes-trans : (s t u : State W) → Goes s t → Goes t u → Goes s u
  Goes-trans s t u g h = ((λ p. h.0 (g.0 p)), omega (arith, g.1, h.1))

  alive-Goes : (s : State W) (pid : ℤ) → Goes s (process_is_alive P s pid).1
  unfolding process_is_alive send note proper waited_ms
  alive-Goes s pid = ground arith

  alive_another :
      (s : State W) (pid : ℤ) → (process_is_alive P s pid).0 ≡ true → another P.getpid pid ≡ true
  unfolding process_is_alive
  alive_another s pid h = ground arith

  lock-Goes :
      (s : State W) (ms : ℕ)
      → Goes s (try_lock P (pause P s ms) pid_file).1
        × (ms + waited_ms s.trace ≡ waited_ms (try_lock P (pause P s ms) pid_file).1.trace)
  unfolding try_lock pause note proper waited_ms
  lock-Goes s ms = ground arith

  only_lock : (s : State W) (f : LockFile) → Goes s (try_lock P s f).1
  unfolding try_lock note proper waited_ms
  only_lock s f = ground arith

  pause-Goes : (s : State W) (ms : ℕ) → Goes s (pause P s ms)
  unfolding pause note proper waited_ms
  pause-Goes s ms = ground arith

  -- A wait that fails went through all its rounds.
  abbrev Waits : ℕ → State W → Bool × State W → Type 0
  Waits n s out =
      Goes s out.1 × (out.0 ≡ false → waited_ms s.trace + 100 * n ≤ waited_ms out.1.trace)

  await_exit-Waits : (n : ℕ) (s : State W) (pid : ℤ) → Waits n s (await_exit P n s pid)
  unfolding await_exit
  await_exit-Waits zero s pid = (((λ p. p), omega arith), λ h. omega arith)
  await_exit-Waits (suc n) s pid =
      let locked = try_lock P (pause P s poll_ms) pid_file in
      let alive = process_is_alive P locked.1 pid in
      let l = lock-Goes s poll_ms in
      let a = alive-Goes locked.1 pid in
      let ih = await_exit-Waits n alive.1 pid in
      elim (Bool-cases locked.0) [
        | inl e ↦ rw e (l.0, λ h. absurd (cc h))
        | inr e ↦ elim (Bool-cases alive.0) [
          | inl f ↦
              rw (e, f)
                (
                  Goes-trans s locked.1 (await_exit P n alive.1 pid).1 l.0
                      (Goes-trans locked.1 alive.1 (await_exit P n alive.1 pid).1 a ih.0),
                  λ h. omega (arith, l.1, a.1, ih.1 h),
                )
          | inr f ↦ rw (e, f) (Goes-trans s locked.1 alive.1 l.0 a, λ h. absurd (cc h))
        ]
      ]

  -- A signal other than SIGKILL to another process, and SIGKILL after the wait.
  term-Goes :
      (s : State W) (pid : ℤ) → another P.getpid pid ≡ true → Goes s (send P s pid sig_term).1
  unfolding send note proper waited_ms
  term-Goes s pid o = ground arith

  kill-Goes :
      (s : State W) (pid : ℤ)
      → another P.getpid pid ≡ true
      → 12000 ≤ waited_ms s.trace
      → Goes s (send P s pid sig_kill).1
  unfolding send note proper waited_ms
  kill-Goes s pid o w = ground arith

  force_exit-Goes :
      (s : State W) (pid : ℤ)
      → another P.getpid pid ≡ true
      → 12000 ≤ waited_ms s.trace
      → Goes s (force_exit P s pid).1
  unfolding force_exit
  force_exit-Goes s pid o w =
      let k = send P s pid sig_kill in
      let g = kill-Goes s pid o w in
      let h = await_exit-Waits kill_polls k.1 pid in
      elim (Bool-cases (is_delivered k.0)) [
        | inl d ↦ rw d (Goes-trans s k.1 (await_exit P kill_polls k.1 pid).1 g h.0)
        | inr d ↦ rw d g
      ]

  evict-Goes : (s : State W) (pid : ℤ) → Goes s (evict_previous P s pid).1
  unfolding evict_previous
  evict-Goes s pid =
      let alive = process_is_alive P s pid in
      let asked = send P alive.1 pid sig_term in
      let waited = await_exit P term_polls asked.1 pid in
      let a = alive-Goes s pid in
      elim (Bool-cases alive.0) [
        | inr d ↦ rw d a
        | inl d ↦
            let o = alive_another s pid d in
            let t = Goes-trans s alive.1 asked.1 a (term-Goes alive.1 pid o) in
            let w = await_exit-Waits term_polls asked.1 pid in
            let u = Goes-trans s asked.1 waited.1 t w.0 in
            elim (Bool-cases waited.0) [
              | inl e ↦ rw (d, e) u
              | inr e ↦
                  rw (d, e)
                    (Goes-trans s waited.1 (force_exit P waited.1 pid).1 u
                      (force_exit-Goes waited.1 pid o (omega (arith, w.1 e))))
            ]
      ]

  retry-Goes : (n : ℕ) (s : State W) → Goes s (retry_lock P n s).1
  unfolding retry_lock
  retry-Goes zero s = only_lock s pid_file
  retry-Goes (suc n) s =
      let locked = try_lock P s pid_file in
      let l = only_lock s pid_file in
      let paused = pause P locked.1 lock_retry_ms in
      elim (Bool-cases locked.0) [
        | inl e ↦ rw e l
        | inr e ↦ rw e (
            Goes-trans s locked.1 (retry_lock P n paused).1 l (
              Goes-trans locked.1 paused (retry_lock P n paused).1
                (pause-Goes locked.1 lock_retry_ms) (retry-Goes n paused)))
      ]

  secondary-Goes : (s : State W) → Goes s (claim_secondary P s).1
  unfolding claim_secondary try_lock note proper waited_ms
  secondary-Goes s = ground arith

  read-Goes : (s : State W) → Goes s (read_previous_pid P s).1
  unfolding read_previous_pid note proper waited_ms
  read-Goes s = ground arith

  known-Goes : (s : State W) (pid : ℤ) → Goes s (evict_known P s pid).1
  known-Goes s pid = elim (Bool-cases (above_one pid)) [
    | inl e ↦ rw e (evict-Goes s pid)
    | inr e ↦ rw e ((λ p. p), omega arith)
  ]

  busy-Goes : (s : State W) → Goes s (take_busy P s).1
  unfolding take_busy
  busy-Goes s =
      let read = read_previous_pid P s in
      let known = evict_known P read.1 read.0 in
      let locked = retry_lock P lock_retry_steps known.1 in
      let g = Goes-trans s read.1 known.1 (read-Goes s) (known-Goes read.1 read.0) in
      let h = Goes-trans s known.1 locked.1 g (retry-Goes lock_retry_steps known.1) in
      elim (Bool-cases locked.0) [
        | inl e ↦ rw e h
        | inr e ↦ elim (Bool-cases (is_ghost known.0)) [
          | inl f ↦
              rw (e, f)
                (Goes-trans s locked.1 (claim_secondary P locked.1).1 h (secondary-Goes locked.1))
          | inr f ↦ rw (e, f) h
        ]
      ]

  held-Goes : (s : State W) (ms : ℕ) → Goes s (settle P (claim_pid_file P s) ms)
  unfolding pause note proper waited_ms
  held-Goes s ms = ground arith

  takeover-Goes : (s : State W) (ms : ℕ) → Goes s (takeover P s ms).1
  unfolding takeover
  takeover-Goes s ms =
      let locked = try_lock P s pid_file in
      let busy = take_busy P locked.1 in
      let l = only_lock s pid_file in
      let b = Goes-trans s locked.1 busy.1 l (busy-Goes locked.1) in
      let claimed : State W → State W = λ t. settle P (claim_pid_file P t) ms in
      elim (Bool-cases locked.0) [
        | inl e ↦ rw e (Goes-trans s locked.1 (claimed locked.1) l (held-Goes locked.1 ms))
        | inr e ↦ elim (Bool-cases busy.0) [
          | inl f ↦ rw (e, f) (Goes-trans s busy.1 (claimed busy.1) b (held-Goes busy.1 ms))
          | inr f ↦ rw (e, f) b
        ]
      ]

-- Whatever the pid file holds and the calls answer, a takeover signals neither init nor a process
-- group nor this process itself, and sends SIGKILL only after it has waited 12 s.
pub takeover-proper :
    {W : Type 0} (P : Posix W) (world : W) (ms : ℕ)
    → proper P.getpid (takeover P (record { world = world; trace = [] }) ms).1.trace ≡ true
unfolding proper
takeover-proper P world ms = (takeover-Goes P (record { world = world; trace = [] }) ms).0 refl
