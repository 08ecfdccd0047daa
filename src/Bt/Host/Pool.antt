-- ===== src/Bt/Host/Pool.antt =====
-- The buffers of the controller: `pool_expire`, `pool_done` and `pool_sent` of core/src/bt/host.c.
use ghostcontrol_ps5_usb_con.Base.{
  ◌≡◌, refl, sym, subst, ◌∙◌, ℕ, zero, suc, ◌+◌, ◌-◌, ◌%◌, ◌≤◌, ◌<◌, arith, true, false, length,
  ltb, inl, inr, Bool-cases, length-set, ltb→lt,
}
use ghostcontrol_ps5_usb_con.Bt.Host.{
  AclPool, inflight_max, is_overdue, expire_one, expire_loop, pool_expire, done_loop, done_one,
  pool_done, pool_sent,
}

-- The ring has its 64 places, and what may still be sent with what is under way stays within what
-- the controller holds.
pub record InBounds (p : AclPool) : Type 0 where
  pub places : length p.inflight ≡ inflight_max
  pub at : p.head < inflight_max
  pub within : p.count ≤ inflight_max
  pub budget : p.credits + p.count ≤ p.max

expire_one-InBounds : (p : AclPool) → InBounds p → ltb 0 p.count ≡ true → InBounds (expire_one p)
unfolding expire_one
expire_one-InBounds p v h = ground arith

-- A pool that is not overdue, with the size it had.
abbrev pub Expired : ℕ → AclPool → AclPool → Type 0
Expired now p q =
    InBounds q × (is_overdue now q ≡ false) × (q.max ≡ p.max) × (p.credits ≤ q.credits)

expire_loop-overdue :
    (n now : ℕ) (p : AclPool)
    → is_overdue now p ≡ true
    → expire_loop (suc n) now p ≡ expire_loop n now (expire_one p)
unfolding expire_loop
expire_loop-overdue n now p due = ground arith

expire_loop-ends :
    (n now : ℕ) (p : AclPool) → is_overdue now p ≡ false → expire_loop (suc n) now p ≡ p
unfolding expire_loop
expire_loop-ends n now p none_due = ground arith

Expired-one : (now : ℕ) (p q : AclPool) → Expired now (expire_one p) q → Expired now p q
unfolding expire_one
Expired-one now p q e = ground arith

expire_loop-Expired :
    (n now : ℕ) (p : AclPool) → p.count ≤ n → InBounds p → Expired now p (expire_loop n now p)
unfolding expire_loop
expire_loop-Expired zero now p h v = (v, ground arith, refl, omega arith)
expire_loop-Expired (suc n) now p h v = elim (Bool-cases (is_overdue now p)) [
  | inl due ↦
      let some_left : ltb 0 p.count ≡ true = ground (arith, due) in
      let fewer : (expire_one p).count ≤ n =
        unfold expire_one in omega (arith, ltb→lt _ _ some_left) in
      subst (Expired now p) (sym (expire_loop-overdue n now p due)) (
        Expired-one now p _
          (expire_loop-Expired n now (expire_one p) fewer (expire_one-InBounds p v some_left)))
  | inr none_due ↦
      subst (Expired now p) (sym (expire_loop-ends n now p none_due))
        (v, none_due, refl, omega arith)
]

pub pool_expire-Expired : (now : ℕ) (p : AclPool) → InBounds p → Expired now p (pool_expire now p)
unfolding pool_expire
pool_expire-Expired now p v = expire_loop-Expired p.count now p (omega arith) v

-- What `n` reports leave: the packets that they do not name.
abbrev Reported : ℕ → AclPool → AclPool → Type 0
Reported n p q = InBounds q × (q.max ≡ p.max) × (q.credits ≡ p.credits) × (q.count ≡ p.count - n)

done_one-Reported : (p : AclPool) → InBounds p → Reported 1 p (done_one p)
done_one-Reported p v = ground arith

done_loop-Reported : (n : ℕ) (p : AclPool) → InBounds p → Reported n p (done_loop n p)
unfolding done_loop
done_loop-Reported zero p v = (v, refl, refl, omega arith)
done_loop-Reported (suc n) p v =
    let one = done_one-Reported p v in
    let rest = done_loop-Reported n (done_one p) one.0 in
    (rest.0, rest.1 ∙ one.1, rest.2 ∙ one.2, omega (arith, rest.3, one.3))

pub pool_done-InBounds : (p : AclPool) (n : ℕ) → InBounds p → InBounds (pool_done p n)
unfolding pool_done
pool_done-InBounds p n v = let r = done_loop-Reported n p v in ground (arith, r.0, r.1, r.2, r.3)

pub pool_sent-InBounds :
    (now : ℕ) (p : AclPool) → InBounds p → 0 < p.credits → InBounds (pool_sent now p)
unfolding pool_sent
pool_sent-InBounds now p v h = ground (
  arith,
  length-set p.inflight ((p.head + p.count) % 64) now,
  length-set p.inflight (((p.head + 1) % 64 + (p.count - 1)) % 64) now,
)
