-- ===== src/Pad/AppPad/Sound.antt =====
-- The app pad of core/src/gc_app_pad.c over every history of calls.
use ghostcontrol_ps5_usb_con.Base.{
  ℕ, ◌≤◌, ◌≡◌, ◌≢◌, ◌⊎◌, inl, inr, refl, ◌∙◌, Bool-cases, true, false, ◌&&◌, ◌!=◌, arith,
}
use ghostcontrol_ps5_usb_con.Pad.AppPad.{
  Poll, Ack, AppPad, Light, Pattern, live, init, uint64_max, expire_lease, expire_pending,
  expire_started, expire, stop, light_allowed, configure, pattern_allowed, place_event, try_place,
  schedule,
}
use ghostcontrol_ps5_usb_con.Pad.AppPad.Exchange.{
  drop_event, drop_light, take_peer, mark_delivered, ack_event,
}

-- The light is one that `configure` allows, the pattern of an event one that `schedule` allows.
pub record IsSound (s : AppPad) : Type 0 where
  pub boot_set : s.boot ≢ 0
  pub revised : s.revision ≢ 0
  pub lit : light_allowed s.light ≡ true
  pub shaped : (s.event_id ≢ 0) → pattern_allowed s.pattern ≡ true
  pub issued : s.event_id ≤ s.next_id

-- What a step does to an event: nothing, or it goes on but never comes back to life.
abbrev pub Ages : AppPad → AppPad → Type 0
Ages s t = (live s ≡ false) → (t.event_state ≡ s.event_state)

-- Everything that soundness speaks of is as before, and the event is not revived.
abbrev pub Keeps : AppPad → AppPad → Type 0
Keeps s t =
    (t.boot ≡ s.boot)
    × (t.revision ≡ s.revision)
    × (t.light ≡ s.light)
    × (t.pattern ≡ s.pattern)
    × (t.event_id ≡ s.event_id)
    × (t.next_id ≡ s.next_id)
    × Ages s t

pub Keeps-IsSound : (s t : AppPad) → Keeps s t → IsSound s → IsSound t
Keeps-IsSound s t (b, r, l, p, e, n, a) v = record {
  boot_set = rw b v.boot_set;
  revised = rw r v.revised;
  lit = rw l v.lit;
  shaped = rw (e, p) v.shaped;
  issued = rw (e, n) v.issued;
}

pub Keeps-trans : (s t u : AppPad) → Keeps s t → Keeps t u → Keeps s u
Keeps-trans s t u (b, r, l, p, e, n, a) (b', r', l', p', e', n', a') =
    (b' ∙ b, r' ∙ r, l' ∙ l, p' ∙ p, e' ∙ e, n' ∙ n, λ d. a' (rw (a d) d) ∙ a d)

pub Keeps-refl : (s : AppPad) → Keeps s s
Keeps-refl s = (refl, refl, refl, refl, refl, refl, λ d. refl)

expire_lease-Keeps : (s : AppPad) (now : ℕ) → Keeps s (expire_lease s now)
unfolding expire_lease
expire_lease-Keeps s now = ground arith

expire_pending-Keeps : (s : AppPad) (now : ℕ) → Keeps s (expire_pending s now)
unfolding expire_pending
expire_pending-Keeps s now = ground arith

expire_started-Keeps : (s : AppPad) (now : ℕ) → Keeps s (expire_started s now)
unfolding expire_started
expire_started-Keeps s now = ground arith

pub expire-Keeps : (s : AppPad) (now : ℕ) → Keeps s (expire s now)
unfolding expire
expire-Keeps s now =
    let l = expire_lease s now in
    let p = expire_pending l now in
    Keeps-trans s l (expire_started p now) (expire_lease-Keeps s now) (
      Keeps-trans l p (expire_started p now) (expire_pending-Keeps l now)
        (expire_started-Keeps p now))

pub stop-Keeps : (s : AppPad) → Keeps s (stop s)
unfolding stop
stop-Keeps s = ground arith

pub take_peer-Keeps : (s : AppPad) (now : ℕ) (p : Poll) → Keeps s (take_peer s now p)
unfolding take_peer drop_event drop_light
take_peer-Keeps s now p = ground arith

pub ack_event-Keeps : (s : AppPad) (now : ℕ) (a : Ack) → Keeps s (ack_event s now a)
unfolding ack_event
ack_event-Keeps s now a = ground arith

pub mark_delivered-Keeps : (s : AppPad) (p : Poll) → Keeps s (mark_delivered s p)
mark_delivered-Keeps s p = ground arith

pub init-IsSound : (boot : ℕ) → boot ≢ 0 → IsSound (init boot)
unfolding init light_allowed
init-IsSound boot h = record {
  boot_set = h;
  revised = ground arith;
  lit = refl;
  shaped = λ e. absurd (e refl);
  issued = omega arith;
}

pub configure-IsSound : (s : AppPad) (l : Light) → IsSound s → IsSound (configure s l).1
unfolding configure
configure-IsSound s l v = elim (Bool-cases (light_allowed l && s.revision != uint64_max)) [
  | inl ok ↦ rw ok (record {
    boot_set = v.boot_set;
    revised = omega arith;
    lit = ground arith;
    shaped = v.shaped;
    issued = v.issued;
  })
  | inr no_go ↦ rw no_go v
]

pub place_event-IsSound :
    (s : AppPad) (now : ℕ) (p : Pattern)
    → pattern_allowed p ≡ true
    → IsSound s
    → IsSound (place_event s now p)
place_event-IsSound s now p ok v = record {
  boot_set = v.boot_set;
  revised = v.revised;
  lit = v.lit;
  shaped = λ e. ok;
  issued = omega arith;
}

-- A new event comes only where there was no live one, and takes the next identifier.
pub schedule_cases :
    (s : AppPad) (now : ℕ) (p : Pattern)
    → Keeps s (schedule s now p).1
      ⊎ ((pattern_allowed p ≡ true) × ((schedule s now p).1 ≡ place_event (expire s now) now p))
unfolding schedule try_place
schedule_cases s now p = elim (Bool-cases (pattern_allowed p && s.next_id != uint64_max)) [
  | inr no_go ↦ inl (rw no_go (Keeps-refl s))
  | inl ok ↦ elim (Bool-cases (live (expire s now))) [
    | inl l ↦ inl (rw (ok, l) (expire-Keeps s now))
    | inr l ↦ inr (ground arith, rw (ok, l) refl)
  ]
]
