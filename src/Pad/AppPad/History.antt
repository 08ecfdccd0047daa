-- ===== src/Pad/AppPad/History.antt =====
-- The events of the app pad of core/src/gc_app_pad.c over every history of calls.
use ghostcontrol_ps5_usb_con.Base.{
  ℕ, ◌≤◌, ◌<◌, ◌≡◌, ◌⊎◌, inl, inr, refl, sym, ◌∙◌, Bool-cases, false, List, [], ◌∷◌, arith,
}
use ghostcontrol_ps5_usb_con.Pad.AppPad.{
  AppPad, Light, Pattern, Poll, Ack, live, expire, stop, configure, schedule, status,
}
use ghostcontrol_ps5_usb_con.Pad.AppPad.Exchange.{
  take_peer, mark_delivered, poll, poll_refused, ack_event, ack, ack_refused,
}
use ghostcontrol_ps5_usb_con.Pad.AppPad.Sound.{
  IsSound, Keeps, Ages, Keeps-refl, Keeps-trans, Keeps-IsSound, configure-IsSound,
  place_event-IsSound, schedule_cases, expire-Keeps, stop-Keeps, take_peer-Keeps,
  mark_delivered-Keeps, ack_event-Keeps,
}

pub data Op : Type 0 where
  configuring : Light → Op
  scheduling : ℕ → Pattern → Op
  stopping : Op
  asking : ℕ → Op
  polling : ℕ → Poll → Op
  acking : ℕ → Ack → Op

unfoldable pub step : AppPad → Op → AppPad
step s (configuring l) = (configure s l).1
step s (scheduling now p) = (schedule s now p).1
step s stopping = stop s
step s (asking now) = status s now
step s (polling now p) = (poll s now p).1
step s (acking now a) = (ack s now a).1

unfoldable pub run : AppPad → List Op → AppPad
run s [] = s
run s (o ∷ os) = run (step s o) os

pub poll-Keeps : (s : AppPad) (now : ℕ) (p : Poll) → Keeps s (poll s now p).1
unfolding poll
poll-Keeps s now p = elim (Bool-cases (poll_refused s now p)) [
  | inl r ↦ rw r (Keeps-refl s)
  | inr r ↦
      let e = expire s now in
      let t = take_peer e now p in
      rw r (
        Keeps-trans s e (mark_delivered t p) (expire-Keeps s now) (
          Keeps-trans e t (mark_delivered t p) (take_peer-Keeps e now p)
            (mark_delivered-Keeps t p)))
]

ack-Keeps : (s : AppPad) (now : ℕ) (a : Ack) → Keeps s (ack s now a).1
unfolding ack
ack-Keeps s now a = elim (Bool-cases (ack_refused s now a)) [
  | inl r ↦ rw r (Keeps-refl s)
  | inr r ↦
      let u : AppPad = record s {
        light_ack_revision = a.revision;
        light_rc = a.light_rc;
        reset_rc = a.reset_rc;
      } in
      let k : Keeps s u = (refl, refl, refl, refl, refl, refl, λ d. refl) in
      rw r (Keeps-trans s u (ack_event u now a) k (ack_event-Keeps u now a))
]

pub step-IsSound : (s : AppPad) (o : Op) → IsSound s → IsSound (step s o)
unfolding step status
step-IsSound s (configuring l) v = configure-IsSound s l v
step-IsSound s (scheduling now p) v = elim (schedule_cases s now p) [
  | inl k ↦ Keeps-IsSound s (schedule s now p).1 k v
  | inr (ok, e) ↦ rw e (
      place_event-IsSound (expire s now) now p ok
        (Keeps-IsSound s (expire s now) (expire-Keeps s now) v))
]
step-IsSound s stopping v = Keeps-IsSound s _ (stop-Keeps s) v
step-IsSound s (asking now) v = Keeps-IsSound s _ (expire-Keeps s now) v
step-IsSound s (polling now p) v = Keeps-IsSound s _ (poll-Keeps s now p) v
step-IsSound s (acking now a) v = Keeps-IsSound s _ (ack-Keeps s now a) v

-- An event is replaced by one with a larger identifier, or it ages.
abbrev Moves : AppPad → AppPad → Type 0
Moves s t = (s.event_id < t.event_id) ⊎ ((t.event_id ≡ s.event_id) × Ages s t)

Keeps-Moves : (s t : AppPad) → Keeps s t → Moves s t
Keeps-Moves s t (b, r, l, p, e, n, a) = inr (e, a)

configure-Moves : (s : AppPad) (l : Light) → Moves s (configure s l).1
unfolding configure
configure-Moves s l = inr (ground arith)

step-Moves : (s : AppPad) (o : Op) → IsSound s → Moves s (step s o)
unfolding step status
step-Moves s (configuring l) v = configure-Moves s l
step-Moves s (scheduling now p) v = elim (schedule_cases s now p) [
  | inl k ↦ Keeps-Moves s (schedule s now p).1 k
  | inr (ok, e) ↦ inl (rw e (let k = expire-Keeps s now in rw (k.5) (omega (arith, v.issued))))
]
step-Moves s stopping v = Keeps-Moves s (stop s) (stop-Keeps s)
step-Moves s (asking now) v = Keeps-Moves s (expire s now) (expire-Keeps s now)
step-Moves s (polling now p) v = Keeps-Moves s (poll s now p).1 (poll-Keeps s now p)
step-Moves s (acking now a) v = Keeps-Moves s (ack s now a).1 (ack-Keeps s now a)

-- Over any history of calls on an app pad that is sound, it stays sound, so its boot number is not
-- 0 and its light and the pattern of its event are within the limits; the identifier of the event
-- never goes down; and while it is the same, an event that is over stays in the state it ended in.
pub run_ages :
    (s : AppPad) (os : List Op)
    → IsSound s
    → IsSound (run s os)
      × (s.event_id ≤ (run s os).event_id)
      × (live s ≡ false → (run s os).event_id ≡ s.event_id → (run s os).event_state ≡ s.event_state)
unfolding run
run_ages s [] v = (v, omega arith, λ d e. refl)
run_ages s (o ∷ os) v =
    let (w, up, rest) = run_ages (step s o) os (step-IsSound s o v) in
    elim (step-Moves s o v) [
      | inl less ↦ (w, omega arith, λ d e. absurd (omega arith))
      | inr (same, a) ↦ (w, omega arith, λ d e. rest (rw (a d) d) (e ∙ sym same) ∙ a d)
    ]
