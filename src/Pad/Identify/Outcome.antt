-- ===== src/Pad/Identify/Outcome.antt =====
-- What an identification of core/src/gc_vpad_identify.c comes to.
use ghostcontrol_ps5_usb_con.Base.{
  ℕ, ◌+◌, ◌≤◌, ◌≡◌, ◌≢◌, ◌↔◌, ◌⊎◌, true, false, List, [], ◌∷◌, All, arith,
}
use ghostcontrol_ps5_usb_con.Pad.Identify.{
  pending, identified, VpadIdentify, on_device, poll, clock_went_back,
}

-- A device line with its time, or the time of a poll.
pub data Event : Type 0 where
  device : ℕ → ℕ → Event
  polling : ℕ → Event

unfoldable pub step : VpadIdentify → Event → VpadIdentify
step s (device now id) = (on_device s now id).1
step s (polling now) = (poll s now).1

unfoldable pub run : VpadIdentify → List Event → VpadIdentify
run s [] = s
run s (o ∷ os) = run (step s o) os

-- The event names no device, or only this one.
abbrev pub IsOf : ℕ → Event → Type 0
IsOf d (device now id) = (id ≡ 0) ⊎ (id ≡ d)
IsOf d (polling now) = Unit

abbrev pub Names : ℕ → List Event → Type 0
Names d [] = ⊥
Names d (device now id ∷ os) = (id ≡ d) ⊎ Names d os
Names d (polling now ∷ os) = Names d os

step_idle : (s : VpadIdentify) (o : Event) → s.active ≡ false → step s o ≡ s
unfolding step on_device poll
step_idle s (device now id) h = ground arith
step_idle s (polling now) h = ground arith

run_idle : (s : VpadIdentify) (os : List Event) → s.active ≡ false → run s os ≡ s
unfolding run
run_idle s [] h = ground arith
run_idle s (o ∷ os) h = rw (step_idle s o h) (run_idle s os h)

-- While the identification runs, either no device was named, or exactly one was.
abbrev One : VpadIdentify → List Event → Type 0
One s os =
    ((s.candidates ≡ 0) × All (IsOf 0) os)
    ⊎ ((s.candidates ≡ 1) × (s.device_id ≢ 0) × All (IsOf s.device_id) os × Names s.device_id os)

-- The step took the first candidate, which its event named.
abbrev Taken : VpadIdentify → Event → Type 0
Taken t o =
    (t.active ≡ true)
    × (t.candidates ≡ 1)
    × (t.device_id ≢ 0)
    × IsOf t.device_id o
    × ((os : List Event) → Names t.device_id (o ∷ os))

poll_over :
    (s : VpadIdentify) (now : ℕ)
    → s.active ≡ true
    → s.start_ms + s.identify_ms ≤ now
    → ((poll s now).0 ≢ pending)
      × ((poll s now).1.active ≡ false)
      × (((poll s now).1.result ≡ identified) ↔ (s.candidates ≡ 1))
unfolding poll clock_went_back
poll_over s now a h = ground arith

-- A poll once the window is over settles an open identification, and later device lines and polls
-- change nothing; unless the clock went back, it identifies exactly if there is one candidate.
window_settles :
    (s : VpadIdentify) (now : ℕ) (os : List Event)
    → s.active ≡ true
    → s.start_ms + s.identify_ms ≤ now
    → let t = (poll s now).1 in
      ((poll s now).0 ≢ pending)
      × (t.active ≡ false)
      × (run t os ≡ t)
      × ((t.result ≡ identified) ↔ (s.candidates ≡ 1))
window_settles s now os a h =
    let p = poll_over s now a h in (p.0, p.1, run_idle (poll s now).1 os p.1, p.2)
