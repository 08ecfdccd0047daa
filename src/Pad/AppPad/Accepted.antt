-- ===== src/Pad/AppPad/Accepted.antt =====
-- What core/src/gc_app_pad.c replies to a poll is what its reader accepts.
use ghostcontrol_ps5_usb_con.Base.{
  ℕ, ◌≤◌, ◌<◌, ◌≡◌, ◌≢◌, ◌⊎◌, ◌∙◌, inl, inr, refl, Bool-cases, true, false, Option, none, some, ap,
  arith, sub64, u32, List, [], ◌∷◌,
}
use ghostcontrol_ps5_usb_con.Pad.AppPad.{
  AppPad, Poll, Reply, is_pending, expire, expire_lease, expire_pending, expire_started,
  light_allowed, pattern_allowed,
}
use ghostcontrol_ps5_usb_con.Pad.AppPad.Exchange.{
  take_peer, drop_event, drop_light, poll, poll_refused, reply_to, offers_event,
}
use ghostcontrol_ps5_usb_con.Pad.AppPad.Wire.{
  head_allowed, event_allowed, fields, fits, unsigned_20, reply_of, checked_reply, parse_reply,
}
use ghostcontrol_ps5_usb_con.Pad.AppPad.Sound.{
  IsSound, Keeps-trans, Keeps-IsSound, expire-Keeps, take_peer-Keeps,
}

-- A pending event is within its time to live.
Fresh : AppPad → ℕ → Type 0
Fresh s now = is_pending s.event_state ≡ true → sub64 now s.event_created_ms < 5000

expire_pending-Fresh : (s : AppPad) (now : ℕ) → Fresh (expire_pending s now) now
unfolding expire_pending Fresh
expire_pending-Fresh s now h = ground arith

expire_started-Fresh : (s : AppPad) (now : ℕ) → Fresh s now → Fresh (expire_started s now) now
unfolding expire_started Fresh
expire_started-Fresh s now f h = ground (arith, f)

take_peer-Fresh : (s : AppPad) (now : ℕ) (p : Poll) → Fresh s now → Fresh (take_peer s now p) now
unfolding take_peer drop_event drop_light Fresh
take_peer-Fresh s now p f h = ground (arith, f)

head_of_reply :
    (s : AppPad) (now : ℕ) (p : Poll)
    → IsSound s
    → p.generation ≢ 0
    → head_allowed (reply_to s now p) ≡ true
unfolding head_allowed reply_to light_allowed
head_of_reply s now p v g = ground (arith, v.boot_set, v.revised, v.lit)

-- The time left is in the limits.
time_left : (x : ℕ) → x < 5000 → u32 (sub64 5000 x) ≤ 5000
time_left x h = omega arith

offered_id : (s : AppPad) (p : Poll) → offers_event s p ≡ true → s.event_id ≢ 0
unfolding offers_event
offered_id s p h = ground arith

poll_generation :
    (s : AppPad) (now : ℕ) (p : Poll) → poll_refused s now p ≡ false → p.generation ≢ 0
unfolding poll_refused
poll_generation s now p h = ground arith

event_of_reply :
    (s : AppPad) (now : ℕ) (p : Poll)
    → IsSound s
    → Fresh s now
    → event_allowed (reply_to s now p) ≡ true
unfolding event_allowed reply_to pattern_allowed Fresh
event_of_reply s now p v f = elim (Bool-cases (offers_event s p)) [
  | inl o ↦
      let shape = v.shaped (offered_id s p o) in
      rw o (ground (arith, f, shape, time_left (sub64 now s.event_created_ms)))
  | inr o ↦ rw o (ground arith)
]

expire-Fresh : (s : AppPad) (now : ℕ) → Fresh (expire s now) now
unfolding expire
expire-Fresh s now =
    let l = expire_lease s now in
    expire_started-Fresh (expire_pending l now) now (expire_pending-Fresh l now)

-- The twenty values of an answer, in the order of its text.
abbrev pub values_of : Reply → List ℕ
values_of r =
    r.boot ∷ r.revision ∷ r.enabled ∷ r.effect ∷ r.period_ms ∷ r.step_ms ∷ r.r ∷ r.g ∷ r.b ∷ r.lease
    ∷ r.event_id ∷ r.event_state ∷ r.ttl_remaining_ms ∷ r.large ∷ r.small ∷ r.on_ms ∷ r.off_ms
    ∷ r.repeats ∷ r.stop ∷ r.generation ∷ []

-- Without an event the pattern is all 0.
abbrev Quiet : Reply → Type 0
Quiet r = ((r.event_id ≢ 0) ⊎ ((r.on_ms ≡ 0) × (r.off_ms ≡ 0) × (r.repeats ≡ 0)))

reply_to-Quiet : (s : AppPad) (now : ℕ) (p : Poll) → Quiet (reply_to s now p)
unfolding reply_to
reply_to-Quiet s now p = elim (Bool-cases (offers_event s p)) [
  | inl o ↦ rw o (inl (offered_id s p o))
  | inr o ↦ rw o (inr (refl, refl, refl))
]

first_fit : (r : Reply) → head_allowed r ≡ true → fits (values_of r) 2 8 ≡ true
unfolding head_allowed fits
first_fit r h = ground (arith, h)

second_fit : (r : Reply) → event_allowed r ≡ true → Quiet r → fits (values_of r) 11 8 ≡ true
unfolding event_allowed fits
second_fit r h q = ground (arith, h, q)

checked_reply-values_of :
    (r : Reply)
    → head_allowed r ≡ true
    → event_allowed r ≡ true
    → Quiet r
    → checked_reply (values_of r) ≡ some r
unfolding reply_of
checked_reply-values_of r h e q = rw (first_fit r h, second_fit r e q, h, e) refl

parse_reply-values :
    (text v : List ℕ) → fields unsigned_20 text 0 ≡ some v → parse_reply text ≡ checked_reply v
unfolding parse_reply
parse_reply-values text v h =
    ap
      (λ (o : Option (List ℕ)). elim o as (λ _. Option Reply) [
        | none ↦ none
        | some w ↦ checked_reply w
      ])
      h

-- What an app that is not refused is answered.
abbrev pub answer_of : AppPad → ℕ → Poll → Reply
answer_of s now p = reply_to (take_peer (expire s now) now p) now p

-- A poll that a sound app pad does not refuse is answered, and a text whose twenty decimal fields are
-- the values of the answer is accepted by `gc_app_pad_parse_reply`, its checks of 32 bits and of the
-- limits included, and read as that very answer.
pub poll-reply_allowed :
    (s : AppPad) (now : ℕ) (p : Poll) (text : List ℕ)
    → IsSound s
    → poll_refused s now p ≡ false
    → fields unsigned_20 text 0 ≡ some (values_of (answer_of s now p))
    → ((poll s now p).0 ≡ some (answer_of s now p)) × (parse_reply text ≡ some (answer_of s now p))
unfolding poll
poll-reply_allowed s now p text v ok printed =
    let e = expire s now in
    let t = take_peer e now p in
    let kept = Keeps-trans s e t (expire-Keeps s now) (take_peer-Keeps e now p) in
    let sound = Keeps-IsSound s t kept v in
    let head = head_of_reply t now p sound (poll_generation s now p ok) in
    let event = event_of_reply t now p sound (take_peer-Fresh e now p (expire-Fresh s now)) in
    (
      rw ok refl,
      parse_reply-values text (values_of (answer_of s now p)) printed
          ∙ checked_reply-values_of (answer_of s now p) head event (reply_to-Quiet t now p),
    )
