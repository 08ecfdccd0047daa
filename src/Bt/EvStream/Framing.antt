-- ===== src/Bt/EvStream/Framing.antt =====
-- What it is to cut a byte stream into HCI events, and that it can be done in one way only.
use ghostcontrol_ps5_usb_con.Base.{
  ℕ, ◌≤◌, ◌<◌, ◌≡◌, refl, sym, ap, ap₂, ◌∙◌, All-append, List, [], ◌∷◌, ◌++◌, length, get_or, take,
  drop, arith, All, flatten, take-length, drop-length, get_or-append, length-append, flatten-append,
}
use mathlib.Core.List.{append_assoc}
use ghostcontrol_ps5_usb_con.Bt.EvStream.{event_need}

-- A whole event: two bytes of header, and as many more as the second byte says.
abbrev pub IsEvent : List ℕ → Type 0
IsEvent e = (2 ≤ length e) × (length e ≡ event_need e)

-- Not yet a whole event.
abbrev pub IsPartial : List ℕ → Type 0
IsPartial bs = 2 ≤ length bs → length bs < event_need bs

-- The stream is these events, and then the beginning of one more.
pub record IsFraming (stream : List ℕ) (evs : List (List ℕ)) (rest : List ℕ) : Type 0 where
  pub whole : flatten evs ++ rest ≡ stream
  pub events : All IsEvent evs
  pub partial : IsPartial rest

-- A stream that starts with an event is no half event.
event-not-IsPartial : (e xs : List ℕ) → IsEvent e → ¬ (IsPartial (e ++ xs))
event-not-IsPartial e xs v p = absurd (
    omega (
      arith,
      p (omega (arith, length-append e xs)),
      length-append e xs,
      get_or-append e xs 1 0 (omega arith),
    ))

-- Two streams that are equal and start with an event start with the same one.
same_event :
    (e e' xs ys : List ℕ) → IsEvent e → IsEvent e' → e ++ xs ≡ e' ++ ys → (e ≡ e') × (xs ≡ ys)
same_event e e' xs ys v v' q =
    let second = get_or-append e xs 1 0 (omega arith) in
    let second' = get_or-append e' ys 1 0 (omega arith) in
    let n : length e ≡ length e' = omega (arith, second, second', ap (λ l. get_or l 1 0) q) in
    (
      sym (take-length e xs _ n) ∙ ap (take (length e')) q ∙ take-length e' ys _ refl,
      sym (drop-length e xs _ n) ∙ ap (drop (length e')) q ∙ drop-length e' ys _ refl,
    )

framings-eq :
    (evs evs' : List (List ℕ)) (rest rest' : List ℕ)
    → All IsEvent evs
    → All IsEvent evs'
    → IsPartial rest
    → IsPartial rest'
    → flatten evs ++ rest ≡ flatten evs' ++ rest'
    → (evs ≡ evs') × (rest ≡ rest')
framings-eq [] [] rest rest' v v' p p' q = (refl, q)
framings-eq [] (e' ∷ evs') rest rest' v v' p p' q =
    absurd (event-not-IsPartial e' (flatten evs' ++ rest') v'.0 (rw (← append_assoc, ← q) p))
framings-eq (e ∷ evs) [] rest rest' v v' p p' q =
    absurd (event-not-IsPartial e (flatten evs ++ rest) v.0 (rw (← append_assoc, q) p'))
framings-eq (e ∷ evs) (e' ∷ evs') rest rest' v v' p p' q =
    let regrouped =
      sym (append_assoc e (flatten evs) rest) ∙ q ∙ append_assoc e' (flatten evs') rest' in
    let (heads, tails) = same_event e e' _ _ v.0 v'.0 regrouped in
    let ih = framings-eq evs evs' rest rest' v.1 v'.1 p p' tails in (ap₂ ◌∷◌ heads ih.0, ih.1)

-- Two framings of one stream have the same events and the same rest.
pub framing_unique :
    (stream : List ℕ) (evs evs' : List (List ℕ)) (rest rest' : List ℕ)
    → IsFraming stream evs rest
    → IsFraming stream evs' rest'
    → (evs ≡ evs') × (rest ≡ rest')
framing_unique stream evs evs' rest rest' f f' =
    framings-eq evs evs' rest rest' f.events f'.events f.partial f'.partial (f.whole ∙ sym f'.whole)

-- A framing goes on over the bytes that follow.
pub IsFraming-append :
    (xs ys : List ℕ) (evs evs' : List (List ℕ)) (rest rest' : List ℕ)
    → IsFraming xs evs rest
    → IsFraming (rest ++ ys) evs' rest'
    → IsFraming (xs ++ ys) (evs ++ evs') rest'
IsFraming-append xs ys evs evs' rest rest' f f' = record {
  whole = rw (flatten-append, append_assoc, f'.whole, ← append_assoc, f.whole);
  events = All-append IsEvent evs evs' f.events f'.events;
  partial = f'.partial;
}
