-- ===== src/Pad/AppPad/Command.antt =====
-- core/src/gc_app_pad.c, `gc_app_pad_command`: a command text is told by its name alone, so it is
-- a constructor here; the output buffer is there and large enough. What the source prints into it
-- is an `Answer`, and a reply takes less than 512 bytes there, so printing it does not fail.
use ghostcontrol_ps5_usb_con.Base.{
  ℕ, ◌-◌, ◌^◌, ◌≡◌, refl, inl, inr, arith, Option-cases, Bool, true, false, Option, none, some,
  List, [], ◌∷◌, get_or, leb, if◌then◌else◌, u32,
}
use ghostcontrol_ps5_usb_con.Base.{ℤ, pos, negsuc}
use ghostcontrol_ps5_usb_con.Pad.AppPad.{AppPad, Poll, Ack, Reply}
use ghostcontrol_ps5_usb_con.Pad.AppPad.Exchange.{poll, ack}
use ghostcontrol_ps5_usb_con.Pad.AppPad.Wire.{fields, fits, int_max}

pub data Command : Type 0 where
  poll_command ack_command other_command : Command

pub data Answer : Type 0 where
  replied : Reply → Answer
  accepted rejected : Answer

-- `(int)(int64_t)v`.
abbrev pub to_int : ℕ → ℤ
to_int v = if leb (u32 v) int_max then pos (u32 v) else negsuc (2 ^ 32 - u32 v - 1)

abbrev pub poll_of : List ℕ → Poll
poll_of v = record {
  session = get_or v 0 0;
  generation = get_or v 1 0;
  connected = get_or v 2 0;
  caps = get_or v 3 0;
  read_rc = to_int (get_or v 4 0);
  handle_rc = to_int (get_or v 5 0);
}

abbrev pub ack_of : List ℕ → Ack
ack_of v = record {
  session = get_or v 0 0;
  generation = get_or v 1 0;
  boot = get_or v 2 0;
  revision = get_or v 3 0;
  light_rc = to_int (get_or v 4 0);
  event_id = get_or v 5 0;
  phase = get_or v 6 0;
  mode_rc = to_int (get_or v 7 0);
  start_rc = to_int (get_or v 8 0);
  stop_rc = to_int (get_or v 9 0);
  reset_rc = to_int (get_or v 10 0);
}

-- The places that may have a sign: the last two of six, and 4, 7, 8, 9 and 10 of eleven.
abbrev pub poll_signs : List Bool
poll_signs = false ∷ false ∷ false ∷ false ∷ true ∷ true ∷ []

abbrev pub ack_signs : List Bool
ack_signs = false ∷ false ∷ false ∷ false ∷ true ∷ false ∷ false ∷ true ∷ true ∷ true ∷ true ∷ []

abbrev pub answer_poll : Option Reply × AppPad → Answer × AppPad
answer_poll (none, s) = (rejected, s)
answer_poll (some r, s) = (replied r, s)

abbrev pub answer_ack : Bool × AppPad → Answer × AppPad
answer_ack (true, s) = (accepted, s)
answer_ack (false, s) = (rejected, s)

abbrev pub on_poll : AppPad → ℕ → Option (List ℕ) → Answer × AppPad
on_poll s now none = (rejected, s)
on_poll s now (some v) = if fits v 2 2 then answer_poll (poll s now (poll_of v)) else (rejected, s)

abbrev pub on_ack : AppPad → ℕ → Option (List ℕ) → Answer × AppPad
on_ack s now none = (rejected, s)
on_ack s now (some v) =
    if leb (get_or v 6 0) 4 then answer_ack (ack s now (ack_of v)) else (rejected, s)

unfoldable pub command : AppPad → ℕ → Command → List ℕ → Answer × AppPad
command s now poll_command text = on_poll s now (fields poll_signs text 0)
command s now ack_command text = on_ack s now (fields ack_signs text 0)
command s now other_command text = (rejected, s)

ack_rejected :
    (s : AppPad) (now : ℕ) (a : Ack)
    → (answer_ack (ack s now a)).0 ≡ rejected
    → (answer_ack (ack s now a)).1 ≡ s
unfolding ack
ack_rejected s now a h = ground arith

poll_rejected :
    (s : AppPad) (now : ℕ) (p : Poll)
    → (answer_poll (poll s now p)).0 ≡ rejected
    → (answer_poll (poll s now p)).1 ≡ s
unfolding poll
poll_rejected s now p h = ground arith

-- A command that is answered with the error, whatever the reason, leaves the pad as it was.
pub rejected_unchanged :
    (s : AppPad) (now : ℕ) (c : Command) (text : List ℕ)
    → (command s now c text).0 ≡ rejected
    → (command s now c text).1 ≡ s
unfolding command
rejected_unchanged s now poll_command text h = elim (Option-cases (fields poll_signs text 0)) [
  | inl n ↦ rw n refl
  | inr (v, e) ↦ ground (arith, poll_rejected s now (poll_of v))
]
rejected_unchanged s now ack_command text h = elim (Option-cases (fields ack_signs text 0)) [
  | inl n ↦ rw n refl
  | inr (v, e) ↦ ground (arith, ack_rejected s now (ack_of v))
]
rejected_unchanged s now other_command text h = refl
