-- ===== src/Bt/Tests.antt =====
-- The theorems on core/src/bt at concrete inputs, and runs of the code.
use ghostcontrol_ps5_usb_con.Base.{
  ℕ, ◌+◌, ◌≤◌, ◌≡◌, ◌≢◌, ◌↔◌, ◌⊎◌, refl, true, false, some, List, [], ◌∷◌, inl, arith,
}
use ghostcontrol_ps5_usb_con.Base.{ℤ, pos, negsuc}
use ghostcontrol_ps5_usb_con.Bt.LinkPolicy.{
  LinkRequest, allowed, manual, auto, audio, take, link_role, link_decide,
}
use ghostcontrol_ps5_usb_con.Bt.LinkPolicy.Decision.{link_decide-take_iff}
use ghostcontrol_ps5_usb_con.Bt.HandleEpoch.{
  init, connect, disconnect, owns, epoch_of, addr_of, find_slot,
}
use ghostcontrol_ps5_usb_con.Bt.HandleEpoch.Slots.{connect-owns}
use ghostcontrol_ps5_usb_con.Bt.HandleEpoch.Sound.{
  Op, connecting, disconnecting, step, run, IsSound, init-IsSound, run-IsSound,
}
use ghostcontrol_ps5_usb_con.Bt.HandleEpoch.Stale.{stale_never_owned}
use ghostcontrol_ps5_usb_con.Bt.EvStream.{evstream_init}
use ghostcontrol_ps5_usb_con.Bt.EvStream.Reassembly.{Pieces, feed_all, feed_all-reassembles}
use ghostcontrol_ps5_usb_con.Bt.HciRx.{
  Entry, HciRx, rx_init, put, rx_read, rx_next, rx_fail, idle, packet, packet_event,
}
use ghostcontrol_ps5_usb_con.Bt.HciRx.Queue.{contents, InBounds, push, Counts, lost_of, put_refines}
use ghostcontrol_ps5_usb_con.Bt.HciRx.Valid.{IsPacket, IsValid, Outcome, put-IsValid}
use ghostcontrol_ps5_usb_con.Bt.HciRx.Read.{rx_read-Outcome}
use ghostcontrol_ps5_usb_con.Bt.HciRx.Take.{rx_init-IsValid, rx_next_lem}

-- Headphones that the user un-blocked, with unattended audio on.
abbrev headphones : LinkRequest
headphones = record {
  cod = 0x240418;
  saved_target = false;
  auto_accept_audio = true;
  block = allowed;
}

link_decide-take_iff_example : (link_decide (some headphones) ≡ take) ↔ (
    (headphones.block ≢ manual)
    × (link_role headphones.cod ≡ audio)
    × ((headphones.saved_target ≡ true)
        ⊎ ((headphones.block ≢ auto) × (headphones.auto_accept_audio ≡ true))))
link_decide-take_iff_example = link_decide-take_iff headphones

abbrev gaps : List ℤ
gaps = pos 10 ∷ negsuc 4 ∷ pos 5000 ∷ pos 26 ∷ []

abbrev one : ℕ
one = 1

connect-owns_example :
    let t = (connect init 7 40).0 in
    (owns t 40 1 ≡ (t, true)) × (epoch_of t 40 ≡ 1) × (addr_of t 40 ≡ some 7) × (one ≢ 0)
unfolding init connect find_slot
connect-owns_example = connect-owns init 7 40 1 (omega arith) refl refl

abbrev before : List Op
before = connecting 7 40 ∷ connecting 8 41 ∷ []

abbrev after : List Op
after = connecting 7 40 ∷ disconnecting 41 ∷ []

run-IsSound_example :
    IsSound (run init before) × ((run init before).next_epoch ≤ init.next_epoch + 2)
unfolding init
run-IsSound_example = run-IsSound init before (omega arith) init-IsSound

-- The handle 40 comes back under a new epoch, and the old epoch 1 stays out.
stale_never_owned_example : (owns (run (disconnect (run init before) 40) after) 40 1).1 ≡ false
unfolding init run step connect owns find_slot
stale_never_owned_example = stale_never_owned before after 40 1 40 (omega arith) refl

-- A command status and a command complete event, cut within both.
abbrev first_piece : List ℕ
first_piece = 0x0f ∷ 4 ∷ 0 ∷ []

abbrev later : Pieces
later = ((1 ∷ 0x1d ∷ 0x04 ∷ 0x0e ∷ []), 1010) ∷ ((3 ∷ 1 ∷ 0 ∷ 0 ∷ 0x13 ∷ []), 1100) ∷ []

abbrev status_event : List ℕ
status_event = 0x0f ∷ 4 ∷ 0 ∷ 1 ∷ 0x1d ∷ 0x04 ∷ []

abbrev complete_event : List ℕ
complete_event = 0x0e ∷ 3 ∷ 1 ∷ 0 ∷ 0 ∷ []

feed_all-reassembles_example :
    let (s, out) = feed_all evstream_init ((first_piece, 1000) ∷ later) in
    (out ≡ status_event ∷ complete_event ∷ []) × (s.buf ≡ 0x13 ∷ []) × (s.dropped ≡ 0)
feed_all-reassembles_example =
    feed_all-reassembles first_piece 1000 later (status_event ∷ complete_event ∷ []) (0x13 ∷ [])
      (omega arith) (omega arith) (omega arith)
      (record { whole = refl; events = omega arith; partial = λ p. absurd (omega arith) })

abbrev event_entry : Entry
event_entry = record { bytes = complete_event; len = 5; kind = packet_event }

put_refines_example :
    let (rx, r) = put rx_init packet_event complete_event in
    (r ≡ some 1)
    × InBounds rx
    × (contents rx ≡ push [] event_entry)
    × (rx.failed ≡ false)
    × (rx.stream ≡ evstream_init)
    × Counts rx_init rx (lost_of (contents rx_init))
put_refines_example = put_refines rx_init packet_event complete_event (omega arith) refl

rx_read-Outcome_example :
    Outcome (rx_read rx_init packet_event (some first_piece) (pos 3) 1000 true true)
rx_read-Outcome_example =
    rx_read-Outcome rx_init packet_event (some first_piece) (pos 3) 1000 true true rx_init-IsValid
      (omega arith)

abbrev queued : HciRx
queued = (put rx_init packet_event complete_event).0

complete_event-IsPacket : IsPacket event_entry
complete_event-IsPacket = record {
  exact = refl;
  fits = omega arith;
  whole = inl (refl, (omega arith, refl));
}

rx_next_lem_example :
    let (rx, r) = rx_next queued true 2048 in
    IsValid rx
    × (((contents queued ≡ []) × (r ≡ idle) × (rx ≡ queued))
        ⊎ ((e : Entry) × (contents queued ≡ e ∷ contents rx) × (r ≡ packet e.kind e.bytes)))
rx_next_lem_example =
    rx_next_lem queued 2048
      (put-IsValid rx_init packet_event complete_event rx_init-IsValid complete_event-IsPacket)
      (omega arith)

abbrev dead : HciRx
dead = rx_fail rx_init
