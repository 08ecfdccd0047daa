-- ===== src/Pad/Tests.antt =====
-- The theorems on the console's pads at concrete inputs.
use ghostcontrol_ps5_usb_con.Base.{
  ℕ, ◌<◌, none, ◌≤◌, ◌≡◌, ◌≢◌, ◌↔◌, refl, true, false, some, List, [], ◌∷◌, length, take, All,
  arith,
}
use ghostcontrol_ps5_usb_con.Base.{pos, negsuc}
use ghostcontrol_ps5_usb_con.Pad.Identify.{VpadIdentify, idle, pending, poll}
use ghostcontrol_ps5_usb_con.Pad.Identify.Outcome.{Event, device, run}
use ghostcontrol_ps5_usb_con.Pad.Ds4Policy.{Ds4Source, Ds4GamePad, max_routes, select_routes}
use ghostcontrol_ps5_usb_con.Pad.Ds4Policy.Routes.{Good, ok_count}
use ghostcontrol_ps5_usb_con.Pad.Ds4Policy.Selection.{select_routes-Good}
use ghostcontrol_ps5_usb_con.Pad.AppPad.{
  Poll, Pattern, live, init, expire, expire_lease, expire_pending, expire_started,
}
use ghostcontrol_ps5_usb_con.Pad.AppPad.Exchange
use ghostcontrol_ps5_usb_con.Pad.AppPad.Exchange.{poll_refused}
use ghostcontrol_ps5_usb_con.Pad.AppPad.Wire.{
  fields, field, number, digits, finish, signed_value, close, unsigned_20, parse_reply,
}
use ghostcontrol_ps5_usb_con.Pad.AppPad.Sound.{IsSound, init-IsSound}
use ghostcontrol_ps5_usb_con.Pad.AppPad.History
use ghostcontrol_ps5_usb_con.Pad.AppPad.History.{Op, scheduling, run_ages}
use ghostcontrol_ps5_usb_con.Pad.AppPad.Accepted.{values_of, answer_of, poll-reply_allowed}
use ghostcontrol_ps5_usb_con.Pad.AppPad.Command.{
  command, rejected, other_command, rejected_unchanged,
}
use ghostcontrol_ps5_usb_con.Pad.VdaIdentity.{platform_ps5, ds4, available, refusal, type_value}
use ghostcontrol_ps5_usb_con.Pad.VdaIdentity.Refusals.{refusal_iff}
use Prim.Native.Nat.{◌*◌, ◌<◌}
use ghostcontrol_ps5_usb_con.Pad.Rawmap.{is_xusb, digital_range}
use ghostcontrol_ps5_usb_con.Pad.Rawmap.Masks.{IsByte}

-- No identification yet.
abbrev zeroed : VpadIdentify
zeroed = record {
  result = idle;
  slot = pos 0;
  active = false;
  candidates = 0;
  device_id = 0;
  start_ms = 0;
  first_ms = 0;
  identify_ms = 0;
  ambiguity_ms = 0;
}

abbrev one_line : List Event
one_line = device 1200 0 ∷ device 1250 9 ∷ device 1260 9 ∷ []

abbrev opened : VpadIdentify
opened = record zeroed {
  result = pending;
  active = true;
  candidates = 1;
  device_id = 9;
  start_ms = 1000;
  first_ms = 1250;
  identify_ms = 3000;
  ambiguity_ms = 300;
}

abbrev source : Ds4Source
source = record {
  user_id = pos 5;
  pad_index = pos 0;
  pad_handle = pos 11;
  vendor_id = 0x054c;
  product_id = 0x09cc;
  connected = true;
  identity_verified = true;
}

abbrev game_pad : Ds4GamePad
game_pad = record {
  user_id = pos 5;
  pad_index = pos 0;
  pad_handle = pos 21;
  vendor_id = 0x054c;
  product_id = 0x09cc;
  connected = true;
  valid = true;
}

select_routes-Good_example :
    let first = take max_routes (source ∷ source ∷ []) in
    let out = select_routes (source ∷ source ∷ []) (game_pad ∷ []) in
    Good first (game_pad ∷ []) out.0
    × (length out.0 ≡ ok_count out.1)
    × (length out.1 ≡ length first)
select_routes-Good_example = select_routes-Good (source ∷ source ∷ []) (game_pad ∷ [])

booted : IsSound (init 7)
booted = init-IsSound 7 (ground arith)

abbrev question : Poll
question = record {
  session = 3;
  generation = 1;
  connected = 1;
  caps = 7;
  read_rc = pos 0;
  handle_rc = pos 0;
}

not_refused : poll_refused (init 7) 1000 question ≡ false
unfolding poll_refused init
not_refused = refl

-- 7|1|1|0|2000|32|0|0|0|1500|0|0|0|0|0|0|0|0|1|1
abbrev printed : List ℕ
printed =
    55 ∷ 124 ∷ 49 ∷ 124 ∷ 49 ∷ 124 ∷ 48 ∷ 124 ∷ 50 ∷ 48 ∷ 48 ∷ 48 ∷ 124 ∷ 51 ∷ 50 ∷ 124 ∷ 48 ∷ 124
    ∷ 48 ∷ 124 ∷ 48 ∷ 124 ∷ 49 ∷ 53 ∷ 48 ∷ 48 ∷ 124 ∷ 48 ∷ 124 ∷ 48 ∷ 124 ∷ 48 ∷ 124 ∷ 48 ∷ 124 ∷ 48
    ∷ 124 ∷ 48 ∷ 124 ∷ 48 ∷ 124 ∷ 48 ∷ 124 ∷ 49 ∷ 124 ∷ 49 ∷ []

-- The text has the values of the answer to the first poll.
printed_values : fields unsigned_20 printed 0 ≡ some (values_of (answer_of (init 7) 1000 question))
unfolding fields field number digits finish signed_value close Exchange.reply_to Exchange.take_peer
    Exchange.offers_event Exchange.drop_event Exchange.drop_light expire expire_lease expire_pending
    expire_started init
printed_values = refl

poll-reply_allowed_example :
    ((Exchange.poll (init 7) 1000 question).0 ≡ some (answer_of (init 7) 1000 question))
    × (parse_reply printed ≡ some (answer_of (init 7) 1000 question))
poll-reply_allowed_example =
    poll-reply_allowed (init 7) 1000 question printed booted not_refused printed_values

abbrev shake : Pattern
shake = record { large = 200; small = 0; on_ms = 500; off_ms = 100; repeats = 2 }

abbrev calls : List Op
calls = History.polling 1000 question ∷ scheduling 1100 shake ∷ []

run_ages_example :
    IsSound (History.run (init 7) calls)
    × ((init 7).event_id ≤ (History.run (init 7) calls).event_id)
    × (live (init 7) ≡ false
        → (History.run (init 7) calls).event_id ≡ (init 7).event_id
        → (History.run (init 7) calls).event_state ≡ (init 7).event_state)
run_ages_example = run_ages (init 7) calls booted

refused : (command (init 7) 1000 other_command []).0 ≡ rejected
unfolding command
refused = refl

rejected_unchanged_example : (command (init 7) 1000 other_command []).1 ≡ init 7
rejected_unchanged_example = rejected_unchanged (init 7) 1000 other_command [] refused

refusal_iff_example :
    ((available platform_ps5 ds4 ≡ true) ↔ (refusal platform_ps5 ds4 ≡ none))
    × ((type_value platform_ps5 ds4 ≡ pos 3) ↔ (refusal platform_ps5 ds4 ≡ none))
    × ((type_value platform_ps5 ds4 ≡ negsuc 0) ↔ (refusal platform_ps5 ds4 ≢ none))
refusal_iff_example = refusal_iff platform_ps5 ds4

abbrev raw : List ℕ
raw = 1 ∷ 2 ∷ 3 ∷ 4 ∷ 5 ∷ 6 ∷ 7 ∷ 8 ∷ []

raw-IsByte : All IsByte raw
raw-IsByte = ground arith

raw-range : 9 < (digital_range raw).count * 8
unfolding digital_range is_xusb
raw-range = omega arith
