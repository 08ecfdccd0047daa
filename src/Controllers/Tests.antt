-- ===== src/Controllers/Tests.antt =====
-- The theorems on core/src/controller_nintendo.c, controller_logitech.c, controller_mamba.c and
-- the devices of controller_ds3.c and controller_ds4.c at concrete inputs.
use ghostcontrol_ps5_usb_con.Base.{
  pos, ℕ, suc, ◌≡◌, ◌≢◌, ◌⊎◌, refl, true, some, List, [], ◌∷◌, ◌++◌, arith,
}
use ghostcontrol_ps5_usb_con.Controllers.PadData.{PadData, at}
use ghostcontrol_ps5_usb_con.Controllers.Nintendo.{
  UsbOut, Link, wait_81_02, streaming, full, usb_reply, packet_of, report_length_valid, parse_0x30,
  parse_0x3f, send_cmd, send_subcmd, send_subcmds, setup, on_0x81, on_packet, handle_packet,
}
use ghostcontrol_ps5_usb_con.Controllers.Nintendo.Handshake.{streaming_lem, handle_packet_in_bounds}
use Prim.Native.Nat.{◌+◌}
use ghostcontrol_ps5_usb_con.Pad.Rawmap.{is_xusb}
use ghostcontrol_ps5_usb_con.Controllers.Mamba.{
  trigger_buttons, xinput_parse_input, xinput_handle_packet,
}
use ghostcontrol_ps5_usb_con.Controllers.Mamba.Decoder.{decoded, xinput_handle_packet-decoded}
use ghostcontrol_ps5_usb_con.Controllers.Logitech.{isqrt32, isqrt_within, newton}
use ghostcontrol_ps5_usb_con.Controllers.Logitech.Sqrt.{IsRoot, isqrt32-IsRoot}

-- Every command is sent; the world counts them.
abbrev counting : UsbOut ℕ
counting = record { send_cmd = λ w a b. (pos 0, suc w); send_out = λ w p. (pos 0, suc w) }

abbrev waiting : Link ℕ
waiting = record { world = 0; hs_state = wait_81_02; seq = 0 }

abbrev second_reply : List ℕ
second_reply = 0x81 ∷ 0x02 ∷ []

not_yet : waiting.hs_state ≢ streaming
not_yet = ground arith

set_up : (handle_packet counting waiting second_reply).1.hs_state ≡ streaming
unfolding handle_packet on_packet packet_of report_length_valid on_0x81 send_subcmds send_subcmd
set_up = refl

streaming_lem_example :
    ((packet_of second_reply ≡ full)
      × ((handle_packet counting waiting second_reply).2 ≡ some (parse_0x30 second_reply)))
    ⊎ ((packet_of second_reply ≡ usb_reply)
        × (at second_reply 1 ≡ 2)
        × ((send_cmd counting waiting 0x04).0 ≡ pos 0)
        × ((send_subcmds counting (send_cmd counting waiting 0x04).1 setup).0 ≡ true))
streaming_lem_example = streaming_lem counting waiting second_reply not_yet set_up

abbrev report : List ℕ
report = 0x30 ∷ 1 ∷ 0 ∷ 4 ∷ 0 ∷ 0 ∷ 0 ∷ 8 ∷ 128 ∷ 0 ∷ 8 ∷ 128 ∷ []

report_written : (handle_packet counting waiting report).2 ≡ some (parse_0x30 report)
unfolding handle_packet on_packet packet_of report_length_valid
report_written = refl

handle_packet_in_bounds_example :
    (parse_0x30 report ≡ parse_0x30 (report ++ (7 ∷ 7 ∷ [])))
    ⊎ (parse_0x30 report ≡ parse_0x3f (report ++ (7 ∷ 7 ∷ [])))
handle_packet_in_bounds_example =
    handle_packet_in_bounds counting waiting report (7 ∷ 7 ∷ []) (parse_0x30 report) report_written

isqrt32-IsRoot_example :
    (isqrt_within 32513 32513 ≡ some (isqrt32 32513)) × IsRoot 32513 (isqrt32 32513)
isqrt32-IsRoot_example = isqrt32-IsRoot 32513 (omega arith)

root_of_20 : isqrt32 20 ≡ 4
unfolding isqrt32 isqrt_within newton
root_of_20 = refl

abbrev at_rest : PadData
at_rest = record {
  buttons = 0;
  left_x = 128;
  left_y = 128;
  right_x = 128;
  right_y = 128;
  l2 = 0;
  r2 = 0;
  connected = 1;
}

abbrev xusb_report : List ℕ
xusb_report = 0 ∷ 0x14 ∷ 1 ∷ 0x10 ∷ 0 ∷ 200 ∷ 0 ∷ 0 ∷ 0 ∷ 0 ∷ 0 ∷ 0 ∷ 0 ∷ 0 ∷ []

xinput_handle_packet-decoded_example :
    ((xinput_handle_packet xusb_report at_rest).0 ≡ is_xusb xusb_report)
    × ((xinput_parse_input xusb_report at_rest).buttons
        ≡ decoded 2 (at xusb_report 2) 8
          + decoded 3 (at xusb_report 3) 8
          + trigger_buttons (at xusb_report 4) (at xusb_report 5))
xinput_handle_packet-decoded_example = xinput_handle_packet-decoded xusb_report at_rest
