-- ===== src/Controllers/Mamba/Decoder.antt =====
-- The buttons that core/src/controller_mamba.c reads, against the bits that core/src/gc_rawmap.c
-- takes them to have.
use ghostcontrol_ps5_usb_con.Base.{
  ◌≡◌, refl, ap₂, sym, ℕ, zero, suc, ◌+◌, arith, Bool, true, false, List,
}
use ghostcontrol_ps5_usb_con.Controllers.PadData.{PadData, at, bit, when}
use ghostcontrol_ps5_usb_con.Controllers.Mamba.{
  buttons_2, buttons_3, trigger_buttons, xinput_parse_input, xinput_handle_packet,
}
use ghostcontrol_ps5_usb_con.Pad.Rawmap.{is_xusb}
use ghostcontrol_ps5_usb_con.Pad.Rawmap.Sources.{xusb_decoder_bit}

-- The buttons of the first `n` bits of a byte of the report.
unfoldable pub decoded : ℕ → ℕ → ℕ → ℕ
decoded byte value zero = 0
decoded byte value (suc n) = decoded byte value n + when (bit value n) (xusb_decoder_bit byte n)

when-zero : (c : Bool) → when c 0 ≡ 0
when-zero true = refl
when-zero false = refl

decoded-byte_2 : (v : ℕ) → decoded 2 v 8 ≡ buttons_2 v
unfolding decoded xusb_decoder_bit
decoded-byte_2 v = omega arith

decoded-byte_3 : (v : ℕ) → decoded 3 v 8 ≡ buttons_3 v
unfolding decoded xusb_decoder_bit
decoded-byte_3 v = omega (arith, when-zero (bit v 3))

-- Every button bit of an XUSB report is the one that the raw mapping takes out again: the buttons
-- of the parser are those of the decoder's bits in bytes 2 and 3, with the two triggers. The
-- parser takes a report exactly when the raw mapping calls it XUSB.
pub xinput_handle_packet-decoded :
    (b : List ℕ) (pad : PadData)
    → ((xinput_handle_packet b pad).0 ≡ is_xusb b)
      × ((xinput_parse_input b pad).buttons
          ≡ decoded 2 (at b 2) 8 + decoded 3 (at b 3) 8 + trigger_buttons (at b 4) (at b 5))
unfolding xinput_parse_input xinput_handle_packet is_xusb
xinput_handle_packet-decoded b pad = (
  ground arith,
  sym (
      ap₂ (λ x y. x + y + trigger_buttons (at b 4) (at b 5)) (decoded-byte_2 (at b 2))
        (decoded-byte_3 (at b 3))),
)
