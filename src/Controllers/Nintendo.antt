-- ===== src/Controllers/Nintendo.antt =====
-- core/src/controller_nintendo.c: the reports and the handshake of Nintendo's controllers.
-- The calls that send to the USB endpoint are an argument that answers success or failure; the
-- pointers are there, and the constant orientation that each report sets is left out.
pub mod Handshake
use ghostcontrol_ps5_usb_con.Base.{
  ℕ, zero, suc, ◌+◌, ◌-◌, ◌*◌, ◌/◌, ◌%◌, ◌^◌, Bool, true, false, ◌&&◌, ◌||◌, not, Option, none,
  some, List, [], ◌∷◌, ◌++◌, length, get_or, ltb, leb, ◌==◌, ◌!=◌, if◌then◌else◌,
}
use ghostcontrol_ps5_usb_con.Base.{ℤ, pos, negsuc, eq_ℤ}
use ghostcontrol_ps5_usb_con.Controllers.PadData.{
  PadData, pad_up, pad_right, pad_down, pad_left, pad_cross, pad_circle, pad_square, pad_triangle,
  pad_l1, pad_l2, pad_r1, pad_r2, pad_l3, pad_r3, pad_options, pad_share, pad_ps, pad_touch_pad,
  bit, at, when,
}

unfoldable pub ntoh_stick : ℕ → ℕ
ntoh_stick v = ((if ltb 4095 v then 4095 else v) * 255 / 4095) % 256

abbrev pub invert_y : ℕ → ℕ
invert_y value = 255 - value

unfoldable pub hat_to_dpad : ℕ → ℕ
hat_to_dpad hat =
    if hat == 0
    then pad_up
    else if hat == 1
    then pad_up + pad_right
    else if hat == 2
    then pad_right
    else if hat == 3
    then pad_down + pad_right
    else if hat == 4
    then pad_down
    else if hat == 5
    then pad_down + pad_left
    else if hat == 6
    then pad_left
    else if hat == 7
    then pad_up + pad_left
    else 0

-- The buttons of three bytes that both reports share: of the right side, of both, of the left.
unfoldable pub common_buttons : ℕ → ℕ → ℕ → ℕ
unfolding bit
common_buttons br bs bl =
    when (bit br 2) pad_cross
    + when (bit br 3) pad_circle
    + when (bit br 0) pad_square
    + when (bit br 1) pad_triangle
    + when (bit bl 6) pad_l1
    + when (bit bl 7) pad_l2
    + when (bit br 6) pad_r1
    + when (bit br 7) pad_r2
    + when (bit bs 3) pad_l3
    + when (bit bs 2) pad_r3
    + when (bit bs 1) pad_options
    + when (bit bs 0) pad_share
    + when (bit bs 4) pad_ps
    + when (bit bs 5) pad_touch_pad

-- A nibble of a stick's three packed bytes goes to each of its two values of 12 bits.
unfoldable pub parse_0x30 : List ℕ → PadData
unfolding ntoh_stick common_buttons bit
parse_0x30 b = record {
  buttons =
      common_buttons (at b 3) (at b 4) (at b 5)
      + when (bit (at b 5) 1) pad_up
      + when (bit (at b 5) 0) pad_down
      + when (bit (at b 5) 2) pad_right
      + when (bit (at b 5) 3) pad_left;
  left_x = ntoh_stick (at b 6 + 256 * (at b 7 % 16));
  left_y = invert_y (ntoh_stick (at b 7 / 16 + 16 * at b 8));
  right_x = ntoh_stick (at b 9 + 256 * (at b 10 % 16));
  right_y = invert_y (ntoh_stick (at b 10 / 16 + 16 * at b 11));
  l2 = when (bit (at b 5) 7) 255;
  r2 = when (bit (at b 3) 7) 255;
  connected = 1;
}

unfoldable pub parse_0x3f : List ℕ → PadData
unfolding hat_to_dpad common_buttons bit
parse_0x3f b = record {
  buttons = common_buttons (at b 1) (at b 2) (at b 8) + hat_to_dpad (at b 3);
  left_x = at b 4;
  left_y = invert_y (at b 5);
  right_x = at b 6;
  right_y = invert_y (at b 7);
  l2 = when (bit (at b 8) 7) 255;
  r2 = when (bit (at b 1) 7) 255;
  connected = 1;
}

pub data HandshakeState : Type 0 where
  wait_81_01 wait_81_02 streaming : HandshakeState

unfoldable pub report_length_valid : ℕ → ℕ → Bool
report_length_valid id len =
    if id == 0x00 || id == 0x30
    then leb 12 len
    else if id == 0x3f
    then leb 9 len
    else if id == 0x21
    then leb 13 len
    else if id == 0x81
    then leb 2 len
    else leb 1 len

abbrev pub is_streaming : HandshakeState → Bool
is_streaming streaming = true
is_streaming _ = false

abbrev pub awaits_81_01 : HandshakeState → Bool
awaits_81_01 wait_81_01 = true
awaits_81_01 _ = false

-- `usb_send_cmd` and `usb_send_out` on the endpoint, whose answer is 0 or another number.
pub record UsbOut (W : Type 0) : Type 0 where
  pub send_cmd : W → ℕ → ℕ → ℤ × W
  pub send_out : W → List ℕ → ℤ × W

pub record Link (W : Type 0) : Type 0 where
  pub world : W
  pub hs_state : HandshakeState
  pub seq : ℕ

abbrev pub rumble : List ℕ
rumble = 0x00 ∷ 0x01 ∷ 0x40 ∷ 0x40 ∷ 0x00 ∷ 0x01 ∷ 0x40 ∷ 0x40 ∷ []

abbrev pub is_zero : ℤ → Bool
is_zero z = eq_ℤ z (pos 0)

abbrev pub packet_max : ℕ
packet_max = 64

abbrev pub setup : List (ℕ × ℕ)
setup = (0x40, 0x01) ∷ (0x48, 0x01) ∷ (0x30, 0x01) ∷ (0x03, 0x30) ∷ []

-- What the handler takes a report for.
pub data Packet : Type 0 where
  invalid ignored full simple ack usb_reply : Packet

unfoldable pub packet_of : List ℕ → Packet
unfolding report_length_valid
packet_of buf =
    let rid = at buf 0 in
    if length buf == 0
    then invalid
    else if not (report_length_valid rid (length buf))
    then ignored
    else if rid == 0x00 || rid == 0x30
    then if rid == 0x00 && at buf 1 == 0 then ignored else full
    else if rid == 0x3f
    then simple
    else if rid == 0x21
    then ack
    else if rid == 0x81
    then usb_reply
    else ignored

module _ {W : Type 0} (U : UsbOut W) where
  abbrev pub sent : Link W → ℤ × W → ℤ × Link W
  sent s r = (r.0, record s { world = r.1; seq = if is_zero r.0 then (s.seq + 1) % 16 else s.seq })

  unfoldable pub send_subcmd : Link W → ℕ → List ℕ → ℤ × Link W
  send_subcmd s subcmd d =
      if ltb packet_max (11 + length d)
      then (negsuc 0, s)
      else sent s (U.send_out s.world ((0x01 ∷ s.seq % 16 ∷ rumble) ++ (subcmd ∷ d)))

  -- The subcommands in turn, up to the first that fails.
  unfoldable pub send_subcmds : Link W → List (ℕ × ℕ) → Bool × Link W
  send_subcmds s [] = (true, s)
  send_subcmds s ((subcmd, byte) ∷ more) =
      let r = send_subcmd s subcmd (byte ∷ []) in
      let rest = send_subcmds r.1 more in if is_zero r.0 then rest else (false, r.1)

  abbrev pub send_cmd : Link W → ℕ → ℤ × Link W
  send_cmd s c = let r = U.send_cmd s.world 0x80 c in (r.0, record s { world = r.1 })

  -- The report 0x81: the result and the link.
  unfoldable pub on_0x81 : Link W → ℕ → ℤ × Link W
  unfolding send_subcmds
  on_0x81 s sub =
      let one = send_cmd s 0x02 in
      let two = send_cmd s 0x04 in
      let set_up = send_subcmds two.1 setup in
      if is_streaming s.hs_state
      then (pos 0, record s { hs_state = wait_81_01 })
      else if sub == 0x01 && awaits_81_01 s.hs_state
      then if is_zero one.0
        then (pos 0, record one.1 { hs_state = wait_81_02 })
        else (negsuc 0, one.1)
      else if sub == 0x02
      then if not (is_zero two.0)
        then (negsuc 0, two.1)
        else if set_up.0
        then (pos 0, record set_up.1 { hs_state = streaming })
        else (negsuc 0, set_up.1)
      else (pos 0, s)

  abbrev pub with_pad : Link W → PadData → ℤ × Link W × Option PadData
  with_pad s p = (pos 1, s, some p)

  abbrev pub without_pad : ℤ × Link W → ℤ × Link W × Option PadData
  without_pad r = (r.0, r.1, none)

  -- The result 1 comes with the pad data that was written; other results leave it as it was.
  unfoldable pub on_packet : Link W → List ℕ → Packet → ℤ × Link W × Option PadData
  on_packet s buf invalid = without_pad (negsuc 0, s)
  on_packet s buf ignored = without_pad (pos 0, s)
  on_packet s buf full = with_pad (record s { hs_state = streaming }) (parse_0x30 buf)
  on_packet s buf simple = with_pad s (parse_0x3f buf)
  on_packet s buf ack =
      if is_streaming s.hs_state then with_pad s (parse_0x30 buf) else without_pad (pos 0, s)
  on_packet s buf usb_reply = without_pad (on_0x81 s (at buf 1))

  unfoldable pub handle_packet : Link W → List ℕ → ℤ × Link W × Option PadData
  unfolding on_packet packet_of
  handle_packet s buf = on_packet s buf (packet_of buf)
