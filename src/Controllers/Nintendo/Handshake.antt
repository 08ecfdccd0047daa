-- ===== src/Controllers/Nintendo/Handshake.antt =====
-- The handshake of core/src/controller_nintendo.c, and the bytes that its handler reads.
use ghostcontrol_ps5_usb_con.Base.{
  ℕ, ◌≤◌, ◌<◌, ◌≡◌, ◌≢◌, ◌⊎◌, inl, inr, refl, sym, ◌∙◌, true, some, List, [], ◌∷◌, ◌++◌, length,
  get_or-append, arith,
}
use ghostcontrol_ps5_usb_con.Base.{pos}
use ghostcontrol_ps5_usb_con.Controllers.PadData.{PadData, at}
use ghostcontrol_ps5_usb_con.Controllers.Nintendo.{
  streaming, UsbOut, Link, Packet, invalid, ignored, full, simple, ack, usb_reply, packet_of,
  on_packet, report_length_valid, parse_0x30, parse_0x3f, send_subcmd, send_subcmds, setup,
  send_cmd, on_0x81, handle_packet,
}

-- Bytes after the report do not change what is read of it.
parse_0x30-append : (b more : List ℕ) → 12 ≤ length b → parse_0x30 (b ++ more) ≡ parse_0x30 b
unfolding parse_0x30
parse_0x30-append b more h =
    let same : (i : ℕ) → i < 12 → at (b ++ more) i ≡ at b i =
      λ i l. get_or-append b more i 0 (omega arith) in
    rw
      (
        same 3 (omega arith),
        same 4 (omega arith),
        same 5 (omega arith),
        same 6 (omega arith),
        same 7 (omega arith),
        same 8 (omega arith),
        same 9 (omega arith),
        same 10 (omega arith),
        same 11 (omega arith),
      )
      refl

parse_0x3f-append : (b more : List ℕ) → 9 ≤ length b → parse_0x3f (b ++ more) ≡ parse_0x3f b
unfolding parse_0x3f
parse_0x3f-append b more h =
    let same : (i : ℕ) → i < 9 → at (b ++ more) i ≡ at b i =
      λ i l. get_or-append b more i 0 (omega arith) in
    rw
      (
        same 1 (omega arith),
        same 2 (omega arith),
        same 3 (omega arith),
        same 4 (omega arith),
        same 5 (omega arith),
        same 6 (omega arith),
        same 7 (omega arith),
        same 8 (omega arith),
      )
      refl

-- The length that each kind of packet needs.
abbrev needs : Packet → ℕ
needs invalid = 0
needs ignored = 1
needs full = 12
needs simple = 9
needs ack = 13
needs usb_reply = 2

packet_of-needs : (b : List ℕ) → needs (packet_of b) ≤ length b
unfolding packet_of report_length_valid
packet_of-needs b = ground arith

module _ {W : Type 0} (U : UsbOut W) where
  written :
      (s : Link W) (b : List ℕ) (k : Packet) (p : PadData)
      → needs k ≤ length b
      → (on_packet U s b k).2 ≡ some p
      → ((12 ≤ length b) × (p ≡ parse_0x30 b)) ⊎ ((9 ≤ length b) × (p ≡ parse_0x3f b))
  unfolding on_packet
  written s b invalid p l h = absurd (ground arith)
  written s b ignored p l h = absurd (ground arith)
  written s b full p l h = inl (l, cc h)
  written s b simple p l h = inr (l, cc h)
  written s b ack p l h = inl (omega arith, ground arith)
  written s b usb_reply p l h = absurd (ground arith)

-- Pad data that the handler writes was read from the bytes of the report alone: whatever stands
-- after the report in memory, reading it gives the same.
pub handle_packet_in_bounds :
    {W : Type 0} (U : UsbOut W) (s : Link W) (b more : List ℕ) (p : PadData)
    → (handle_packet U s b).2 ≡ some p
    → (p ≡ parse_0x30 (b ++ more)) ⊎ (p ≡ parse_0x3f (b ++ more))
unfolding handle_packet
handle_packet_in_bounds U s b more p h =
    elim (written U s b (packet_of b) p (packet_of-needs b) h) [
      | inl (l, e) ↦ inl (e ∙ sym (parse_0x30-append b more l))
      | inr (l, e) ↦ inr (e ∙ sym (parse_0x3f-append b more l))
    ]

module _ {W : Type 0} (U : UsbOut W) where
  subcmds_hs_state : (s : Link W) (l : List (ℕ × ℕ)) → (send_subcmds U s l).1.hs_state ≡ s.hs_state
  unfolding send_subcmds send_subcmd
  subcmds_hs_state s [] = refl
  subcmds_hs_state s ((c, d) ∷ l) =
      let r = send_subcmd U s c (d ∷ []) in
      let one : r.1.hs_state ≡ s.hs_state = ground arith in
      let rest = subcmds_hs_state r.1 l in ground (arith, one, rest)

  handshake_done :
      (s : Link W) (sub : ℕ)
      → s.hs_state ≢ streaming
      → (on_0x81 U s sub).1.hs_state ≡ streaming
      → (sub ≡ 2)
        × ((send_cmd U s 0x04).0 ≡ pos 0)
        × ((send_subcmds U (send_cmd U s 0x04).1 setup).0 ≡ true)
  unfolding on_0x81
  handshake_done s sub n h = ground (arith, subcmds_hs_state (send_cmd U s 0x04).1 setup)

  -- What made a link stream, by the kind of the packet.
  abbrev Starts : Link W → List ℕ → Packet → Type 0
  Starts s b k =
      ((k ≡ full) × ((on_packet U s b k).2 ≡ some (parse_0x30 b)))
      ⊎ ((k ≡ usb_reply)
          × (at b 1 ≡ 2)
          × ((send_cmd U s 0x04).0 ≡ pos 0)
          × ((send_subcmds U (send_cmd U s 0x04).1 setup).0 ≡ true))

  starts :
      (s : Link W) (b : List ℕ) (k : Packet)
      → s.hs_state ≢ streaming
      → (on_packet U s b k).1.hs_state ≡ streaming
      → Starts s b k
  unfolding on_packet
  starts s b invalid n h = absurd (n h)
  starts s b ignored n h = absurd (n h)
  starts s b full n h = inl (refl, refl)
  starts s b simple n h = absurd (n h)
  starts s b ack n h = absurd (ground arith)
  starts s b usb_reply n h =
      let done = handshake_done s (at b 1) n h in inr (refl, done.0, done.1, done.2)

-- A link that was not streaming streams after a packet only if that was a full report, which the
-- handler then passed on, or the second reply of the handshake, and every command that it calls
-- for was sent.
pub streaming_lem :
    {W : Type 0} (U : UsbOut W) (s : Link W) (b : List ℕ)
    → s.hs_state ≢ streaming
    → (handle_packet U s b).1.hs_state ≡ streaming
    → ((packet_of b ≡ full) × ((handle_packet U s b).2 ≡ some (parse_0x30 b)))
      ⊎ ((packet_of b ≡ usb_reply)
          × (at b 1 ≡ 2)
          × ((send_cmd U s 0x04).0 ≡ pos 0)
          × ((send_subcmds U (send_cmd U s 0x04).1 setup).0 ≡ true))
unfolding handle_packet
streaming_lem U s b n h = starts U s b (packet_of b) n h
