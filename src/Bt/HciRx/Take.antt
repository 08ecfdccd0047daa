-- ===== src/Bt/HciRx/Take.antt =====
-- What hci_rx_next of core/src/bt/hci_rx.c hands out, and that a failure is final.
use ghostcontrol_ps5_usb_con.Base.{
  ℕ, ◌≤◌, ◌≡◌, ◌⊎◌, refl, ap, sym, Bool, true, false, Option, none, List, [], ◌∷◌, length, take,
  arith, inl, inr, All, take_self, List-cases,
}
use ghostcontrol_ps5_usb_con.Base.{ℤ, pos, negsuc}
use ghostcontrol_ps5_usb_con.Bt.HciRx.{
  Entry, HciRx, lost, idle, packet, rx_init, rx_check, rx_read, rx_next, put, is_broken,
  hci_pkt_max,
}
use ghostcontrol_ps5_usb_con.Bt.HciRx.Ring.{length-window}
use ghostcontrol_ps5_usb_con.Bt.HciRx.Queue.{contents, rx_next_refines}
use ghostcontrol_ps5_usb_con.Bt.HciRx.Valid.{IsPacket, IsValid}

-- The tests of hci_rx_next let every whole packet pass.
packet_passes : (e : Entry) (max : ℕ) → IsPacket e → hci_pkt_max ≤ max → is_broken e max ≡ false
unfolding is_broken
packet_passes e max p h = ground arith

take-all : (e : Entry) → IsPacket e → take e.len e.bytes ≡ e.bytes
take-all e p = take_self e.bytes e.len (sym p.exact)

rx_next_empty :
    (rx : HciRx) (max : ℕ) → IsValid rx → rx.count ≡ 0 → rx_next rx true max ≡ (rx, idle)
unfolding rx_next
rx_next_empty rx max v z = ground (arith, v.alive, v.bounds.head_in)

-- With room for 1100 bytes, taking a packet from a transport in order never reports a loss: it
-- finds nothing exactly when nothing is queued, and else hands out the oldest packet, whole, and
-- leaves the others in their order and the transport in order.
pub rx_next_lem :
    (rx : HciRx) (max : ℕ)
    → IsValid rx
    → hci_pkt_max ≤ max
    → let (rx', r) = rx_next rx true max in
      IsValid rx'
      × (((contents rx ≡ []) × (r ≡ idle) × (rx' ≡ rx))
          ⊎ ((e : Entry) × (contents rx ≡ e ∷ contents rx') × (r ≡ packet e.kind e.bytes)))
rx_next_lem rx max v h = elim (List-cases (contents rx)) [
  | inl c ↦
      let empty : rx.count ≡ 0 =
        omega (arith, length-window rx.entries rx.head rx.count, ap length c) in
      let q = rx_next_empty rx max v empty in rw q (v, inl (c, refl, refl))
  | inr (e, q, c) ↦
      let p : IsPacket e × All IsPacket q = rw c at v.packets in
      let pass = packet_passes e max p.0 h in
      let (r, b, left, ok, s) = rx_next_refines rx max e q v.bounds v.alive c pass in
      (
        record { bounds = b; packets = rw left p.1; ready = rw s v.ready; alive = ok },
        inr (e, rw left c, rw (take-all e p.0) at r),
      )
]

-- After a failure every operation reports it and changes nothing.
failed_absorbs :
    (rx : HciRx) (kind : ℕ) (bytes : Option (List ℕ)) (d : List ℕ) (n : ℤ) (now max : ℕ)
    (s r out : Bool)
    → rx.failed ≡ true
    → (rx_check rx now ≡ (rx, none))
      × (put rx kind d ≡ (rx, none))
      × (rx_read rx kind bytes n now s r ≡ (rx, none))
      × (rx_next rx out max ≡ (rx, lost))
unfolding rx_check put rx_read rx_next
failed_absorbs rx kind bytes d (pos n) now max s r out f =
    (ground arith, ground arith, ground arith, ground arith)
failed_absorbs rx kind bytes d (negsuc n) now max s r out f =
    (ground arith, ground arith, ground arith, ground arith)

pub rx_init-IsValid : IsValid rx_init
rx_init-IsValid = record {
  bounds = omega arith;
  packets = tt;
  ready = ((λ p. absurd (omega arith)), tt);
  alive = refl;
}
