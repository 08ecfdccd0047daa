-- ===== src/Bt/HciRx/Valid.antt =====
-- Every packet that core/src/bt/hci_rx.c queues is whole, whatever bytes arrive.
use ghostcontrol_ps5_usb_con.Base.{
  ℕ, ◌≤◌, ◌≡◌, ◌⊎◌, refl, true, false, Option, none, some, List, [], ◌∷◌, length, drop, arith,
  Bool-cases, inl, inr, ◌==◌, All, All-append, All-drop, All-get_or,
}
use ghostcontrol_ps5_usb_con.Bt.EvStream.Framing.{IsEvent}
use ghostcontrol_ps5_usb_con.Bt.EvStream.Reassembly.{IsByte, IsReady}
use ghostcontrol_ps5_usb_con.Bt.HciRx.{
  Entry, HciRx, put, rx_fail, on_event, on_events, is_malformed, acl_total, packet_event,
  packet_acl, hci_pkt_max,
}
use ghostcontrol_ps5_usb_con.Bt.HciRx.Queue.{contents, InBounds, push, put_refines}

-- An entry that holds one whole packet: an HCI event, or an ACL packet of at most 1100 bytes.
pub record IsPacket (e : Entry) : Type 0 where
  pub exact : e.len ≡ length e.bytes
  pub fits : e.len ≤ hci_pkt_max
  pub whole :
      ((e.kind ≡ packet_event) × IsEvent e.bytes)
      ⊎ ((e.kind ≡ packet_acl) × (4 ≤ e.len) × (e.len ≡ acl_total e.bytes))

-- A transport in order.
pub record IsValid (rx : HciRx) : Type 0 where
  pub bounds : InBounds rx
  pub packets : All IsPacket (contents rx)
  pub ready : IsReady rx.stream
  pub alive : rx.failed ≡ false

-- What a read leaves: a failure that is reported and stays, or a transport in order.
abbrev pub Outcome : HciRx × Option ℕ → Type 0
Outcome p = ((p.1 ≡ none) × (p.0.failed ≡ true)) ⊎ ((r : ℕ) × (p.1 ≡ some r) × IsValid p.0)

-- Failed for good, or in order.
abbrev pub Settled : HciRx → Type 0
Settled rx = (rx.failed ≡ true) ⊎ IsValid rx

push-All : (q : List Entry) (e : Entry) → All IsPacket q → IsPacket e → All IsPacket (push q e)
push-All q e h p = elim (Bool-cases (length q == 64)) [
  | inl f ↦ rw f (All-append IsPacket (drop 1 q) (e ∷ []) (All-drop IsPacket 1 q h) (p, tt))
  | inr f ↦ rw f (All-append IsPacket q (e ∷ []) h (p, tt))
]

pub put-IsValid :
    (rx : HciRx) (kind : ℕ) (bytes : List ℕ)
    → IsValid rx
    → IsPacket (record { bytes = bytes; len = length bytes; kind = kind })
    → IsValid (put rx kind bytes).0
put-IsValid rx kind bytes v p =
    let (r, b, c, ok, s, counted) = put_refines rx kind bytes v.bounds v.alive in
    record {
      bounds = b;
      packets = rw c (push-All (contents rx) _ v.packets p);
      ready = rw s v.ready;
      alive = ok;
    }

event_size : (d : List ℕ) → IsEvent d → All IsByte d → length d ≤ hci_pkt_max
event_size d e b = omega (arith, All-get_or IsByte d 1 0 b (omega arith))

on_event-Settled :
    (rx : HciRx) (d : List ℕ) → Settled rx → IsEvent d → All IsByte d → Settled (on_event rx d)
unfolding on_event
on_event-Settled rx d (inl f) e b = inl (ground arith)
on_event-Settled rx d (inr v) e b = elim (Bool-cases (is_malformed d)) [
  | inl m ↦ inl (ground (arith, v.alive))
  | inr m ↦
      let stored : on_event rx d ≡ (put rx packet_event d).0 = ground (arith, v.alive) in
      rw stored (
        inr (
          put-IsValid rx packet_event d v
            (record { exact = refl; fits = event_size d e b; whole = inl (refl, e) })))
]

pub on_events-Settled :
    (rx : HciRx) (ds : List (List ℕ))
    → Settled rx
    → All IsEvent ds
    → All (All IsByte) ds
    → Settled (on_events rx ds)
unfolding on_events
on_events-Settled rx [] v e b = v
on_events-Settled rx (d ∷ ds) v e b =
    on_events-Settled (on_event rx d) ds (on_event-Settled rx d v e.0 b.0) e.1 b.1

pub rx_fail-failed : (rx : HciRx) → (rx_fail rx).failed ≡ true
unfolding rx_fail
rx_fail-failed rx = refl
