-- ===== src/Bt/HciRx/Read.antt =====
-- What hci_rx_read of core/src/bt/hci_rx.c leaves behind.
use ghostcontrol_ps5_usb_con.Base.{
  ℕ, zero, suc, ◌≤◌, ◌≡◌, ◌⊎◌, refl, Bool, false, Option, none, some, List, ◌++◌, length, drop,
  take, arith, Bool-cases, inl, inr, ltb, ◌==◌, ◌!=◌, ◌||◌, if◌then◌else◌, flatten, All-flatten,
  All-split, All, All-append, All-take, length-take, get_or-take,
}
use ghostcontrol_ps5_usb_con.Base.{ℤ, pos, negsuc}
use ghostcontrol_ps5_usb_con.Bt.EvStream.{is_stale, feed}
use ghostcontrol_ps5_usb_con.Bt.EvStream.Reassembly.{IsByte, half-lt, feed_lem}
use ghostcontrol_ps5_usb_con.Bt.HciRx.{
  HciRx, rx_fail, rx_check, rx_read, read_checked, read_bytes, read_events, read_acl, on_events,
  acl_total, packet_event, packet_acl, hci_pkt_max, half_event_late, refuses,
}
use ghostcontrol_ps5_usb_con.Bt.HciRx.Queue.{put_refines}
use ghostcontrol_ps5_usb_con.Bt.HciRx.Valid.{
  IsPacket, IsValid, Outcome, Settled, put-IsValid, on_events-Settled, rx_fail-failed,
}

-- One packet cut off the front of ACL data.
acl-IsPacket :
    (d : List ℕ)
    → 4 ≤ length d
    → acl_total d ≤ length d
    → acl_total d ≤ hci_pkt_max
    → IsPacket (record {
      bytes = take (acl_total d) d;
      len = length (take (acl_total d) d);
      kind = packet_acl;
    })
acl-IsPacket d four fits small =
    let n = acl_total d in
    let len = length-take n d fits in
    let two = get_or-take n d 2 0 (omega arith) in
    let three = get_or-take n d 3 0 (omega arith) in
    record {
      exact = refl;
      fits = omega (arith, len);
      whole = inr (refl, omega (arith, len), omega (arith, len, two, three));
    }

fails : (rx : HciRx) → Outcome (rx_fail rx, none)
fails rx = inl (refl, rx_fail-failed rx)

read_acl-Outcome : (fuel : ℕ) (rx : HciRx) (d : List ℕ) → IsValid rx → Outcome (read_acl fuel rx d)
unfolding read_acl
read_acl-Outcome zero rx d v = inr (1, refl, v)
read_acl-Outcome (suc fuel) rx d v = elim (Bool-cases (length d == 0)) [
  | inl a ↦ rw a (inr (1, refl, v))
  | inr a ↦ elim (Bool-cases (ltb (length d) 4)) [
    | inl b ↦ rw (a, b) (fails rx)
    | inr b ↦ elim (Bool-cases (ltb hci_pkt_max (acl_total d) || ltb (length d) (acl_total d))) [
      | inl c ↦ rw (a, b, c) (fails rx)
      | inr c ↦
          let p = acl-IsPacket d (ground arith) (ground arith) (ground arith) in
          let stored = put_refines rx packet_acl (take (acl_total d) d) v.bounds v.alive in
          rw (a, b, c, stored.0)
            (read_acl-Outcome fuel _ (drop (acl_total d) d) (put-IsValid rx packet_acl _ v p))
    ]
  ]
]

abbrev finished : HciRx → HciRx × Option ℕ
finished rx = if rx.failed then (rx_fail rx, none) else (rx, some 1)

settle : (rx : HciRx) → Settled rx → Outcome (finished rx)
settle rx (inl f) = let e : finished rx ≡ (rx_fail rx, none) = ground arith in rw e (fails rx)
settle rx (inr v) =
    let e : finished rx ≡ (rx, some 1) = ground (arith, v.alive) in rw e (inr (1, refl, v))

read_events-Outcome :
    (rx : HciRx) (d : List ℕ) (now : ℕ)
    → IsValid rx
    → All IsByte d
    → is_stale rx.stream now ≡ false
    → Outcome (read_events rx d now)
unfolding read_events
read_events-Outcome rx d now v b fresh =
    let (f, ready, kept) = feed_lem rx.stream d now v.ready b fresh in
    let bytes : All IsByte (rx.stream.buf ++ d) = All-append IsByte rx.stream.buf d v.ready.1 b in
    let start : HciRx = record rx { stream = (feed rx.stream d now).0 } in
    let started : IsValid start = record {
      bounds = record {
        rows = v.bounds.rows;
        head_in = v.bounds.head_in;
        count_in = v.bounds.count_in;
      };
      packets = v.packets;
      ready = ready;
      alive = v.alive;
    } in
    let evs = (feed rx.stream d now).1 in
    let whole : All IsByte (flatten evs ++ (feed rx.stream d now).0.buf) = rw (f.whole) bytes in
    let each = All-flatten IsByte evs (All-split IsByte (flatten evs) _ whole).0 in
    settle (on_events start evs) (on_events-Settled start evs (inr started) f.events each)

-- The checks at the start of a read either fail the transport or change nothing.
rx_check_cases :
    (rx : HciRx) (now : ℕ)
    → IsValid rx
    → (rx_check rx now ≡ (rx_fail rx, none))
      ⊎ ((r : ℕ) × (rx_check rx now ≡ (rx, some r)) × (is_stale rx.stream now ≡ false))
unfolding rx_check
rx_check_cases rx now v = elim (Bool-cases (half_event_late rx now)) [
  | inl late ↦ inl (ground (arith, half-lt rx.stream.buf v.ready.0 v.ready.1, v.alive))
  | inr fresh ↦ inr (
    if rx.count != 0 then 1 else 0,
    ground (arith, half-lt rx.stream.buf v.ready.0 v.ready.1, v.alive),
    fresh,
  )
]

read_bytes-Outcome :
    (rx : HciRx) (kind : ℕ) (d : List ℕ) (now : ℕ)
    → IsValid rx
    → All IsByte d
    → is_stale rx.stream now ≡ false
    → Outcome (read_bytes rx kind d now)
unfolding read_bytes
read_bytes-Outcome rx kind d now v b fresh = elim (Bool-cases (length d == 0)) [
  | inl a ↦ rw a (inr (0, refl, v))
  | inr a ↦ elim (Bool-cases (kind == packet_event)) [
    | inl k ↦ rw (a, k) (read_events-Outcome rx d now v b fresh)
    | inr k ↦ rw (a, k) (read_acl-Outcome (length d) rx d v)
  ]
]

abbrev pub AllBytes : Option (List ℕ) → Type 0
AllBytes none = Unit
AllBytes (some d) = All IsByte d

read_checked-Outcome :
    (rx : HciRx) (c kind : ℕ) (bytes : Option (List ℕ)) (n : ℤ) (now : ℕ)
    (status_ok record_ok : Bool)
    → IsValid rx
    → AllBytes bytes
    → is_stale rx.stream now ≡ false
    → Outcome (read_checked (rx, some c) kind bytes n now status_ok record_ok)
unfolding read_checked
read_checked-Outcome rx c kind bytes (negsuc n) now status_ok record_ok v b fresh = fails rx
read_checked-Outcome rx c kind none (pos n) now status_ok record_ok v b fresh =
    elim (Bool-cases (refuses kind n status_ok record_ok)) [
      | inl g ↦ rw g (fails rx)
      | inr g ↦ elim (Bool-cases (n == 0)) [
        | inl z ↦ rw (g, z) (inr (0, refl, v))
        | inr z ↦ rw (g, z) (fails rx)
      ]
    ]
read_checked-Outcome rx c kind (some bytes) (pos n) now status_ok record_ok v b fresh =
    elim (Bool-cases (refuses kind n status_ok record_ok)) [
      | inl g ↦ rw g (fails rx)
      | inr g ↦
          rw g (read_bytes-Outcome rx kind (take n bytes) now v (All-take IsByte n bytes b) fresh)
    ]

-- A read of any bytes, kind, length and status, at any time, from a transport in order either
-- reports -1 and leaves it failed, or succeeds and leaves it in order: every queued entry holds
-- exactly one whole packet, and the event stream holds a half event at most.
pub rx_read-Outcome :
    (rx : HciRx) (kind : ℕ) (bytes : Option (List ℕ)) (n : ℤ) (now : ℕ) (status_ok record_ok : Bool)
    → IsValid rx
    → AllBytes bytes
    → Outcome (rx_read rx kind bytes n now status_ok record_ok)
unfolding rx_read read_checked
rx_read-Outcome rx kind bytes n now status_ok record_ok v b = elim (rx_check_cases rx now v) [
  | inl q ↦ rw q (fails rx)
  | inr (r, q, fresh) ↦
      rw q (read_checked-Outcome rx r kind bytes n now status_ok record_ok v b fresh)
]
