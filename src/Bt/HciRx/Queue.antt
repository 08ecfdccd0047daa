-- ===== src/Bt/HciRx/Queue.antt =====
-- The ring of core/src/bt/hci_rx.c is a queue of at most 64 packets that forgets its oldest.
use ghostcontrol_ps5_usb_con.Base.{
  ℕ, suc, ◌+◌, ◌-◌, ◌≤◌, ◌<◌, ◌≡◌, refl, ap, ◌∙◌, sym, true, false, some, List, [], ◌∷◌, ◌++◌,
  length, get_or, drop, take, ◌%◌, arith, Bool-cases, inl, inr, leb, ltb, ◌==◌, if◌then◌else◌,
  length-set, u32, subst,
}
use ghostcontrol_ps5_usb_con.Bt.HciRx.{
  Entry, no_entry, HciRx, displace, append_entry, put, rx_next, is_broken, packet, packet_event,
}
use ghostcontrol_ps5_usb_con.Bt.HciRx.Ring.{window, window-set, window_pop, length-window}

-- The queued entries, oldest first.
abbrev pub contents : HciRx → List Entry
contents rx = window rx.entries rx.head rx.count

-- The indices are in range and there are 64 rows.
pub record InBounds (rx : HciRx) : Type 0 where
  pub rows : length rx.entries ≡ 64
  pub head_in : rx.head < 64
  pub count_in : rx.count ≤ 64

append_entry_lem :
    (rx : HciRx) (kind : ℕ) (bytes : List ℕ)
    → InBounds rx
    → rx.count < 64
    → let rx' = append_entry rx kind bytes in
      InBounds rx'
      × (contents rx'
          ≡ contents rx ++ (record { bytes = bytes; len = length bytes; kind = kind } ∷ []))
unfolding append_entry
append_entry_lem rx kind bytes v room =
    let new : Entry = record { bytes = bytes; len = length bytes; kind = kind } in
    let more : rx.count + 1 ≡ suc rx.count = omega arith in
    (
      record { rows = rw length-set v.rows; head_in = v.head_in; count_in = omega arith },
      rw more (window-set rx.entries new rx.head rx.count v.rows room),
    )

displace_fields :
    (rx : HciRx)
    → let rx' = displace rx in
      (rx'.entries ≡ rx.entries)
      × (rx'.head ≡ (rx.head + 1) % 64)
      × (rx'.count ≡ rx.count - 1)
      × (rx'.failed ≡ rx.failed)
      × (rx'.stream ≡ rx.stream)
unfolding displace
displace_fields rx = ground arith

displace_lem :
    (rx : HciRx)
    → InBounds rx
    → rx.count ≡ 64
    → InBounds (displace rx)
      × (contents rx ≡ get_or rx.entries rx.head no_entry ∷ contents (displace rx))
displace_lem rx v full =
    let f = displace_fields rx in
    (
      record {
        rows = rw (f.0) v.rows;
        head_in = omega (arith, f.1);
        count_in = omega (arith, f.2);
      },
      rw (f.0, f.1, f.2) (window_pop rx.entries rx.head rx.count v.head_in (omega arith)),
    )

-- What `put` does to a queue: a full one forgets its first element.
abbrev pub push : List Entry → Entry → List Entry
push q e = (if length q == 64 then drop 1 q else q) ++ (e ∷ [])

put_full :
    (rx : HciRx) (kind : ℕ) (bytes : List ℕ)
    → rx.failed ≡ false
    → (rx.count == 64) ≡ true
    → put rx kind bytes ≡ (append_entry (displace rx) kind bytes, some 1)
unfolding put
put_full rx kind bytes ok full = ground arith

put_room :
    (rx : HciRx) (kind : ℕ) (bytes : List ℕ)
    → rx.failed ≡ false
    → (rx.count == 64) ≡ false
    → put rx kind bytes ≡ (append_entry rx kind bytes, some 1)
unfolding put
put_room rx kind bytes ok room = ground arith

append_entry_keeps :
    (rx : HciRx) (kind : ℕ) (bytes : List ℕ)
    → let rx' = append_entry rx kind bytes in (rx'.failed ≡ rx.failed) × (rx'.stream ≡ rx.stream)
unfolding append_entry
append_entry_keeps rx kind bytes = (refl, refl)

-- The counters of the losses after an entry went, or none.
abbrev pub Counts : HciRx → HciRx → List Entry → Type 0
Counts rx rx' [] =
    (rx'.overflow ≡ rx.overflow)
    × (rx'.dropped_events ≡ rx.dropped_events)
    × (rx'.dropped_acl ≡ rx.dropped_acl)
Counts rx rx' (e ∷ q) =
    (rx'.overflow ≡ u32 (rx.overflow + 1))
    × (rx'.dropped_events
        ≡ (if e.kind == packet_event then u32 (rx.dropped_events + 1) else rx.dropped_events))
    × (rx'.dropped_acl
        ≡ (if e.kind == packet_event then rx.dropped_acl else u32 (rx.dropped_acl + 1)))

-- The entry that goes when one is put: the oldest of a full queue.
abbrev pub lost_of : List Entry → List Entry
lost_of q = if length q == 64 then take 1 q else []

displace-Counts :
    (rx : HciRx) (q : List Entry) → Counts rx (displace rx) (get_or rx.entries rx.head no_entry ∷ q)
unfolding displace
displace-Counts rx q = ground arith

append_entry-Counts :
    (rx rx' : HciRx) (kind : ℕ) (bytes : List ℕ) (lost : List Entry)
    → Counts rx rx' lost
    → Counts rx (append_entry rx' kind bytes) lost
unfolding append_entry
append_entry-Counts rx rx' kind bytes [] c = c
append_entry-Counts rx rx' kind bytes (e ∷ q) c = c

-- A packet that is put into a transport in order is accepted, and goes behind the queued ones, of
-- which the oldest goes if there are 64; the indices stay in range, and the transport stays in order
-- with the event stream it had. The loss of the oldest counts once as an overflow and once for its
-- kind, event or ACL; where none goes, the three counters stay as they are.
pub put_refines :
    (rx : HciRx) (kind : ℕ) (bytes : List ℕ)
    → InBounds rx
    → rx.failed ≡ false
    → let (rx', r) = put rx kind bytes in
      (r ≡ some 1)
      × InBounds rx'
      × (contents rx'
          ≡ push (contents rx) (record { bytes = bytes; len = length bytes; kind = kind }))
      × (rx'.failed ≡ false)
      × (rx'.stream ≡ rx.stream)
      × Counts rx rx' (lost_of (contents rx))
put_refines rx kind bytes v ok = elim (Bool-cases (rx.count == 64)) [
  | inl full ↦
      let (v', c) = displace_lem rx v (ground arith) in
      let d = displace_fields rx in
      let (w, a) = append_entry_lem (displace rx) kind bytes v' (ground (arith, d)) in
      let (f, s) = append_entry_keeps (displace rx) kind bytes in
      let n : (length (contents rx) == 64) ≡ true = rw length-window full in
      let first = get_or rx.entries rx.head no_entry in
      let lost : lost_of (contents rx) ≡ first ∷ [] = rw (n, c) refl in
      let counted =
        append_entry-Counts rx (displace rx) kind bytes (first ∷ []) (displace-Counts rx []) in
      rw (put_full rx kind bytes ok full) (
        refl,
        w,
        rw (n, c) a,
        f ∙ d.3 ∙ ok,
        s ∙ d.4,
        subst (Counts rx (append_entry (displace rx) kind bytes)) (sym lost) counted,
      )
  | inr room ↦
      let (w, a) = append_entry_lem rx kind bytes v (ground arith) in
      let (f, s) = append_entry_keeps rx kind bytes in
      let n : (length (contents rx) == 64) ≡ false = rw length-window room in
      let lost : lost_of (contents rx) ≡ [] = rw n refl in
      rw (put_room rx kind bytes ok room) (
        refl,
        w,
        rw n a,
        f ∙ ok,
        s,
        subst (Counts rx (append_entry rx kind bytes)) (sym lost)
            (append_entry-Counts rx rx kind bytes [] (refl, refl, refl)),
      )
]

-- Taking a packet from a transport in order whose oldest entry is whole and fits gives the bytes and
-- the kind of that entry, and leaves the others in their order; nothing else changes.
pub rx_next_refines :
    (rx : HciRx) (max : ℕ) (e : Entry) (q : List Entry)
    → InBounds rx
    → rx.failed ≡ false
    → contents rx ≡ e ∷ q
    → is_broken e max ≡ false
    → let (rx', r) = rx_next rx true max in
      (r ≡ packet e.kind (take e.len e.bytes))
      × InBounds rx'
      × (contents rx' ≡ q)
      × (rx'.failed ≡ false)
      × (rx'.stream ≡ rx.stream)
unfolding rx_next
rx_next_refines rx max e q v ok c b =
    let some_left : 0 < rx.count =
      omega (arith, length-window rx.entries rx.head rx.count, ap length c) in
    let popped = window_pop rx.entries rx.head rx.count v.head_in some_left in
    let both = sym popped ∙ c in
    let first : get_or rx.entries rx.head no_entry ≡ e = cc both in
    let left : window rx.entries ((rx.head + 1) % 64) (rx.count - 1) ≡ q = cc both in
    let in_range : leb 64 rx.head ≡ false = ground arith in
    let capped : ltb 64 rx.count ≡ false = ground arith in
    let busy : (rx.count == 0) ≡ false = ground arith in
    rw (ok, in_range, capped, busy, first, b)
      (
        refl,
        record { rows = v.rows; head_in = omega arith; count_in = omega arith },
        left,
        refl,
        refl,
      )
