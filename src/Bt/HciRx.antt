-- ===== src/Bt/HciRx.antt =====
-- core/src/bt/hci_rx.c: the queue of received HCI packets, 64 at most, oldest first.
-- An entry stands for one row of `data`, `length` and `kind`; of a row of `data` it keeps the bytes
-- that `length` covers. `head` and `count` are never negative, so their tests against 0 are gone.
-- The result -1 is `none`.
pub mod Ring
pub mod Queue
pub mod Valid
pub mod Read
pub mod Take
use ghostcontrol_ps5_usb_con.Base.{
  ℕ, zero, suc, ◌+◌, ◌-◌, ◌*◌, ◌%◌, Bool, true, false, ◌&&◌, ◌||◌, not, Option, none, some, List,
  [], ◌∷◌, ltb, leb, ◌==◌, ◌!=◌, if◌then◌else◌, u32, length, get_or, set, take, drop, map,
  replicate,
}
use ghostcontrol_ps5_usb_con.Base.{ℤ, pos, negsuc}
use ghostcontrol_ps5_usb_con.Bt.EvStream.{EvStream, evstream_init, evstream_timeout, feed}

abbrev pub hci_rx_capacity : ℕ
hci_rx_capacity = 64

abbrev pub hci_pkt_max : ℕ
hci_pkt_max = 1100

abbrev pub evstream_max : ℕ
evstream_max = 258

abbrev pub packet_event : ℕ
packet_event = 1

abbrev pub packet_acl : ℕ
packet_acl = 2

pub record Entry : Type 0 where
  pub bytes : List ℕ
  pub len : ℕ
  pub kind : ℕ

abbrev pub no_entry : Entry
no_entry = record { bytes = []; len = 0; kind = 0 }

pub record HciRx : Type 0 where
  pub entries : List Entry
  pub head : ℕ
  pub count : ℕ
  pub failed : Bool
  pub overflow : ℕ
  pub dropped_events : ℕ
  pub dropped_acl : ℕ
  pub stream : EvStream

abbrev pub rx_init : HciRx
rx_init = record {
  entries = replicate hci_rx_capacity no_entry;
  head = 0;
  count = 0;
  failed = false;
  overflow = 0;
  dropped_events = 0;
  dropped_acl = 0;
  stream = evstream_init;
}

-- The rows of `data` are cleared, `length` and `kind` stay.
abbrev wipe : Entry → Entry
wipe e = record e { bytes = replicate (length e.bytes) 0 }

-- The state that hci_rx_fail leaves; it returns -1.
unfoldable pub rx_fail : HciRx → HciRx
rx_fail rx = record rx {
  failed = true;
  head = 0;
  count = 0;
  entries = map wipe rx.entries;
  stream = evstream_init;
}

abbrev pub out_of_bounds : HciRx → Bool
out_of_bounds rx =
    leb hci_rx_capacity rx.head
    || (ltb hci_rx_capacity rx.count || ltb evstream_max (length rx.stream.buf))

-- A half event has waited too long.
abbrev pub half_event_late : HciRx → ℕ → Bool
half_event_late rx now =
    (length rx.stream.buf != 0) && ltb (rx.stream.t_last + evstream_timeout) now

unfoldable pub rx_check : HciRx → ℕ → HciRx × Option ℕ
rx_check rx now =
    if rx.failed
    then (rx, none)
    else if out_of_bounds rx
    then (rx_fail rx, none)
    else if half_event_late rx now
    then (rx_fail rx, none)
    else (rx, some (if rx.count != 0 then 1 else 0))

-- The oldest entry makes room.
unfoldable pub displace : HciRx → HciRx
displace rx =
    let lost = (get_or rx.entries rx.head no_entry).kind in
    let gone = record rx {
      head = (rx.head + 1) % hci_rx_capacity;
      count = rx.count - 1;
      overflow = u32 (rx.overflow + 1);
    } in
    if lost == packet_event
    then record gone { dropped_events = u32 (rx.dropped_events + 1) }
    else record gone { dropped_acl = u32 (rx.dropped_acl + 1) }

-- The new entry goes behind the last one.
unfoldable pub append_entry : HciRx → ℕ → List ℕ → HciRx
append_entry rx kind bytes =
    let slot = (rx.head + rx.count) % hci_rx_capacity in
    record rx {
      entries = set rx.entries slot (record { bytes = bytes; len = length bytes; kind = kind });
      count = rx.count + 1;
    }

unfoldable pub put : HciRx → ℕ → List ℕ → HciRx × Option ℕ
put rx kind bytes =
    if rx.failed
    then (rx, none)
    else if rx.count == hci_rx_capacity
    then (append_entry (displace rx) kind bytes, some 1)
    else (append_entry rx kind bytes, some 1)

-- The `switch` on the event code.
unfoldable pub minimum_length : ℕ → ℕ
minimum_length code =
    if code == 0x01
    then 3
    else if code == 0x03
    then 13
    else if code == 0x04
    then 12
    else if code == 0x05
    then 6
    else if code == 0x06
    then 5
    else if code == 0x08
    then 6
    else if code == 0x0e
    then 5
    else if code == 0x0f
    then 6
    else if code == 0x13
    then 3
    else if code == 0x3e
    then 3
    else 2

unfoldable pub is_malformed : List ℕ → Bool
is_malformed d =
    let code = get_or d 0 0 in
    ltb (length d) (minimum_length code)
    || ((code == 0x13 && (length d != 3 + 4 * get_or d 2 0))
        || (code == 0x3e && (get_or d 2 0 == 1 && ltb (length d) 21)))

-- The callback of evstream_feed.
unfoldable pub on_event : HciRx → List ℕ → HciRx
on_event rx d =
    if rx.failed
    then rx
    else if is_malformed d
    then record rx { failed = true }
    else (put rx packet_event d).0

unfoldable pub on_events : HciRx → List (List ℕ) → HciRx
on_events rx [] = rx
on_events rx (d ∷ ds) = on_events (on_event rx d) ds

-- The length of the ACL packet at the start of these bytes.
abbrev pub acl_total : List ℕ → ℕ
acl_total d = 4 + get_or d 2 0 + get_or d 3 0 * 256

-- The `while (offset < length)` loop; the list is what stands from `offset` on.
unfoldable pub read_acl : ℕ → HciRx → List ℕ → HciRx × Option ℕ
read_acl zero rx d = (rx, some 1)
read_acl (suc fuel) rx d =
    let total = acl_total d in
    let stored = put rx packet_acl (take total d) in
    let rest = read_acl fuel stored.0 (drop total d) in
    if length d == 0
    then (rx, some 1)
    else if ltb (length d) 4
    then (rx_fail rx, none)
    else if ltb hci_pkt_max total || ltb (length d) total
    then (rx_fail rx, none)
    else elim stored.1 [ none ↦ (stored.0, none) | some r ↦ rest ]

read_events : HciRx → List ℕ → ℕ → HciRx × Option ℕ
read_events rx d now =
    let (stream, evs) = feed rx.stream d now in
    let rx' = on_events (record rx { stream = stream }) evs in
    if rx'.failed then (rx_fail rx', none) else (rx', some 1)

abbrev pub bad_kind : ℕ → Bool
bad_kind kind = (kind != packet_event) && (kind != packet_acl)

-- After the checks, with the bytes that the length covers.
read_bytes : HciRx → ℕ → List ℕ → ℕ → HciRx × Option ℕ
unfolding read_events
read_bytes rx kind d now =
    if length d == 0
    then (rx, some 0)
    else if kind == packet_event
    then read_events rx d now
    else read_acl (length d) rx d

-- The guard on the arguments, but for the pair of a length and a null pointer.
abbrev pub refuses : ℕ → ℕ → Bool → Bool → Bool
refuses kind n status_ok record_ok =
    not status_ok || (not record_ok || (ltb hci_pkt_max n || bad_kind kind))

-- What follows the checks, whose outcome is the first argument. `none` for the bytes is a null
-- pointer; there are at least as many bytes as the length says otherwise.
read_checked : HciRx × Option ℕ → ℕ → Option (List ℕ) → ℤ → ℕ → Bool → Bool → HciRx × Option ℕ
unfolding read_bytes
read_checked (rx, none) kind bytes n now status_ok record_ok = (rx, none)
read_checked (rx, some c) kind bytes (negsuc n) now status_ok record_ok = (rx_fail rx, none)
read_checked (rx, some c) kind none (pos n) now status_ok record_ok =
    if refuses kind n status_ok record_ok
    then (rx_fail rx, none)
    else if n == 0
    then (rx, some 0)
    else (rx_fail rx, none)
read_checked (rx, some c) kind (some bytes) (pos n) now status_ok record_ok =
    if refuses kind n status_ok record_ok
    then (rx_fail rx, none)
    else read_bytes rx kind (take n bytes) now

unfoldable pub rx_read : HciRx → ℕ → Option (List ℕ) → ℤ → ℕ → Bool → Bool → HciRx × Option ℕ
unfolding read_checked
rx_read rx kind bytes n now status_ok record_ok =
    read_checked (rx_check rx now) kind bytes n now status_ok record_ok

pub data Next : Type 0 where
  lost : Next  -- -1
  idle : Next  -- 0
  packet : ℕ → List ℕ → Next  -- the kind and the bytes copied out

-- The tests of hci_rx_next on the entry at the head.
unfoldable pub is_broken : Entry → ℕ → Bool
is_broken e max =
    (e.len == 0)
    || (ltb hci_pkt_max e.len
        || (ltb max e.len
            || (bad_kind e.kind
                || ((e.kind == packet_event && (ltb e.len 2 || (e.len != 2 + get_or e.bytes 1 0)))
                    || (e.kind == packet_acl && (ltb e.len 4 || (e.len != acl_total e.bytes)))))))

-- `has_out` says that neither of the two out pointers is null.
unfoldable pub rx_next : HciRx → Bool → ℕ → HciRx × Next
rx_next rx has_out max =
    let e = get_or rx.entries rx.head no_entry in
    if rx.failed
    then (rx, lost)
    else if leb hci_rx_capacity rx.head || ltb hci_rx_capacity rx.count
    then (rx_fail rx, lost)
    else if rx.count == 0
    then (rx, idle)
    else if not has_out || is_broken e max
    then (rx_fail rx, lost)
    else (
      record rx { head = (rx.head + 1) % hci_rx_capacity; count = rx.count - 1 },
      packet e.kind (take e.len e.bytes),
    )
