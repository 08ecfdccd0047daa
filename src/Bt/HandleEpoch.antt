-- ===== src/Bt/HandleEpoch.antt =====
-- core/src/bt/handle_epoch.c: which link owns a connection handle now.
-- An address of six bytes, which is only copied and compared whole, is one number of 48 bits.
pub mod Slots
pub mod Sound
pub mod Stale
use ghostcontrol_ps5_usb_con.Base.{
  ℕ, zero, suc, ◌+◌, ◌%◌, Bool, true, false, ◌&&◌, not, Option, none, some, List, [], ◌∷◌, ◌==◌,
  ◌!=◌, if◌then◌else◌, u32, get_or, set, replicate,
}

abbrev pub handle_slots : ℕ
handle_slots = 8

abbrev pub handle_recent : ℕ
handle_recent = 8

pub record HandleSlot : Type 0 where
  pub handle : ℕ  -- uint16
  pub epoch : ℕ  -- uint32
  pub addr : ℕ
  pub used : Bool

-- The counters are of 32 bits and wrap.
pub record HandleTable : Type 0 where
  pub next_epoch : ℕ
  pub assigns : ℕ
  pub refused_busy : ℕ
  pub refused_full : ℕ
  pub disconnects : ℕ
  pub unmatched_disconnects : ℕ
  pub stale_epoch_events : ℕ
  pub foreign_handle_events : ℕ
  pub recent_next : ℕ
  pub recent_handle : List ℕ
  pub recent_epoch : List ℕ
  pub slots : List HandleSlot

abbrev pub empty_slot : HandleSlot
empty_slot = record { handle = 0; epoch = 0; addr = 0; used = false }

-- The index of the first slot that passes a test: the shape of the three searches.
unfoldable pub find_slot : (HandleSlot → Bool) → List HandleSlot → Option ℕ
find_slot p [] = none
find_slot p (s ∷ ss) =
    if p s then some 0 else elim (find_slot p ss) [ none ↦ none | some i ↦ some (suc i) ]

abbrev pub has_handle : ℕ → HandleSlot → Bool
has_handle h s = s.used && s.handle == h

abbrev pub has_addr : ℕ → HandleSlot → Bool
has_addr a s = s.used && s.addr == a

abbrev pub is_free : HandleSlot → Bool
is_free s = not s.used

abbrev pub find_handle : HandleTable → ℕ → Option ℕ
find_handle t h = find_slot (has_handle h) t.slots

abbrev pub find_addr : HandleTable → ℕ → Option ℕ
find_addr t a = find_slot (has_addr a) t.slots

abbrev pub free_slot : HandleTable → Option ℕ
free_slot t = find_slot is_free t.slots

abbrev pub slot_at : HandleTable → ℕ → HandleSlot
slot_at t i = get_or t.slots i empty_slot

unfoldable pub init : HandleTable
init = record {
  next_epoch = 1;
  assigns = 0;
  refused_busy = 0;
  refused_full = 0;
  disconnects = 0;
  unmatched_disconnects = 0;
  stale_epoch_events = 0;
  foreign_handle_events = 0;
  recent_next = 0;
  recent_handle = replicate handle_recent 0;
  recent_epoch = replicate handle_recent 0;
  slots = replicate handle_slots empty_slot;
}

-- `slot->epoch = next_epoch++`, once more where that gave 0: the epoch and the next one.
pub take_epoch : ℕ → ℕ × ℕ
take_epoch n = if n == 0 then (u32 (n + 1), u32 (u32 (n + 1) + 1)) else (n, u32 (n + 1))

abbrev pub new_slot : ℕ → ℕ → ℕ → HandleSlot
new_slot a h e = record { handle = h; epoch = e; addr = a; used = true }

pub claim : HandleTable → ℕ → ℕ → ℕ → HandleTable
unfolding take_epoch
claim t i a h = record t {
  next_epoch = (take_epoch t.next_epoch).1;
  assigns = u32 (t.assigns + 1);
  slots = set t.slots i (new_slot a h (take_epoch t.next_epoch).0);
}

-- `none` is the result -1; `some e` is 0 with the epoch in `*epoch_out`.
unfoldable pub connect : HandleTable → ℕ → ℕ → HandleTable × Option ℕ
unfolding claim
connect t a h = elim (find_addr t a) [
  | some i ↦ (record t { refused_busy = u32 (t.refused_busy + 1) }, none)
  | none ↦ elim (free_slot t) [
    | none ↦ (record t { refused_full = u32 (t.refused_full + 1) }, none)
    | some i ↦ (claim t i a h, some (take_epoch t.next_epoch).0)
  ]
]

-- Whether the ring of released links holds the handle.
unfoldable pub in_recent : ℕ → List ℕ → List ℕ → Bool
in_recent h (x ∷ xs) (e ∷ es) = if e != 0 && x == h then true else in_recent h xs es
in_recent h _ _ = false

mismatch : HandleTable → ℕ → HandleTable
unfolding in_recent
mismatch t h = elim (find_handle t h) [
  | some i ↦ record t { stale_epoch_events = u32 (t.stale_epoch_events + 1) }
  | none ↦
      if in_recent h t.recent_handle t.recent_epoch
      then record t { stale_epoch_events = u32 (t.stale_epoch_events + 1) }
      else record t { foreign_handle_events = u32 (t.foreign_handle_events + 1) }
]

unfoldable pub owns : HandleTable → ℕ → ℕ → HandleTable × Bool
unfolding mismatch
owns t h e = elim (find_handle t h) [
  | none ↦ (mismatch t h, false)
  | some i ↦ if (slot_at t i).epoch == e then (t, true) else (mismatch t h, false)
]

pub release : HandleTable → ℕ → HandleTable
release t i =
    let idx = t.recent_next % handle_recent in
    record t {
      recent_handle = set t.recent_handle idx (slot_at t i).handle;
      recent_epoch = set t.recent_epoch idx (slot_at t i).epoch;
      recent_next = u32 (t.recent_next + 1);
      slots = set t.slots i empty_slot;
      disconnects = u32 (t.disconnects + 1);
    }

unfoldable pub disconnect : HandleTable → ℕ → HandleTable
unfolding release
disconnect t h = elim (find_handle t h) [
  | none ↦ record t { unmatched_disconnects = u32 (t.unmatched_disconnects + 1) }
  | some i ↦ release t i
]

unfoldable pub epoch_of : HandleTable → ℕ → ℕ
epoch_of t h = elim (find_handle t h) [ none ↦ 0 | some i ↦ (slot_at t i).epoch ]

-- `none` is the result -1.
unfoldable pub addr_of : HandleTable → ℕ → Option ℕ
addr_of t h = elim (find_handle t h) [ none ↦ none | some i ↦ some (slot_at t i).addr ]
