-- ===== src/Bt/HandleEpoch/Slots.antt =====
-- The searches of core/src/bt/handle_epoch.c over the slots, and a fresh connection.
use ghostcontrol_ps5_usb_con.Base.{
  ℕ, zero, suc, ◌<◌, ◌^◌, ◌≡◌, ◌≢◌, Bool, true, Option-cases, none, some, List, [], ◌∷◌, length,
  get_or, set, arith, inl, inr, get_or-set_self,
}
use ghostcontrol_ps5_usb_con.Bt.HandleEpoch.{
  HandleSlot, HandleTable, empty_slot, find_slot, has_handle, is_free, find_handle, free_slot,
  new_slot, take_epoch, connect, owns, epoch_of, addr_of,
}

module _ (p : HandleSlot → Bool) where
  -- The slot that a search finds passes its test, and stands in the table.
  pub find_slot_passes :
      (ss : List HandleSlot) (i : ℕ)
      → find_slot p ss ≡ some i
      → (p (get_or ss i empty_slot) ≡ true) × (i < length ss)
  unfolding find_slot
  find_slot_passes [] i h = cc
  find_slot_passes (s ∷ ss) zero h = ground arith
  find_slot_passes (s ∷ ss) (suc i) h = ground (arith, find_slot_passes ss i)

  -- A slot written where there was a free one is the first that passes, if none passed before.
  pub find_slot-set :
      (ss : List HandleSlot) (i : ℕ) (v : HandleSlot)
      → find_slot p ss ≡ none
      → find_slot is_free ss ≡ some i
      → p v ≡ true
      → find_slot p (set ss i v) ≡ some i
  unfolding find_slot
  find_slot-set [] i v n f t = cc
  find_slot-set (s ∷ ss) zero v n f t = ground arith
  find_slot-set (s ∷ ss) (suc i) v n f t = ground (arith, find_slot-set ss i v)

pub take_epoch_ne : (n : ℕ) → n < 2 ^ 32 → (take_epoch n).0 ≢ 0
unfolding take_epoch
take_epoch_ne n h = ground arith

-- A connection that gets an epoch, on a handle that no link has, owns that handle under that
-- epoch, which is not 0, and the handle leads back to the address.
pub connect-owns :
    (t : HandleTable) (a h e : ℕ)
    → t.next_epoch < 2 ^ 32
    → find_handle t h ≡ none
    → (connect t a h).1 ≡ some e
    → let t' = (connect t a h).0 in
      (owns t' h e ≡ (t', true)) × (epoch_of t' h ≡ e) × (addr_of t' h ≡ some a) × (e ≢ 0)
unfolding connect owns epoch_of addr_of
connect-owns t a h e b n c = elim (Option-cases (free_slot t)) [
  | inl f ↦ ground arith
  | inr (i, f) ↦
      let v = new_slot a h (take_epoch t.next_epoch).0 in
      let found = find_slot-set (has_handle h) t.slots i v n f (ground arith) in
      let at = get_or-set_self t.slots i v empty_slot (find_slot_passes is_free t.slots i f).1 in
      ground (arith, found, at, take_epoch_ne t.next_epoch b)
]
