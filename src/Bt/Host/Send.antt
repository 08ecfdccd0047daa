-- ===== src/Bt/Host/Send.antt =====
-- `l2_send` of core/src/bt/host.c: what a frame costs, and what stands in its packet.
use ghostcontrol_ps5_usb_con.Base.{
  ◌≡◌, ◌≢◌, refl, ap, ℕ, suc, ◌+◌, ◌-◌, ◌/◌, ◌%◌, ◌≤◌, ◌<◌, arith, Bool, true, false, List, [], ◌∷◌,
  length, drop, subst, if◌then◌else◌, if-elim, ◌==◌, ◌||◌, not,
}
use ghostcontrol_ps5_usb_con.Bt.HciRx.{hci_pkt_max}
use ghostcontrol_ps5_usb_con.Bt.Host.{
  AclPool, Link, Host, Turn, Sending, pool_of, with_pool, mtu_of, pool_expire, pool_done, pool_sent,
  packet_of, hand_over, l2_send, too_large, le16, lose_unless,
}
use ghostcontrol_ps5_usb_con.Bt.Host.Pool.{
  InBounds, pool_expire-Expired, pool_done-InBounds, pool_sent-InBounds,
}

pub record IsSound (h : Host) : Type 0 where
  pub classic : InBounds h.br
  pub low_energy : InBounds h.lep

pool_of-InBounds : (h : Host) → IsSound h → InBounds (pool_of h)
pool_of-InBounds h s = ground arith

with_pool-IsSound : (h : Host) (p : AclPool) → IsSound h → InBounds p → IsSound (with_pool h p)
with_pool-IsSound h p s v = ground arith

lose_unless-IsSound : (alive : Bool) (h : Host) → IsSound h → IsSound (lose_unless alive h)
lose_unless-IsSound alive h s = ground arith

-- What `l2_send` leaves is sound, whatever becomes of the frame.
abbrev Keeps : Sending → Type 0
Keeps r = IsSound r.host

hand_over-IsSound :
    (t : Turn) (h : Host) (cid : ℕ) (d : List ℕ)
    → IsSound h
    → 0 < (pool_of h).credits
    → Keeps (hand_over t h cid d)
unfolding hand_over
hand_over-IsSound t h cid d s c =
    if-elim Keeps (not t.accepted) _ _ (λ _. lose_unless-IsSound t.alive _ (ground arith))
      λ _.
        if-elim Keeps (not t.alive) _ _ (λ _. ground arith)
          λ _.
            with_pool-IsSound h _ s
              (pool_sent-InBounds t.sent_at (pool_of h) (pool_of-InBounds h s) c)

expired-IsSound :
    (now : ℕ) (h : Host) → IsSound h → IsSound (with_pool h (pool_expire now (pool_of h)))
expired-IsSound now h s =
    with_pool-IsSound h _ s (pool_expire-Expired now (pool_of h) (pool_of-InBounds h s)).0

l2_send-IsSound :
    (t : Turn) (h : Host) (cid : ℕ) (d : List ℕ) → IsSound h → Keeps (l2_send t h cid d)
unfolding l2_send
l2_send-IsSound t h cid d s =
    let e = expired-IsSound t.now h s in
    if-elim Keeps (h.dead || not h.link.connected) _ _ (λ _. s)
      λ _.
        if-elim Keeps (too_large h (length d)) _ _ (λ _. s)
          λ _.
            if-elim Keeps ((pool_of (with_pool h (pool_expire t.now (pool_of h)))).credits == 0) _ _
              (λ _. ground (arith, e))
              (λ some_left. hand_over-IsSound t _ cid d e (ground (arith, some_left)))

-- What happens to the pools: a frame goes out, or the controller reports packets as sent.
pub data Event : Type 0 where
  frame : Turn → ℕ → List ℕ → Event
  completed : ℕ → Event

unfoldable pub pool_event : Host → Event → Host
pool_event h (frame t cid d) = (l2_send t h cid d).host
pool_event h (completed n) = with_pool h (pool_done (pool_of h) n)

unfoldable pub transmit : Host → List Event → Host
transmit h [] = h
transmit h (e ∷ es) = transmit (pool_event h e) es

pool_event-IsSound : (h : Host) (e : Event) → IsSound h → IsSound (pool_event h e)
unfolding pool_event
pool_event-IsSound h (frame t cid d) s = l2_send-IsSound t h cid d s
pool_event-IsSound h (completed n) s =
    with_pool-IsSound h _ s (pool_done-InBounds (pool_of h) n (pool_of-InBounds h s))

-- Over any history of frames and reports, whatever the transport and the clock answer: each pool
-- keeps its ring of 64 places in order, and its free buffers and the packets under way are together
-- no more than the controller has.
pub transmit-IsSound : (h : Host) (es : List Event) → IsSound h → IsSound (transmit h es)
unfolding transmit
transmit-IsSound h [] s = s
transmit-IsSound h (e ∷ es) s = transmit-IsSound (pool_event h e) es (pool_event-IsSound h e s)

-- A frame that is sent.
pub record Went (t : Turn) (h : Host) (cid : ℕ) (d : List ℕ) (r : Sending) : Type 0 where
  pub open_link : (h.dead ≡ false) × (h.link.connected ≡ true)
  pub size : length r.packet ≡ 8 + length d
  pub fits : length r.packet ≤ hci_pkt_max
  pub fits_mtu : mtu_of h ≢ 0 → length r.packet ≤ 4 + mtu_of h
  pub handle : le16 r.packet 0 % 0x1000 ≡ h.link.handle % 0x1000
  pub flags : le16 r.packet 0 / 0x1000 ≡ (if h.link.le then 0 else 2)
  pub lengths : (le16 r.packet 2 ≡ 4 + length d) × (le16 r.packet 4 ≡ length d)
  pub channel : le16 r.packet 6 ≡ cid % 0x10000
  pub frame : drop 8 r.packet ≡ d
  pub paid :
      suc (pool_of r.host).credits ≡ (pool_of (with_pool h (pool_expire t.now (pool_of h)))).credits
  pub taken : t.accepted ≡ true

packet_of-size : (l : Link) (cid : ℕ) (d : List ℕ) → length (packet_of l cid d) ≡ 8 + length d
unfolding packet_of
packet_of-size l cid d = omega arith

packet_of-lengths :
    (l : Link) (cid : ℕ) (d : List ℕ)
    → 8 + length d ≤ hci_pkt_max
    → (le16 (packet_of l cid d) 2 ≡ 4 + length d) × (le16 (packet_of l cid d) 4 ≡ length d)
unfolding packet_of
packet_of-lengths l cid d h = omega arith

-- The first two bytes have the handle and the flags, the last two of the header the channel.
packet_of-handle :
    (l : Link) (cid : ℕ) (d : List ℕ)
    → (le16 (packet_of l cid d) 0 % 0x1000 ≡ l.handle % 0x1000)
      × (le16 (packet_of l cid d) 0 / 0x1000 ≡ (if l.le then 0 else 2))
unfolding packet_of
packet_of-handle l cid d = ground arith

packet_of-channel : (l : Link) (cid : ℕ) (d : List ℕ) → le16 (packet_of l cid d) 6 ≡ cid % 0x10000
unfolding packet_of
packet_of-channel l cid d = omega arith

packet_of-frame : (l : Link) (cid : ℕ) (d : List ℕ) → drop 8 (packet_of l cid d) ≡ d
unfolding packet_of
packet_of-frame l cid d = refl

pub with_pool-link : (h : Host) (p : AclPool) → (with_pool h p).link ≡ h.link
with_pool-link h p = ground arith

pub pool_of-with_pool : (h : Host) (p : AclPool) → pool_of (with_pool h p) ≡ p
pool_of-with_pool h p = ground arith

pool_sent-credits : (now : ℕ) (p : AclPool) → (pool_sent now p).credits ≡ p.credits - 1
unfolding pool_sent
pool_sent-credits now p = ground arith

sent_credits :
    (t : Turn) (h : Host)
    → (pool_of h).credits == 0 ≡ false
    → suc (pool_of (with_pool h (pool_sent t.sent_at (pool_of h)))).credits ≡ (pool_of h).credits
sent_credits t h c = ground (
  arith,
  ap AclPool.credits (pool_of-with_pool h (pool_sent t.sent_at (pool_of h))),
  pool_sent-credits t.sent_at (pool_of h),
  c,
)

abbrev Expiry : Turn → Host → Host
Expiry t h = with_pool h (pool_expire t.now (pool_of h))

hand_over-Went :
    (t : Turn) (h : Host) (cid : ℕ) (d : List ℕ)
    → (h.dead || not h.link.connected) ≡ false
    → too_large h (length d) ≡ false
    → ((pool_of (Expiry t h)).credits == 0) ≡ false
    → (hand_over t (Expiry t h) cid d).sent ≡ true
    → Went t h cid d (hand_over t (Expiry t h) cid d)
unfolding hand_over
hand_over-Went t h cid d up small some_left =
    if-elim (λ r. r.sent ≡ true → Went t h cid d r) (not t.accepted) _ _
      (λ _ e. absurd (ground (arith, e)))
      λ taken.
        if-elim (λ r. r.sent ≡ true → Went t h cid d r) (not t.alive) _ _
          (λ _ e. absurd (ground (arith, e)))
          λ _ e.
            let l0 = (Expiry t h).link in
            let same = with_pool-link h (pool_expire t.now (pool_of h)) in
            let head = packet_of-handle l0 cid d in
            let size : length (packet_of (Expiry t h).link cid d) ≡ 8 + length d =
              packet_of-size (Expiry t h).link cid d in
            let limit : 8 + length d ≤ hci_pkt_max = ground (arith, small) in
            record {
              open_link = ground (arith, up);
              size = size;
              fits = omega (arith, size, limit);
              fits_mtu = λ m. ground (arith, size, m, small);
              handle =
                  subst (λ l. le16 (packet_of l0 cid d) 0 % 0x1000 ≡ l.handle % 0x1000) same head.0;
              flags =
                  subst (λ l. le16 (packet_of l0 cid d) 0 / 0x1000 ≡ (if l.le then 0 else 2)) same
                    head.1;
              lengths = packet_of-lengths (Expiry t h).link cid d limit;
              channel = packet_of-channel l0 cid d;
              frame = packet_of-frame l0 cid d;
              paid = sent_credits t (Expiry t h) some_left;
              taken = ground (arith, taken);
            }

-- A frame counts as sent only on a link that is up, in a packet that `acl_send` took, of eight header
-- bytes and the frame. The header has the link's handle in its low twelve bits, the flags 2 on Classic
-- and 0 on LE, the lengths of what follows it and of the frame, and the channel in 16 bits. The packet
-- fits the buffer and the controller's buffers, and costs one free buffer, after the overdue ones came
-- back.
pub l2_send-Went :
    (t : Turn) (h : Host) (cid : ℕ) (d : List ℕ)
    → (l2_send t h cid d).sent ≡ true
    → Went t h cid d (l2_send t h cid d)
unfolding l2_send
l2_send-Went t h cid d =
    if-elim (λ r. r.sent ≡ true → Went t h cid d r) (h.dead || not h.link.connected) _ _
      (λ _ e. absurd (ground (arith, e)))
      λ up.
        if-elim (λ r. r.sent ≡ true → Went t h cid d r) (too_large h (length d)) _ _
          (λ _ e. absurd (ground (arith, e)))
          λ small.
            if-elim (λ r. r.sent ≡ true → Went t h cid d r) ((pool_of (Expiry t h)).credits == 0) _
              _ (λ _ e. absurd (ground (arith, e)))
              (λ some_left. hand_over-Went t h cid d up small some_left)
