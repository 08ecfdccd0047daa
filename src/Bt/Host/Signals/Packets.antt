-- ===== src/Bt/Host/Signals/Packets.antt =====
-- The packets that core/src/bt/host.c makes of its signaling frames.
use ghostcontrol_ps5_usb_con.Base.{
  ◌≡◌, refl, sym, ap, ◌∙◌, ℕ, arith, Bool, false, not, ◌&&◌, ◌||◌, List, [], length, if-elim,
  if_true, if_false, if◌then◌else◌, ◌==◌, ◌!=◌,
}
use ghostcontrol_ps5_usb_con.Bt.Host.{
  AclPool, ChanState, Host, Turn, Sending, cid_signaling, too_large, pool_of, with_pool,
  pool_expire, packet_of, hand_over, l2_send,
}
use ghostcontrol_ps5_usb_con.Bt.Host.Send.{with_pool-link, pool_of-with_pool}
use ghostcontrol_ps5_usb_con.Bt.Host.Signals.{
  Which, the_sdp, the_ctrl, the_intr, State, Env, the_chan, chan_set, set_dcid,
}

-- Whether `l2_send` comes to call `acl_send` for a frame of `len` bytes.
abbrev pub can_send : Turn → Host → ℕ → Bool
can_send t h len =
    not h.dead
    && h.link.connected
    && not (too_large h len)
    && (pool_expire t.now (pool_of h)).credits != 0

-- The packet that `acl_send` is called with for a signaling frame.
abbrev pub handed : Turn → Host → List ℕ → List ℕ
handed t h d = if can_send t h (length d) then packet_of h.link cid_signaling d else []

hand_over-packet :
    (t : Turn) (h : Host) (cid : ℕ) (d : List ℕ)
    → (hand_over t h cid d).packet ≡ packet_of h.link cid d
unfolding hand_over
hand_over-packet t h cid d = ground arith

pub l2_send-handed :
    (t : Turn) (h : Host) (d : List ℕ) → (l2_send t h cid_signaling d).packet ≡ handed t h d
unfolding l2_send
l2_send-handed t h d =
    let P : Sending → Type 0 = λ r. r.packet ≡ handed t h d in
    let expired = with_pool h (pool_expire t.now (pool_of h)) in
    let pool = pool_of-with_pool h (pool_expire t.now (pool_of h)) in
    let same = with_pool-link h (pool_expire t.now (pool_of h)) in
    let refused : can_send t h (length d) ≡ false → [] ≡ handed t h d =
      λ e. sym (if_false (packet_of h.link cid_signaling d) [] e) in
    if-elim P (h.dead || not h.link.connected) _ _ (λ e. refused (ground (arith, e)))
      λ up.
        if-elim P (too_large h (length d)) _ _ (λ e. refused (ground (arith, e)))
          λ small.
            if-elim P ((pool_of expired).credits == 0) _ _
              (λ e. refused (ground (arith, e, ap AclPool.credits pool)))
              λ left.
                hand_over-packet t expired cid_signaling d
                ∙ ap (λ l. packet_of l cid_signaling d) same
                ∙ sym (
                    if_true (packet_of h.link cid_signaling d) []
                      (ground (arith, up, small, left, ap AclPool.credits pool)))

-- What a channel's state and the pad's side of it are plays no part.
pub channel-handed :
    (env : Env) (w : Which) (dcid : ℕ) (st : ChanState) (t : Turn) (s : State) (d : List ℕ)
    → handed t (set_dcid w dcid (chan_set env w st s)).host d ≡ handed t s.host d
unfolding chan_set packet_of
channel-handed env the_sdp dcid st t s d = refl
channel-handed env the_ctrl dcid st t s d = refl
channel-handed env the_intr dcid st t s d = refl

pub channel-scid :
    (env : Env) (w : Which) (dcid : ℕ) (st : ChanState) (s : State)
    → (the_chan w (set_dcid w dcid (chan_set env w st s))).scid ≡ (the_chan w s).scid
unfolding chan_set
channel-scid env the_sdp dcid st s = refl
channel-scid env the_ctrl dcid st s = refl
channel-scid env the_intr dcid st s = refl
