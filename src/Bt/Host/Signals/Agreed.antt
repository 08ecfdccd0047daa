-- ===== src/Bt/Host/Signals/Agreed.antt =====
-- The channels of core/src/bt/host.c: what their flags say, step by step.
use ghostcontrol_ps5_usb_con.Base.{
  ◌≡◌, refl, sym, subst, ℕ, ◌≤◌, ◌<◌, arith, true, false, not, ◌&&◌, ◌||◌, List, ◌++◌, length,
  if-elim, ltb, ◌==◌,
}
use ghostcontrol_ps5_usb_con.Bt.Host.{
  Chan, ChanState, ch_closed, ch_connecting, ch_config, ch_open, Link, no_link, put16, Host, Turn,
  AclPool, pool_of, with_pool, on_le_pool, pool_expire, too_large, l2_send, hand_over, Sending,
}
use ghostcontrol_ps5_usb_con.Bt.Host.Signals.{
  Code, Which, the_sdp, the_ctrl, the_intr, State, Env, chan_of, the_chan, with_chan, is_open,
  is_config, is_connecting, with_state, chan_set, sig_send, request, chan_send_cfg, chan_check_open,
  send_cmd, set_theirs, set_ours, cfg_tries_max, cfg_req, cfg_asked, tried,
}

-- An open channel has both configurations accepted, one that is being configured has not yet, one
-- that waits for its connection has accepted none of the pad's; and the count of the tries is at
-- most six.
pub record IsAgreed (c : Chan) : Type 0 where
  pub when_open : (is_open c.st && not (c.cfg_ours_ok && c.cfg_theirs_ok)) ≡ false
  pub when_config : (is_config c.st && c.cfg_ours_ok && c.cfg_theirs_ok) ≡ false
  pub when_connecting : (is_connecting c.st && c.cfg_theirs_ok) ≡ false
  pub tries : c.cfg_tries ≤ cfg_tries_max

abbrev pub Agreed : Link → Type 0
Agreed l = (w : Which) → IsAgreed (chan_of w l)

abbrev pub AgreedAt : State → Type 0
AgreedAt s = Agreed s.host.link

pub no_link-Agreed : Agreed no_link
no_link-Agreed the_sdp = ground arith
no_link-Agreed the_ctrl = ground arith
no_link-Agreed the_intr = ground arith

pub with_chan-Agreed :
    (w : Which) (c : Chan) (s : State) → AgreedAt s → IsAgreed c → AgreedAt (with_chan w c s)
with_chan-Agreed the_sdp c s a h the_sdp = h
with_chan-Agreed the_sdp c s a h the_ctrl = a the_ctrl
with_chan-Agreed the_sdp c s a h the_intr = a the_intr
with_chan-Agreed the_ctrl c s a h the_sdp = a the_sdp
with_chan-Agreed the_ctrl c s a h the_ctrl = h
with_chan-Agreed the_ctrl c s a h the_intr = a the_intr
with_chan-Agreed the_intr c s a h the_sdp = a the_sdp
with_chan-Agreed the_intr c s a h the_ctrl = a the_ctrl
with_chan-Agreed the_intr c s a h the_intr = h

with_state-IsAgreed :
    (now : ℕ) (st : ChanState) (c : Chan)
    → is_open st ≡ false
    → IsAgreed c
    → IsAgreed (with_state now st c)
with_state-IsAgreed now ch_open c n h = absurd (ground (arith, n))
with_state-IsAgreed now ch_closed c n h = ground arith
with_state-IsAgreed now ch_connecting c n h = ground arith
with_state-IsAgreed now ch_config c n h = ground arith

tried-IsAgreed :
    (c : Chan) (now : ℕ) → IsAgreed c → c.cfg_tries < cfg_tries_max → IsAgreed (tried now c)
tried-IsAgreed c now a h = ground arith

opened-IsAgreed :
    (c : Chan) (now : ℕ)
    → c.cfg_tries ≤ cfg_tries_max
    → (is_config c.st && c.cfg_ours_ok && c.cfg_theirs_ok) ≡ true
    → IsAgreed (with_state now ch_open c)
opened-IsAgreed c now a h = ground (arith, h)

pub the_chan-with_chan : (w : Which) (c : Chan) (s : State) → the_chan w (with_chan w c s) ≡ c
the_chan-with_chan the_sdp c s = refl
the_chan-with_chan the_ctrl c s = refl
the_chan-with_chan the_intr c s = refl

-- A channel that is replaced twice.
with_chan-with_chan :
    (w : Which) (c d : Chan) (s : State)
    → AgreedAt s
    → IsAgreed d
    → AgreedAt (with_chan w d (with_chan w c s))
with_chan-with_chan the_sdp c d s a h = with_chan-Agreed the_sdp d s a h
with_chan-with_chan the_ctrl c d s a h = with_chan-Agreed the_ctrl d s a h
with_chan-with_chan the_intr c d s a h = with_chan-Agreed the_intr d s a h

-- A frame leaves the link as it is, or the transport is lost and the link gone.
module _ (P : Link → Type 0) where
  with_pool-link : (h : Host) (p : AclPool) → P h.link → P (with_pool h p).link
  with_pool-link h p l = if-elim (λ (r : Host). P r.link) (on_le_pool h) _ _ (λ _. l) (λ _. l)

  hand_over-link :
      (t : Turn) (h : Host) (cid : ℕ) (d : List ℕ)
      → P h.link
      → P no_link
      → P (hand_over t h cid d).host.link
  unfolding hand_over
  hand_over-link t h cid d p q =
      let link = λ (r : Sending). P r.host.link in
      if-elim link (not t.accepted) _ _
        (λ _. if-elim (λ (r : Host). P r.link) t.alive _ _ (λ _. p) (λ _. q))
        (λ _. if-elim link (not t.alive) _ _ (λ _. q) (λ _. with_pool-link h _ p))

  pub l2_send-link :
      (t : Turn) (h : Host) (cid : ℕ) (d : List ℕ)
      → P h.link
      → P no_link
      → P (l2_send t h cid d).host.link
  unfolding l2_send
  l2_send-link t h cid d p q =
      let link = λ (r : Sending). P r.host.link in
      let expired = with_pool-link h (pool_expire t.now (pool_of h)) p in
      if-elim link (h.dead || not h.link.connected) _ _ (λ _. p)
        λ _.
          if-elim link (too_large h (length d)) _ _ (λ _. p)
            λ _.
              if-elim link ((pool_of (with_pool h (pool_expire t.now (pool_of h)))).credits == 0) _
                _ (λ _. expired) (λ _. hand_over-link t _ cid d expired q)

-- What holds of the link, and of no link, holds after a command is sent.
module _ (env : Env) (P : Link → Type 0) where
  pub sig_send-link :
      (code : Code) (id : ℕ) (d : List ℕ) (s : State)
      → P s.host.link
      → P no_link
      → P (sig_send env code id d s).host.link
  unfolding sig_send
  sig_send-link code id d s p q =
      if-elim (λ (r : State). P r.host.link) (ltb 60 (length d)) _ _ (λ _. p)
        (λ _. l2_send-link P _ s.host _ _ p q)

  pub request-link :
      (code : Code) (d : List ℕ) (s : State)
      → P s.host.link
      → P no_link
      → P (request env code d s).host.link
  unfolding request
  request-link code d s p q = sig_send-link code _ d _ p q

  pub send_cmd-link :
      (op : ℕ) (s : State) → P s.host.link → P no_link → P (send_cmd env op s).host.link
  unfolding send_cmd
  send_cmd-link op s p q =
      if-elim (λ (r : State). P r.host.link) s.host.dead _ _ (λ _. p)
        λ _. if-elim (λ (r : Host). P r.link) (env.alive (length s.opcodes)) _ _ (λ _. p) (λ _. q)

module _ (env : Env) where
  pub chan_set-Agreed :
      (w : Which) (st : ChanState) (s : State)
      → is_open st ≡ false
      → AgreedAt s
      → AgreedAt (chan_set env w st s)
  unfolding chan_set
  chan_set-Agreed w st s n a =
      with_chan-Agreed w _ s a (with_state-IsAgreed (env.clock s.reads) st (the_chan w s) n (a w))

  -- Fewer than six tries are over.
  abbrev pub TriesLeft : Which → Link → Type 0
  TriesLeft w l = Agreed l × (chan_of w l).cfg_tries < cfg_tries_max

  pub no_link-TriesLeft : (w : Which) → TriesLeft w no_link
  no_link-TriesLeft the_sdp = (no_link-Agreed, omega arith)
  no_link-TriesLeft the_ctrl = (no_link-Agreed, omega arith)
  no_link-TriesLeft the_intr = (no_link-Agreed, omega arith)

  pub chan_send_cfg-Agreed :
      (w : Which) (s : State) → TriesLeft w s.host.link → AgreedAt (chan_send_cfg env w s)
  unfolding chan_send_cfg
  chan_send_cfg-Agreed w s a =
      let s' = cfg_asked env w s in
      let sent : TriesLeft w s'.host.link =
        request-link env (TriesLeft w) cfg_req (put16 (the_chan w s).dcid ++ put16 0) s a
          (no_link-TriesLeft w) in
      with_chan-Agreed w _ s' sent.0
        (tried-IsAgreed (the_chan w s') (env.clock s'.reads) (sent.0 w) sent.1)

  -- A flag that is set and then looked at.
  checked-Agreed :
      (w : Which) (c : Chan) (s : State)
      → AgreedAt s
      → c.cfg_tries ≤ cfg_tries_max
      → (is_open c.st && not (c.cfg_ours_ok && c.cfg_theirs_ok)) ≡ false
      → (is_connecting c.st && c.cfg_theirs_ok) ≡ false
      → AgreedAt (chan_check_open env w (with_chan w c s))
  unfolding chan_check_open chan_set
  checked-Agreed w c s a tries op con =
      let s' = with_chan w c s in
      let same = the_chan-with_chan w c s in
      let agreed = λ (x : Chan). is_config x.st && x.cfg_ours_ok && x.cfg_theirs_ok in
      if-elim AgreedAt (agreed (the_chan w s')) _ _
        (λ h.
          let h' : agreed c ≡ true = subst (λ x. agreed x ≡ true) same h in
          with_chan-with_chan w c _ s a (
            subst (λ x. IsAgreed (with_state (env.clock s'.reads) ch_open x)) (sym same)
              (opened-IsAgreed c (env.clock s'.reads) tries h')))
        (λ h. with_chan-Agreed w c s a (record {
          when_open = op;
          when_config = subst (λ x. agreed x ≡ false) same h;
          when_connecting = con;
          tries = tries;
        }))

  pub set_theirs-Agreed :
      (w : Which) (s : State)
      → AgreedAt s
      → is_connecting (the_chan w s).st ≡ false
      → AgreedAt (chan_check_open env w (set_theirs w s))
  set_theirs-Agreed w s a n =
      let i = a w in
      checked-Agreed w _ s a i.tries (ground (arith, i.when_open)) (ground (arith, n))

  pub set_ours-Agreed :
      (w : Which) (s : State) → AgreedAt s → AgreedAt (chan_check_open env w (set_ours w s))
  set_ours-Agreed w s a =
      let i = a w in checked-Agreed w _ s a i.tries (ground (arith, i.when_open)) i.when_connecting
