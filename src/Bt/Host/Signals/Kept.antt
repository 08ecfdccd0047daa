-- ===== src/Bt/Host/Signals/Kept.antt =====
-- The operations on a channel of core/src/bt/host.c leave its flags in agreement.
use ghostcontrol_ps5_usb_con.Base.{
  refl, ℕ, ◌+◌, ◌<◌, arith, true, not, ◌&&◌, ◌||◌, List, ◌++◌, if-elim, ltb, leb, ◌==◌, ◌!=◌,
  if◌then◌else◌,
}
use ghostcontrol_ps5_usb_con.Bt.Host.{ch_closed, ch_connecting, ch_config, put16}
use ghostcontrol_ps5_usb_con.Bt.Host.Signals.{
  Code, Which, the_sdp, the_ctrl, the_intr, State, Env, chan_of, the_chan, is_open, is_config,
  is_connecting, chan_set, sig_send, request, chan_connect, chan_close, send_cmd, cancel_attempt,
  link_disconnect, chan_lost, op_disconnect, op_create_connection_cancel,
  op_le_create_connection_cancel, chan_tick, set_dcid, with_link, cfg_tries_max, is_sdp, conn_req,
  disc_req, chan_connect_ms, cfg_timeout_ms, cfg_resend_ms,
}
use ghostcontrol_ps5_usb_con.Bt.Host.Signals.Agreed.{
  Agreed, AgreedAt, TriesLeft, no_link-Agreed, with_chan-Agreed, sig_send-link, request-link,
  send_cmd-link, chan_set-Agreed, chan_send_cfg-Agreed,
}

module _ (env : Env) where
  pub set_dcid-Agreed :
      (w : Which) (dcid : ℕ) (s : State) → AgreedAt s → AgreedAt (set_dcid w dcid s)
  set_dcid-Agreed w dcid s a =
      with_chan-Agreed w _ s a
        (let i = a w in ground (arith, i.when_open, i.when_config, i.when_connecting, i.tries))

  pub config-tries :
      (w : Which) (s : State)
      → (chan_of w (chan_set env w ch_config s).host.link).cfg_tries < cfg_tries_max
  unfolding chan_set
  config-tries the_sdp s = omega arith
  config-tries the_ctrl s = omega arith
  config-tries the_intr s = omega arith

  -- A channel that starts to be configured has its tries before it.
  pub config-TriesLeft :
      (w : Which) (s : State) → AgreedAt s → TriesLeft env w (chan_set env w ch_config s).host.link
  config-TriesLeft w s a = (chan_set-Agreed env w ch_config s refl a, config-tries w s)

  pub set_dcid-TriesLeft :
      (w : Which) (dcid : ℕ) (s : State)
      → TriesLeft env w s.host.link
      → TriesLeft env w (set_dcid w dcid s).host.link
  set_dcid-TriesLeft the_sdp dcid s a = (set_dcid-Agreed the_sdp dcid s a.0, a.1)
  set_dcid-TriesLeft the_ctrl dcid s a = (set_dcid-Agreed the_ctrl dcid s a.0, a.1)
  set_dcid-TriesLeft the_intr dcid s a = (set_dcid-Agreed the_intr dcid s a.0, a.1)

  pub chan_connect-Agreed : (w : Which) (s : State) → AgreedAt s → AgreedAt (chan_connect env w s)
  unfolding chan_connect
  chan_connect-Agreed w s a =
      let s' = chan_set env w ch_connecting s in
      request-link env Agreed conn_req (put16 (the_chan w s').psm ++ put16 (the_chan w s').scid) s'
        (chan_set-Agreed env w ch_connecting s refl a) no_link-Agreed

  pub chan_close-Agreed : (w : Which) (s : State) → AgreedAt s → AgreedAt (chan_close env w s)
  unfolding chan_close
  chan_close-Agreed w s a =
      let c = the_chan w s in
      let told : State = request env disc_req (put16 c.dcid ++ put16 c.scid) s in
      let asked : State = if is_open c.st || is_config c.st then told else s in
      chan_set-Agreed env w ch_closed asked refl (
        if-elim AgreedAt (is_open c.st || is_config c.st) told s
          (λ _. request-link env Agreed disc_req (put16 c.dcid ++ put16 c.scid) s a no_link-Agreed)
          (λ _. a))

  pub disconnecting-Agreed :
      (s : State)
      → AgreedAt s
      → AgreedAt (with_link (record (s.host.link) { disconnecting = true }) s)
  disconnecting-Agreed s a the_sdp = a the_sdp
  disconnecting-Agreed s a the_ctrl = a the_ctrl
  disconnecting-Agreed s a the_intr = a the_intr

  cancelled-Agreed :
      (s : State)
      → AgreedAt s
      → AgreedAt (with_link (record (s.host.link) { cancel_sent = true }) s)
  cancelled-Agreed s a the_sdp = a the_sdp
  cancelled-Agreed s a the_ctrl = a the_ctrl
  cancelled-Agreed s a the_intr = a the_intr

  cancel_attempt-Agreed : (s : State) → AgreedAt s → AgreedAt (cancel_attempt env s)
  unfolding cancel_attempt
  cancel_attempt-Agreed s a =
      let s' = with_link (record (s.host.link) { cancel_sent = true }) s in
      let a' = cancelled-Agreed s a in
      let sent = λ (op : ℕ). send_cmd-link env Agreed op s' a' no_link-Agreed in
      if-elim AgreedAt s.host.link.cancel_sent _ _ (λ _. a)
        λ _.
          if-elim AgreedAt s.host.link.le _ _ (λ _. sent op_le_create_connection_cancel)
            λ _.
              if-elim AgreedAt (s.host.link.remote_pending == 1) _ _
                (λ _. sent op_create_connection_cancel) (λ _. a')

  pub link_disconnect-Agreed : (s : State) → AgreedAt s → AgreedAt (link_disconnect env s)
  unfolding link_disconnect
  link_disconnect-Agreed s a =
      if-elim AgreedAt (not s.host.link.connected) _ _
        (λ _.
          if-elim AgreedAt (s.host.link.remote_pending != 0) _ _ (λ _. cancel_attempt-Agreed s a)
            (λ _. no_link-Agreed))
        λ _.
          if-elim AgreedAt s.host.link.disconnecting _ _ (λ _. a)
            λ _.
              disconnecting-Agreed (send_cmd env op_disconnect s)
                (send_cmd-link env Agreed op_disconnect s a no_link-Agreed)

  pub chan_lost-Agreed : (w : Which) (s : State) → AgreedAt s → AgreedAt (chan_lost env w s)
  unfolding chan_lost
  chan_lost-Agreed w s a =
      let closed = chan_set-Agreed env w ch_closed s refl a in
      if-elim AgreedAt (not (is_sdp w) && (chan_set env w ch_closed s).host.link.ready) _ _
        (λ _. link_disconnect-Agreed (chan_set env w ch_closed s) closed) (λ _. closed)

  pub chan_tick-Agreed :
      (w : Which) (now : ℕ) (s : State) → AgreedAt s → AgreedAt (chan_tick env w now s)
  unfolding chan_tick
  chan_tick-Agreed w now s a =
      let c = the_chan w s in
      if-elim AgreedAt (is_connecting c.st && ltb (c.t_state + chan_connect_ms) now) _ _
        (λ _. chan_set-Agreed env w ch_closed s refl a)
        λ _.
          if-elim AgreedAt (is_config c.st && ltb (c.t_state + cfg_timeout_ms) now) _ _
            (λ _. chan_close-Agreed w s a)
            λ _.
              if-elim AgreedAt
                (is_config c.st && not c.cfg_ours_ok && leb (c.t_cfg + cfg_resend_ms) now) _ _
                (λ _.
                  if-elim AgreedAt (leb cfg_tries_max c.cfg_tries) _ _
                    (λ _. chan_close-Agreed w s a)
                    (λ few. chan_send_cfg-Agreed env w s (a, ground (arith, few))))
                (λ _. a)

  pub reply-Agreed :
      (code : Code) (id : ℕ) (d : List ℕ) (s : State)
      → AgreedAt s
      → AgreedAt (sig_send env code id d s)
  reply-Agreed code id d s a = sig_send-link env Agreed code id d s a no_link-Agreed
