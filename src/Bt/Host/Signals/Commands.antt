-- ===== src/Bt/Host/Signals/Commands.antt =====
-- core/src/bt/host.c, `on_signaling`: what the host does with the commands of a frame.
use ghostcontrol_ps5_usb_con.Base.{
  ℕ, zero, suc, ◌+◌, not, ◌||◌, none, some, List, ◌∷◌, ◌++◌, length, get_or, take, drop, replicate,
  ltb, ◌==◌, ◌!=◌, if◌then◌else◌,
}
use ghostcontrol_ps5_usb_con.Bt.Host.{ch_closed, ch_config, put16, le16}
use ghostcontrol_ps5_usb_con.Bt.Host.Signals.{
  number_of, conn_req, conn_rsp, cfg_req, cfg_rsp, disc_req, disc_rsp, echo_req, echo_rsp, info_req,
  info_rsp, Which, State, Env, the_chan, is_connecting, chan_by_scid, chan_by_psm, set_dcid,
  set_theirs, set_ours, chan_set, sig_send, chan_send_cfg, chan_check_open, chan_lost,
}

module _ (env : Env) where
  unfoldable pub on_conn_req : ℕ → List ℕ → State → State
  unfolding chan_by_psm chan_set sig_send chan_send_cfg
  on_conn_req id c s = elim (chan_by_psm (le16 c 0)) [
    | none ↦ sig_send env conn_rsp id (put16 0 ++ put16 (le16 c 2) ++ put16 2 ++ put16 0) s
    | some w ↦
        let s' = set_dcid w (le16 c 2) (chan_set env w ch_config s) in
        chan_send_cfg env w (
          sig_send env conn_rsp id
            (put16 (the_chan w s').scid ++ put16 (le16 c 2) ++ put16 0 ++ put16 0) s')
  ]

  -- The answer to our request, for a channel that waits for it.
  unfoldable pub connected_rsp : Which → List ℕ → State → State
  unfolding chan_set chan_send_cfg
  connected_rsp w c s =
      if not (is_connecting (the_chan w s).st)
      then s
      else if le16 c 4 == 1
      then s
      else if le16 c 4 != 0
      then chan_set env w ch_closed s
      else chan_send_cfg env w (chan_set env w ch_config (set_dcid w (le16 c 0) s))

  unfoldable pub on_conn_rsp : List ℕ → State → State
  unfolding connected_rsp chan_by_scid
  on_conn_rsp c s = elim (chan_by_scid s.host.link (le16 c 2)) [
    | none ↦ s
    | some w ↦ connected_rsp w c s
  ]

  unfoldable pub accept_cfg : Which → ℕ → State → State
  unfolding sig_send chan_check_open
  accept_cfg w id s =
      if is_connecting (the_chan w s).st
      then s
      else chan_check_open env w (
          set_theirs w
            (sig_send env cfg_rsp id (put16 (the_chan w s).dcid ++ put16 0 ++ put16 0) s))

  unfoldable pub on_cfg_req : ℕ → List ℕ → State → State
  unfolding accept_cfg chan_by_scid
  on_cfg_req id c s = elim (chan_by_scid s.host.link (le16 c 0)) [
    | none ↦ s
    | some w ↦ accept_cfg w id s
  ]

  unfoldable pub on_cfg_rsp : List ℕ → State → State
  unfolding chan_check_open chan_by_scid
  on_cfg_rsp c s = elim (chan_by_scid s.host.link (le16 c 0)) [
    | none ↦ s
    | some w ↦ if le16 c 4 == 0 then chan_check_open env w (set_ours w s) else s
  ]

  unfoldable pub on_disc_req : ℕ → List ℕ → State → State
  unfolding sig_send chan_lost chan_by_scid
  on_disc_req id c s =
      let s' = sig_send env disc_rsp id (take 4 c) s in
      elim (chan_by_scid s'.host.link (le16 c 0)) [ none ↦ s' | some w ↦ chan_lost env w s' ]

  unfoldable pub on_info_req : ℕ → List ℕ → State → State
  unfolding sig_send
  on_info_req id c s =
      if le16 c 0 == 2
      then sig_send env info_rsp id (put16 2 ++ replicate 6 0) s
      else if le16 c 0 == 3
      then sig_send env info_rsp id (put16 3 ++ 0 ∷ 0 ∷ 2 ∷ replicate 7 0) s
      else sig_send env info_rsp id (put16 (le16 c 0) ++ put16 1) s

  -- What the switch does with a command: its code, its id, its content.
  unfoldable pub on_command : ℕ → ℕ → List ℕ → State → State
  unfolding on_conn_req on_conn_rsp on_cfg_req on_cfg_rsp on_disc_req on_info_req sig_send
  on_command code id c s =
      if code == number_of conn_req
      then if ltb (length c) 4 then s else on_conn_req id c s
      else if code == number_of conn_rsp
      then if ltb (length c) 8 then s else on_conn_rsp c s
      else if code == number_of cfg_req
      then if ltb (length c) 4 then s else on_cfg_req id c s
      else if code == number_of cfg_rsp
      then if ltb (length c) 6 then s else on_cfg_rsp c s
      else if code == number_of disc_req
      then if ltb (length c) 4 then s else on_disc_req id c s
      else if code == number_of echo_req
      then sig_send env echo_rsp id (take 32 c) s
      else if code == number_of info_req
      then if ltb (length c) 2 then s else on_info_req id c s
      else s

  -- The loop over the commands of a frame.
  unfoldable pub signal_loop : ℕ → List ℕ → State → State
  signal_loop zero d s = s
  signal_loop (suc fuel) d s =
      let clen = le16 d 2 in
      let rest = λ (t : State). signal_loop fuel (drop (4 + clen) d) t in
      if ltb (length d) 4 || ltb (length d) (4 + clen)
      then s
      else rest (on_command (get_or d 0 0) (get_or d 1 0) (take clen (drop 4 d)) s)

  unfoldable pub on_signaling : List ℕ → State → State
  unfolding signal_loop
  on_signaling d s = signal_loop (length d) d s
