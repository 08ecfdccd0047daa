-- ===== src/Bt/Host/Signals/History.antt =====
-- The channels of core/src/bt/host.c over any history of frames, ticks and requests.
use ghostcontrol_ps5_usb_con.Base.{
  ◌≡◌, refl, ℕ, zero, suc, ◌+◌, false, not, ◌||◌, Option, none, some, List, [], ◌∷◌, ◌++◌, length,
  get_or, take, drop, replicate, if-elim, ltb, ◌==◌, ◌!=◌, if◌then◌else◌,
}
use ghostcontrol_ps5_usb_con.Bt.Host.{ch_closed, ch_config, Link, no_link, put16, le16}
use ghostcontrol_ps5_usb_con.Bt.Host.Signals.{
  Which, the_sdp, the_ctrl, the_intr, State, Env, chan_of, the_chan, is_connecting, chan_set,
  sig_send, chan_connect, chan_close, chan_tick, set_dcid, chan_by_scid, chan_by_psm, number_of,
  conn_req, conn_rsp, cfg_req, cfg_rsp, disc_req, disc_rsp, echo_req, echo_rsp, info_req, info_rsp,
}
use ghostcontrol_ps5_usb_con.Bt.Host.Signals.Commands.{
  on_conn_req, connected_rsp, on_conn_rsp, accept_cfg, on_cfg_req, on_cfg_rsp, on_disc_req,
  on_info_req, on_command, signal_loop, on_signaling,
}
use ghostcontrol_ps5_usb_con.Bt.Host.Signals.Agreed.{
  Agreed, AgreedAt, no_link-Agreed, TriesLeft, no_link-TriesLeft, sig_send-link, chan_set-Agreed,
  chan_send_cfg-Agreed, set_theirs-Agreed, set_ours-Agreed,
}
use ghostcontrol_ps5_usb_con.Bt.Host.Signals.Kept.{
  set_dcid-Agreed, config-TriesLeft, set_dcid-TriesLeft, chan_connect-Agreed, chan_close-Agreed,
  chan_lost-Agreed, chan_tick-Agreed, reply-Agreed,
}

-- What holds of the result for a channel that is found, and for none.
pub on_found :
    (P : State → Type 0) (o : Option Which) (x : State) (f : Which → State)
    → P x
    → ((w : Which) → P (f w))
    → P (elim o [ none ↦ x | some w ↦ f w ])
on_found P none x f p q = p
on_found P (some w) x f p q = q w

module _ (env : Env) where
  on_conn_req-Agreed :
      (id : ℕ) (c : List ℕ) (s : State) → AgreedAt s → AgreedAt (on_conn_req env id c s)
  unfolding on_conn_req
  on_conn_req-Agreed id c s a =
      on_found AgreedAt (chan_by_psm (le16 c 0)) _ _
        (reply-Agreed env conn_rsp id (put16 0 ++ put16 (le16 c 2) ++ put16 2 ++ put16 0) s a)
        λ w.
          let s' = set_dcid w (le16 c 2) (chan_set env w ch_config s) in
          let d = put16 (the_chan w s').scid ++ put16 (le16 c 2) ++ put16 0 ++ put16 0 in
          let before =
            set_dcid-TriesLeft env w (le16 c 2) (chan_set env w ch_config s)
              (config-TriesLeft env w s a) in
          chan_send_cfg-Agreed env w (sig_send env conn_rsp id d s')
            (sig_send-link env (TriesLeft env w) conn_rsp id d s' before (no_link-TriesLeft env w))

  on_conn_rsp-Agreed : (c : List ℕ) (s : State) → AgreedAt s → AgreedAt (on_conn_rsp env c s)
  unfolding on_conn_rsp connected_rsp
  on_conn_rsp-Agreed c s a = on_found AgreedAt (chan_by_scid s.host.link (le16 c 2)) _ _ a λ w.
      if-elim AgreedAt (not (is_connecting (the_chan w s).st)) _ _ (λ _. a)
        λ _.
          if-elim AgreedAt (le16 c 4 == 1) _ _ (λ _. a)
            λ _.
              if-elim AgreedAt (le16 c 4 != 0) _ _ (λ _. chan_set-Agreed env w ch_closed s refl a)
                λ _.
                  chan_send_cfg-Agreed env w (chan_set env w ch_config (set_dcid w (le16 c 0) s)) (
                    config-TriesLeft env w (set_dcid w (le16 c 0) s)
                      (set_dcid-Agreed env w (le16 c 0) s a))

  -- What is accepted is the configuration of a channel that does not wait for its connection, before
  -- and after the answer.
  abbrev Accepts : Which → Link → Type 0
  Accepts w l = Agreed l × (is_connecting (chan_of w l).st ≡ false)

  no_link-Accepts : (w : Which) → Accepts w no_link
  no_link-Accepts the_sdp = (no_link-Agreed, refl)
  no_link-Accepts the_ctrl = (no_link-Agreed, refl)
  no_link-Accepts the_intr = (no_link-Agreed, refl)

  on_cfg_req-Agreed :
      (id : ℕ) (c : List ℕ) (s : State) → AgreedAt s → AgreedAt (on_cfg_req env id c s)
  unfolding on_cfg_req accept_cfg
  on_cfg_req-Agreed id c s a = on_found AgreedAt (chan_by_scid s.host.link (le16 c 0)) _ _ a λ w.
      if-elim AgreedAt (is_connecting (the_chan w s).st) _ _ (λ _. a)
        λ n.
          let d = put16 (the_chan w s).dcid ++ put16 0 ++ put16 0 in
          let sent = sig_send-link env (Accepts w) cfg_rsp id d s (a, n) (no_link-Accepts w) in
          set_theirs-Agreed env w (sig_send env cfg_rsp id d s) sent.0 sent.1

  on_cfg_rsp-Agreed : (c : List ℕ) (s : State) → AgreedAt s → AgreedAt (on_cfg_rsp env c s)
  unfolding on_cfg_rsp
  on_cfg_rsp-Agreed c s a =
      on_found AgreedAt (chan_by_scid s.host.link (le16 c 0)) _ _ a
        λ w. if-elim AgreedAt (le16 c 4 == 0) _ _ (λ _. set_ours-Agreed env w s a) (λ _. a)

  on_disc_req-Agreed :
      (id : ℕ) (c : List ℕ) (s : State) → AgreedAt s → AgreedAt (on_disc_req env id c s)
  unfolding on_disc_req
  on_disc_req-Agreed id c s a =
      let s' = sig_send env disc_rsp id (take 4 c) s in
      let a' = reply-Agreed env disc_rsp id (take 4 c) s a in
      on_found AgreedAt (chan_by_scid s'.host.link (le16 c 0)) _ _ a'
        (λ w. chan_lost-Agreed env w s' a')

  on_info_req-Agreed :
      (id : ℕ) (c : List ℕ) (s : State) → AgreedAt s → AgreedAt (on_info_req env id c s)
  unfolding on_info_req
  on_info_req-Agreed id c s a =
      if-elim AgreedAt (le16 c 0 == 2) _ _
        (λ _. reply-Agreed env info_rsp id (put16 2 ++ replicate 6 0) s a)
        λ _.
          if-elim AgreedAt (le16 c 0 == 3) _ _
            (λ _. reply-Agreed env info_rsp id (put16 3 ++ 0 ∷ 0 ∷ 2 ∷ replicate 7 0) s a)
            (λ _. reply-Agreed env info_rsp id (put16 (le16 c 0) ++ put16 1) s a)

  -- A handler behind a test of the length.
  long_enough :
      (c : List ℕ) (n : ℕ) (s t : State)
      → AgreedAt s
      → AgreedAt t
      → AgreedAt (if ltb (length c) n then s else t)
  long_enough c n s t a b = if-elim AgreedAt (ltb (length c) n) s t (λ _. a) (λ _. b)

  on_command-Agreed :
      (code id : ℕ) (c : List ℕ) (s : State) → AgreedAt s → AgreedAt (on_command env code id c s)
  unfolding on_command
  on_command-Agreed code id c s a =
      if-elim AgreedAt (code == number_of conn_req) _ _
        (λ _. long_enough c 4 s _ a (on_conn_req-Agreed id c s a))
        λ _.
          if-elim AgreedAt (code == number_of conn_rsp) _ _
            (λ _. long_enough c 8 s _ a (on_conn_rsp-Agreed c s a))
            λ _.
              if-elim AgreedAt (code == number_of cfg_req) _ _
                (λ _. long_enough c 4 s _ a (on_cfg_req-Agreed id c s a))
                λ _.
                  if-elim AgreedAt (code == number_of cfg_rsp) _ _
                    (λ _. long_enough c 6 s _ a (on_cfg_rsp-Agreed c s a))
                    λ _.
                      if-elim AgreedAt (code == number_of disc_req) _ _
                        (λ _. long_enough c 4 s _ a (on_disc_req-Agreed id c s a))
                        λ _.
                          if-elim AgreedAt (code == number_of echo_req) _ _
                            (λ _. reply-Agreed env echo_rsp id (take 32 c) s a)
                            λ _.
                              if-elim AgreedAt (code == number_of info_req) _ _
                                (λ _. long_enough c 2 s _ a (on_info_req-Agreed id c s a)) (λ _. a)

  signal_loop-Agreed :
      (fuel : ℕ) (d : List ℕ) (s : State) → AgreedAt s → AgreedAt (signal_loop env fuel d s)
  unfolding signal_loop
  signal_loop-Agreed zero d s a = a
  signal_loop-Agreed (suc fuel) d s a =
      if-elim AgreedAt (ltb (length d) 4 || ltb (length d) (4 + le16 d 2)) _ _ (λ _. a)
        λ _.
          signal_loop-Agreed fuel (drop (4 + le16 d 2) d) _
            (on_command-Agreed (get_or d 0 0) (get_or d 1 0) (take (le16 d 2) (drop 4 d)) s a)

-- What happens to the channels of a link.
pub data Act : Type 0 where
  signals : List ℕ → Act
  tick : Which → ℕ → Act
  connects closes : Which → Act

unfoldable pub act : Env → State → Act → State
act env s (signals d) = on_signaling env d s
act env s (tick w now) = chan_tick env w now s
act env s (connects w) = chan_connect env w s
act env s (closes w) = chan_close env w s

unfoldable pub proceed : Env → State → List Act → State
proceed env s [] = s
proceed env s (x ∷ xs) = proceed env (act env s x) xs

act-Agreed : (env : Env) (s : State) (x : Act) → AgreedAt s → AgreedAt (act env s x)
unfolding act on_signaling
act-Agreed env s (signals d) a = signal_loop-Agreed env (length d) d s a
act-Agreed env s (tick w now) a = chan_tick-Agreed env w now s a
act-Agreed env s (connects w) a = chan_connect-Agreed env w s a
act-Agreed env s (closes w) a = chan_close-Agreed env w s a

-- Over any history of signaling frames, ticks, connections and closings, whatever the frames hold
-- and the transport and the clock answer: a channel is open only with both configurations accepted,
-- is configured only until both are, and accepts none of the pad's before it is connected; the count
-- of its tries to be configured stays within six.
pub proceed-Agreed :
    (env : Env) (s : State) (xs : List Act) → AgreedAt s → AgreedAt (proceed env s xs)
unfolding proceed
proceed-Agreed env s [] a = a
proceed-Agreed env s (x ∷ xs) a = proceed-Agreed env (act env s x) xs (act-Agreed env s x a)
