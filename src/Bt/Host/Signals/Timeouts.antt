-- ===== src/Bt/Host/Signals/Timeouts.antt =====
-- How often a channel of core/src/bt/host.c asks for its configuration, and that the loop over a
-- frame ends.
use ghostcontrol_ps5_usb_con.Base.{
  ◌≡◌, refl, sym, ap, ◌∙◌, ℕ, zero, suc, ◌+◌, ◌-◌, ◌≤◌, arith, Bool, true, false, not, ◌&&◌, ◌||◌,
  List, [], ◌∷◌, ◌++◌, length, get_or, take, drop, map, if-elim, if_true, if_false, ltb, leb,
  if◌then◌else◌, length-drop,
}
use ghostcontrol_ps5_usb_con.Bt.Host.{Chan, ch_closed, Link, no_link, put16, le16}
use ghostcontrol_ps5_usb_con.Bt.Host.Signals.{
  Code, Command, Which, the_sdp, the_ctrl, the_intr, State, Env, chan_of, the_chan, is_config,
  is_connecting, is_open, with_state, chan_set, chan_close, chan_send_cfg, chan_tick,
  chan_connect_ms, cfg_timeout_ms, cfg_resend_ms, cfg_tries_max, request, sig_send, cfg_asked,
  tried, cfg_req, disc_req,
}
use ghostcontrol_ps5_usb_con.Bt.Host.Signals.Commands.{on_command, signal_loop}
use ghostcontrol_ps5_usb_con.Bt.Host.Signals.Agreed.{the_chan-with_chan, request-link}
use ghostcontrol_ps5_usb_con.Bt.Host.Signals.History.{tick, act, proceed}

abbrev is_cfg_req : Code → Bool
is_cfg_req cfg_req = true
is_cfg_req _ = false

-- How many of the commands ask for a configuration.
abbrev pub cfg_reqs : List Command → ℕ
cfg_reqs [] = 0
cfg_reqs (c ∷ cs) = (if is_cfg_req c.code then 1 else 0) + cfg_reqs cs

-- The tries that a channel has left: none unless it is being configured.
abbrev pub tries_left : Chan → ℕ
tries_left c = if is_config c.st then cfg_tries_max - c.cfg_tries else 0

cfg_reqs-append :
    (xs : List Command) (c : Command)
    → cfg_reqs (xs ++ c ∷ []) ≡ cfg_reqs xs + (if is_cfg_req c.code then 1 else 0)
cfg_reqs-append [] c = omega arith
cfg_reqs-append (x ∷ xs) c = omega (arith, cfg_reqs-append xs c)

no_link-left : (w : Which) (now : ℕ) → tries_left (tried now (chan_of w no_link)) ≡ 0
no_link-left the_sdp now = refl
no_link-left the_ctrl now = refl
no_link-left the_intr now = refl

module _ (env : Env) where
  request-reqs :
      (code : Code) (d : List ℕ) (s : State)
      → length d ≤ 60
      → cfg_reqs (request env code d s).commands
        ≡ cfg_reqs s.commands + (if is_cfg_req code then 1 else 0)
  unfolding request sig_send
  request-reqs code d s h =
      if-elim
        (λ (t : State).
          cfg_reqs t.commands ≡ cfg_reqs s.commands + (if is_cfg_req code then 1 else 0))
        (ltb 60 (length d)) _ _ (λ e. absurd (ground (arith, e, h)))
        (λ _. cfg_reqs-append s.commands _)

  -- The requests so far and the tries left are no more than before.
  Spent : Which → State → State → Type 0
  Spent w s t =
      cfg_reqs t.commands + tries_left (the_chan w t)
      ≤ cfg_reqs s.commands + tries_left (the_chan w s)

  closed-Spent :
      (w : Which) (s t : State)
      → cfg_reqs t.commands ≡ cfg_reqs s.commands
      → Spent w s (chan_set env w ch_closed t)
  unfolding chan_set Spent
  closed-Spent w s t e =
      let c = with_state (env.clock t.reads) ch_closed (the_chan w t) in
      let closed = ap tries_left (the_chan-with_chan w c t) in omega (arith, e, closed)

  chan_close-Spent : (w : Which) (s : State) → Spent w s (chan_close env w s)
  unfolding chan_close
  chan_close-Spent w s =
      let c = the_chan w s in
      let told : State = request env disc_req (put16 c.dcid ++ put16 c.scid) s in
      let asked : State = if is_open c.st || is_config c.st then told else s in
      closed-Spent w s asked (
        if-elim (λ (t : State). cfg_reqs t.commands ≡ cfg_reqs s.commands)
          (is_open c.st || is_config c.st) told s
          (λ _. omega (arith, request-reqs disc_req (put16 c.dcid ++ put16 c.scid) s (omega arith)))
          (λ _. refl))

  -- One more try is one less left, also where the transport is lost with the request.
  chan_send_cfg-Spent :
      (w : Which) (s : State)
      → is_config (the_chan w s).st ≡ true
      → leb cfg_tries_max (the_chan w s).cfg_tries ≡ false
      → Spent w s (chan_send_cfg env w s)
  unfolding chan_send_cfg Spent
  chan_send_cfg-Spent w s config few =
      let s' = cfg_asked env w s in
      let now = env.clock s'.reads in
      let ask = put16 (the_chan w s).dcid ++ put16 0 in
      let P : Link → Type 0 =
        λ l. tries_left (tried now (chan_of w l)) + 1 ≤ tries_left (the_chan w s) in
      let kept =
        request-link env P cfg_req ask s (ground (arith, config, few))
          (ground (arith, config, few, no_link-left w now)) in
      let same = ap tries_left (the_chan-with_chan w (tried now (the_chan w s')) s') in
      omega (arith, kept, same, request-reqs cfg_req ask s (omega arith))

  chan_tick-Spent : (w : Which) (now : ℕ) (s : State) → Spent w s (chan_tick env w now s)
  unfolding chan_tick Spent
  chan_tick-Spent w now s =
      let c = the_chan w s in
      let P = Spent w s in
      if-elim P (is_connecting c.st && ltb (c.t_state + chan_connect_ms) now) _ _
        (λ _. closed-Spent w s s refl)
        λ _.
          if-elim P (is_config c.st && ltb (c.t_state + cfg_timeout_ms) now) _ _
            (λ _. chan_close-Spent w s)
            λ _.
              if-elim P (is_config c.st && not c.cfg_ours_ok && leb (c.t_cfg + cfg_resend_ms) now) _
                _
                (λ due.
                  if-elim P (leb cfg_tries_max c.cfg_tries) _ _ (λ _. chan_close-Spent w s)
                    (λ few. chan_send_cfg-Spent w s (ground (arith, due)) few))
                (λ _. omega arith)

  ticks-Spent :
      (w : Which) (s : State) (times : List ℕ) → Spent w s (proceed env s (map (tick w) times))
  unfolding Spent proceed act
  ticks-Spent w s [] = omega arith
  ticks-Spent w s (now ∷ times) =
      omega (arith, chan_tick-Spent w now s, ticks-Spent w (chan_tick env w now s) times)

  -- However often and whenever a channel is ticked, and whatever the transport and the clock answer,
  -- the ticks ask for its configuration at most as often as it has tries left: six less those made
  -- since it began to be configured, and not at all unless it is being configured.
  pub ticks_bounded :
      (w : Which) (s : State) (times : List ℕ)
      → cfg_reqs (proceed env s (map (tick w) times)).commands
        ≤ cfg_reqs s.commands + tries_left (the_chan w s)
  unfolding Spent
  ticks_bounded w s times = omega (arith, ticks-Spent w s times)

  -- More rounds than the frame has bytes change nothing, so no command is left for lack of them.
  pub signal_loop_fuel :
      (n m : ℕ) (d : List ℕ) (s : State)
      → length d ≤ n
      → length d ≤ m
      → signal_loop env n d s ≡ signal_loop env m d s
  unfolding signal_loop
  signal_loop_fuel zero zero d s p q = refl
  signal_loop_fuel zero (suc m) d s p q = ground arith
  signal_loop_fuel (suc n) zero d s p q = ground arith
  signal_loop_fuel (suc n) (suc m) d s p q =
      let next = on_command env (get_or d 0 0) (get_or d 1 0) (take (le16 d 2) (drop 4 d)) s in
      if-elim
        (λ (t : State). t ≡ (
          if ltb (length d) 4 || ltb (length d) (4 + le16 d 2)
          then s
          else signal_loop env m (drop (4 + le16 d 2) d) next))
        (ltb (length d) 4 || ltb (length d) (4 + le16 d 2)) s
        (signal_loop env n (drop (4 + le16 d 2) d) next) (λ e. sym (if_true _ _ e))
        (λ e.
          signal_loop_fuel n m (drop (4 + le16 d 2) d) next
            (omega (arith, length-drop (4 + le16 d 2) d))
            (omega (arith, length-drop (4 + le16 d 2) d))
          ∙ sym (if_false _ _ e))
