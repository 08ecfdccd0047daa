-- ===== src/Bt/Host/Signals/Replies.antt =====
-- What the host of core/src/bt/host.c answers to a signaling command, and the packet of the answer.
use ghostcontrol_ps5_usb_con.Base.{
  ◌≡◌, refl, sym, subst, ap, ◌∙◌, ℕ, ◌≤◌, arith, Bool, true, false, not, ◌&&◌, Option, none, some,
  List, [], ◌∷◌, ◌++◌, length, take, if-elim, if_false, if◌then◌else◌, ltb, ◌==◌, All, All-append,
  append_assoc, length-take_le,
}
use ghostcontrol_ps5_usb_con.Bt.Host.{ch_closed, ch_config, put16, le16, Link}
use ghostcontrol_ps5_usb_con.Bt.Host.Signals.{
  Code, Command, command_frame, Which, State, Env, the_chan, is_sdp, chan_set, sig_send, request,
  next_sig_id, chan_lost, link_disconnect, cancel_attempt, send_cmd, chan_send_cfg, set_dcid,
  chan_by_scid, chan_by_psm, number_of, conn_req, conn_rsp, cfg_req, cfg_rsp, disc_req, disc_rsp,
  echo_req, echo_rsp, info_req, info_rsp, reject,
}
use ghostcontrol_ps5_usb_con.Bt.Host.Signals.Commands.{
  on_conn_req, on_disc_req, on_info_req, on_command,
}
use ghostcontrol_ps5_usb_con.Bt.Host.Signals.History.{on_found}
use ghostcontrol_ps5_usb_con.Bt.Host.Signals.Packets.{
  handed, l2_send-handed, channel-handed, channel-scid,
}

-- The commands so far, then one answer with its packet, then configurations of ours.
pub record IsAnswer (env : Env) (rsp : Code) (id : ℕ) (content : List ℕ) (s t : State)
    : Type 0 where
  pub rest : List Command
  pub sent :
      t.commands
      ≡ s.commands
        ++ record {
          code = rsp;
          id = id;
          content = content;
          packet = handed (env.turns s.turns_taken) s.host (command_frame rsp id content);
        }
          ∷ rest
  pub ours : All (λ (x : Command). x.code ≡ cfg_req) rest

-- What the request to connect is answered: refused, or taken with the channel `scid`.
abbrev pub refusal_of : List ℕ → List ℕ
refusal_of c = put16 0 ++ put16 (le16 c 2) ++ put16 2 ++ put16 0

abbrev pub consent_of : ℕ → List ℕ → List ℕ
consent_of scid c = put16 scid ++ put16 (le16 c 2) ++ put16 0 ++ put16 0

-- The content of an answer: the two services of a pad are taken, any other is refused; the channels
-- come back as they were named, an echo with up to 32 bytes; there are no extended features, of the
-- fixed channels the one for signaling, and nothing else is known.
abbrev pub reply_content : Link → Code → List ℕ → List ℕ
reply_content l conn_req c =
    if le16 c 0 == 0x11
    then consent_of l.ctrl.scid c
    else if le16 c 0 == 0x13
    then consent_of l.intr.scid c
    else refusal_of c
reply_content l disc_req c = take 4 c
reply_content l echo_req c = take 32 c
reply_content l info_req c =
    if le16 c 0 == 2
    then 2 ∷ 0 ∷ 0 ∷ 0 ∷ 0 ∷ 0 ∷ 0 ∷ 0 ∷ []
    else if le16 c 0 == 3
    then 3 ∷ 0 ∷ 0 ∷ 0 ∷ 2 ∷ 0 ∷ 0 ∷ 0 ∷ 0 ∷ 0 ∷ 0 ∷ 0 ∷ []
    else put16 (le16 c 0) ++ put16 1
reply_content l code c = []

-- The channel's own number for the service that is asked for, or the refusal.
named_content :
    (c : List ℕ) (s : State)
    → elim (chan_by_psm (le16 c 0)) [
      | none ↦ refusal_of c
      | some w ↦ consent_of (the_chan w s).scid c
    ]
      ≡ reply_content s.host.link conn_req c
unfolding chan_by_psm
named_content c s = ground arith

-- A content and a state that go by the same service.
by_service :
    (P : List ℕ → State → Type 0) (o : Option Which) (d : List ℕ) (e : Which → List ℕ) (x : State)
    (f : Which → State)
    → P d x
    → ((w : Which) → P (e w) (f w))
    → P (elim o [ none ↦ d | some w ↦ e w ]) (elim o [ none ↦ x | some w ↦ f w ])
by_service P none d e x f p q = p
by_service P (some w) d e x f p q = q w

-- A content and a state that go by the same test.
both_if :
    (P : List ℕ → State → Type 0) (b : Bool) (d e : List ℕ) (x y : State)
    → P d x
    → P e y
    → P (if b then d else e) (if b then x else y)
both_if P true d e x y p q = p
both_if P false d e x y p q = q

module _ (env : Env) where
  sig_send-IsAnswer :
      (code : Code) (id : ℕ) (d : List ℕ) (s : State)
      → length d ≤ 60
      → IsAnswer env code id d s (sig_send env code id d s)
  unfolding sig_send
  sig_send-IsAnswer code id d s h =
      let packet = l2_send-handed (env.turns s.turns_taken) s.host (command_frame code id d) in
      let P : State → Type 0 = λ t. IsAnswer env code id d s t in
      if-elim P (ltb 60 (length d)) _ _ (λ e. absurd (ground (arith, e, h)))
        λ _. record {
          rest = [];
          sent =
              ap
                (λ (p : List ℕ).
                  s.commands ++ record { code = code; id = id; content = d; packet = p } ∷ [])
                packet;
          ours = tt;
        }

  -- An answer stays one when a configuration of ours follows it.
  chan_send_cfg-IsAnswer :
      (rsp : Code) (id : ℕ) (d : List ℕ) (w : Which) (s t : State)
      → IsAnswer env rsp id d s t
      → IsAnswer env rsp id d s (chan_send_cfg env w t)
  unfolding chan_send_cfg request
  chan_send_cfg-IsAnswer rsp id d w s t a =
      let next = next_sig_id t.host.sig_id in
      let t' : State = record t { host = record (t.host) { sig_id = next } } in
      let ask = put16 (the_chan w t).dcid ++ put16 0 in
      let more = sig_send-IsAnswer cfg_req next ask t' (omega arith) in
      let it : Command = record {
        code = cfg_req;
        id = next;
        content = ask;
        packet = handed (env.turns t.turns_taken) t'.host (command_frame cfg_req next ask);
      } in
      record {
        rest = a.rest ++ (it ∷ more.rest);
        sent =
            more.sent
            ∙ ap (λ l. l ++ (it ∷ more.rest)) a.sent
            ∙ append_assoc s.commands _ (it ∷ more.rest);
        ours =
            All-append (λ (x : Command). x.code ≡ cfg_req) a.rest (it ∷ more.rest) a.ours
              (refl, more.ours);
      }

  link_disconnect-commands : (s : State) → (link_disconnect env s).commands ≡ s.commands
  unfolding link_disconnect cancel_attempt send_cmd
  link_disconnect-commands s = ground arith

  chan_lost-commands : (w : Which) (s : State) → (chan_lost env w s).commands ≡ s.commands
  unfolding chan_lost chan_set
  chan_lost-commands w s =
      if-elim (λ (t : State). t.commands ≡ s.commands)
        (not (is_sdp w) && (chan_set env w ch_closed s).host.link.ready) _ _
        (λ _. link_disconnect-commands (chan_set env w ch_closed s)) (λ _. refl)

  -- A channel that is taken, with its own number.
  taken-IsAnswer :
      (id : ℕ) (c : List ℕ) (w : Which) (s : State)
      → IsAnswer env conn_rsp id (consent_of (the_chan w s).scid c) s (
          let s' = set_dcid w (le16 c 2) (chan_set env w ch_config s) in
          chan_send_cfg env w (sig_send env conn_rsp id (consent_of (the_chan w s').scid c) s'))
  unfolding chan_set
  taken-IsAnswer id c w s =
      let s' = set_dcid w (le16 c 2) (chan_set env w ch_config s) in
      let own = channel-scid env w (le16 c 2) ch_config s in
      let d = consent_of (the_chan w s).scid c in
      let a = sig_send-IsAnswer conn_rsp id d s' (omega arith) in
      let t = env.turns s.turns_taken in
      let packet = channel-handed env w (le16 c 2) ch_config t s (command_frame conn_rsp id d) in
      subst
        (λ scid.
          IsAnswer env conn_rsp id d s
            (chan_send_cfg env w (sig_send env conn_rsp id (consent_of scid c) s')))
        (sym own)
        (chan_send_cfg-IsAnswer conn_rsp id d w s (sig_send env conn_rsp id d s') (record {
          rest = a.rest;
          sent =
              a.sent
              ∙ ap
                  (λ (p : List ℕ).
                    s.commands
                    ++ record { code = conn_rsp; id = id; content = d; packet = p } ∷ a.rest)
                  packet;
          ours = a.ours;
        }))

  on_conn_req-IsAnswer :
      (id : ℕ) (c : List ℕ) (s : State)
      → IsAnswer env conn_rsp id (reply_content s.host.link conn_req c) s (on_conn_req env id c s)
  unfolding on_conn_req
  on_conn_req-IsAnswer id c s =
      subst (λ d. IsAnswer env conn_rsp id d s (on_conn_req env id c s)) (named_content c s)
        (by_service (λ d t. IsAnswer env conn_rsp id d s t) (chan_by_psm (le16 c 0)) (refusal_of c)
          (λ w. consent_of (the_chan w s).scid c) _ _
          (sig_send-IsAnswer conn_rsp id (refusal_of c) s (omega arith))
          (λ w. taken-IsAnswer id c w s))

  on_disc_req-IsAnswer :
      (id : ℕ) (c : List ℕ) (s : State)
      → IsAnswer env disc_rsp id (take 4 c) s (on_disc_req env id c s)
  unfolding on_disc_req
  on_disc_req-IsAnswer id c s =
      let s' = sig_send env disc_rsp id (take 4 c) s in
      let a = sig_send-IsAnswer disc_rsp id (take 4 c) s (omega (arith, length-take_le 4 c)) in
      on_found (IsAnswer env disc_rsp id (take 4 c) s) (chan_by_scid s'.host.link (le16 c 0)) _ _ a
        λ w. record { rest = a.rest; sent = chan_lost-commands w s' ∙ a.sent; ours = a.ours }

  on_info_req-IsAnswer :
      (id : ℕ) (c : List ℕ) (s : State)
      → IsAnswer env info_rsp id (reply_content s.host.link info_req c) s (on_info_req env id c s)
  unfolding on_info_req
  on_info_req-IsAnswer id c s =
      let P : List ℕ → State → Type 0 = λ d t. IsAnswer env info_rsp id d s t in
      let answer = λ (d : List ℕ) (h : length d ≤ 60). sig_send-IsAnswer info_rsp id d s h in
      both_if P (le16 c 0 == 2) _ _ _ _ (answer (2 ∷ 0 ∷ 0 ∷ 0 ∷ 0 ∷ 0 ∷ 0 ∷ 0 ∷ []) (omega arith))
        (both_if P (le16 c 0 == 3) _ _ _ _
          (answer (3 ∷ 0 ∷ 0 ∷ 0 ∷ 2 ∷ 0 ∷ 0 ∷ 0 ∷ 0 ∷ 0 ∷ 0 ∷ 0 ∷ []) (omega arith))
          (answer (put16 (le16 c 0) ++ put16 1) (omega arith)))

-- The requests that are always answered, what with, and from how many bytes of content on.
abbrev pub is_asking : Code → Bool
is_asking conn_req = true
is_asking disc_req = true
is_asking echo_req = true
is_asking info_req = true
is_asking _ = false

abbrev pub answer_to : Code → Code
answer_to conn_req = conn_rsp
answer_to disc_req = disc_rsp
answer_to echo_req = echo_rsp
answer_to info_req = info_rsp
answer_to code = code

abbrev pub least_of : Code → ℕ
least_of conn_req = 4
least_of disc_req = 4
least_of info_req = 2
least_of _ = 0

-- A request to connect, to disconnect, for an echo or for information, with the content it needs,
-- makes exactly one answer of its kind, whatever the state of the channels: under the id of the
-- request, handed to `l2_send` before anything else is sent, and after it at most requests of ours to
-- configure. A connection to the control or the interrupt service is taken with the number of that
-- channel, any other refused; the channels come back as they were named, an echo with up to 32 bytes;
-- information names no extended features, the fixed channel for signaling, and nothing else. The
-- packet of the answer reaches `acl_send` just when the host is alive, the link connected, the frame
-- not too large and a buffer of the controller free after the overdue ones came back; otherwise
-- nothing does.
pub on_command-IsAnswer :
    (env : Env) (code : Code) (id : ℕ) (c : List ℕ) (s : State)
    → is_asking code ≡ true
    → least_of code ≤ length c
    → IsAnswer env
        (answer_to code)
        id
        (reply_content s.host.link code c)
        s
        (on_command env (number_of code) id c s)
unfolding on_command
on_command-IsAnswer env conn_req id c s q h =
    subst (IsAnswer env conn_rsp id (reply_content s.host.link conn_req c) s)
      (sym (if_false {b = ltb (length c) 4} _ _ (ground (arith, h))))
      (on_conn_req-IsAnswer env id c s)
on_command-IsAnswer env disc_req id c s q h =
    subst (IsAnswer env disc_rsp id (take 4 c) s)
      (sym (if_false {b = ltb (length c) 4} _ _ (ground (arith, h))))
      (on_disc_req-IsAnswer env id c s)
on_command-IsAnswer env info_req id c s q h =
    subst (IsAnswer env info_rsp id (reply_content s.host.link info_req c) s)
      (sym (if_false {b = ltb (length c) 2} _ _ (ground (arith, h))))
      (on_info_req-IsAnswer env id c s)
on_command-IsAnswer env echo_req id c s q h =
    sig_send-IsAnswer env echo_rsp id (take 32 c) s (omega (arith, length-take_le 32 c))
on_command-IsAnswer env reject id c s q h = absurd (ground (arith, q))
on_command-IsAnswer env conn_rsp id c s q h = absurd (ground (arith, q))
on_command-IsAnswer env cfg_req id c s q h = absurd (ground (arith, q))
on_command-IsAnswer env cfg_rsp id c s q h = absurd (ground (arith, q))
on_command-IsAnswer env disc_rsp id c s q h = absurd (ground (arith, q))
on_command-IsAnswer env echo_rsp id c s q h = absurd (ground (arith, q))
on_command-IsAnswer env info_rsp id c s q h = absurd (ground (arith, q))
