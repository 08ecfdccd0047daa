-- ===== src/Bt/Host/Signals.antt =====
-- core/src/bt/host.c, the channels of a Classic link and the signaling that opens and closes them.
-- The state is the host with its link and the calls made so far: the commands handed to `l2_send`,
-- whose `Turn`s come from a stream, each with the packet that it made of it, and the HCI commands.
pub mod Commands
pub mod Agreed
pub mod Kept
pub mod History
pub mod Packets
pub mod Replies
pub mod Timeouts
use ghostcontrol_ps5_usb_con.Base.{
  ℕ, zero, suc, ◌+◌, ◌-◌, ◌*◌, ◌/◌, ◌%◌, Bool, true, false, not, ◌&&◌, ◌||◌, Option, none, some,
  List, [], ◌∷◌, ◌++◌, length, get_or, take, drop, replicate, ltb, leb, ◌==◌, ◌!=◌, if◌then◌else◌,
}
use ghostcontrol_ps5_usb_con.Bt.Host.{
  Chan, ChanState, ch_closed, ch_connecting, ch_config, ch_open, Link, no_link, Host, Turn, Sending,
  l2_send, put16, le16, cid_signaling, transport_lost, lose_unless,
}

abbrev pub psm_hid_ctrl : ℕ
psm_hid_ctrl = 0x0011

abbrev pub psm_hid_intr : ℕ
psm_hid_intr = 0x0013

abbrev pub cfg_tries_max : ℕ
cfg_tries_max = 6

abbrev pub chan_connect_ms : ℕ
chan_connect_ms = 2500

abbrev pub cfg_resend_ms : ℕ
cfg_resend_ms = 1200

abbrev pub cfg_timeout_ms : ℕ
cfg_timeout_ms = 4000

-- The codes of the commands.
pub data Code : Type 0 where
  reject conn_req conn_rsp cfg_req cfg_rsp disc_req disc_rsp echo_req echo_rsp info_req info_rsp :
      Code

abbrev pub number_of : Code → ℕ
number_of reject = 0x01
number_of conn_req = 0x02
number_of conn_rsp = 0x03
number_of cfg_req = 0x04
number_of cfg_rsp = 0x05
number_of disc_req = 0x06
number_of disc_rsp = 0x07
number_of echo_req = 0x08
number_of echo_rsp = 0x09
number_of info_req = 0x0A
number_of info_rsp = 0x0B

-- A command, and the packet that `acl_send` was called with for it: no bytes, where `l2_send` gave
-- the frame up before.
pub record Command : Type 0 where
  pub code : Code
  pub id : ℕ
  pub content : List ℕ
  pub packet : List ℕ

-- Which of the three channels of the link.
pub data Which : Type 0 where
  the_sdp the_ctrl the_intr : Which

-- `reads` and `turns_taken` count the calls that the clock and the transport have answered.
pub record State : Type 0 where
  pub host : Host
  pub commands : List Command
  pub opcodes : List ℕ
  pub reads : ℕ
  pub turns_taken : ℕ

-- The answers: the clock at each reading, what a frame meets, and whether the transport is there
-- after a HCI command.
pub record Env : Type 0 where
  pub clock : ℕ → ℕ
  pub turns : ℕ → Turn
  pub alive : ℕ → Bool

abbrev pub chan_of : Which → Link → Chan
chan_of the_sdp l = l.sdp
chan_of the_ctrl l = l.ctrl
chan_of the_intr l = l.intr

abbrev pub set_chan : Which → Chan → Link → Link
set_chan the_sdp c l = record l { sdp = c }
set_chan the_ctrl c l = record l { ctrl = c }
set_chan the_intr c l = record l { intr = c }

abbrev pub the_chan : Which → State → Chan
the_chan w s = chan_of w s.host.link

abbrev pub with_chan : Which → Chan → State → State
with_chan w c s = record s { host = record (s.host) { link = set_chan w c s.host.link } }

abbrev pub is_open : ChanState → Bool
is_open ch_open = true
is_open _ = false

abbrev pub is_closed : ChanState → Bool
is_closed ch_closed = true
is_closed _ = false

abbrev pub is_connecting : ChanState → Bool
is_connecting ch_connecting = true
is_connecting _ = false

abbrev pub is_config : ChanState → Bool
is_config ch_config = true
is_config _ = false

abbrev pub with_state : ℕ → ChanState → Chan → Chan
with_state now st c = record c {
  st = st;
  t_state = now;
  cfg_ours_ok = if is_open st then c.cfg_ours_ok else false;
  cfg_theirs_ok = if is_open st then c.cfg_theirs_ok else false;
  cfg_tries = if is_config st then 0 else c.cfg_tries;
}

unfoldable pub chan_by_scid : Link → ℕ → Option Which
chan_by_scid l cid =
    if not (is_closed l.sdp.st) && l.sdp.scid == cid
    then some the_sdp
    else if not (is_closed l.ctrl.st) && l.ctrl.scid == cid
    then some the_ctrl
    else if not (is_closed l.intr.st) && l.intr.scid == cid
    then some the_intr
    else none

unfoldable pub chan_by_psm : ℕ → Option Which
chan_by_psm psm =
    if psm == psm_hid_ctrl
    then some the_ctrl
    else if psm == psm_hid_intr
    then some the_intr
    else none

abbrev pub next_sig_id : ℕ → ℕ
next_sig_id id = if (id + 1) % 256 == 0 then 1 else (id + 1) % 256

abbrev pub with_link : Link → State → State
with_link l s = record s { host = record (s.host) { link = l } }

abbrev pub is_sdp : Which → Bool
is_sdp the_sdp = true
is_sdp _ = false

abbrev pub set_theirs : Which → State → State
set_theirs w s = with_chan w (record (the_chan w s) { cfg_theirs_ok = true }) s

abbrev pub set_ours : Which → State → State
set_ours w s = with_chan w (record (the_chan w s) { cfg_ours_ok = true }) s

abbrev pub set_dcid : Which → ℕ → State → State
set_dcid w dcid s = with_chan w (record (the_chan w s) { dcid = dcid }) s

-- The channel after one more try at `now`.
abbrev pub tried : ℕ → Chan → Chan
tried now c = record c { t_cfg = now; cfg_tries = c.cfg_tries + 1 }

-- A command with its header.
abbrev pub command_frame : Code → ℕ → List ℕ → List ℕ
command_frame code id d = number_of code ∷ id ∷ put16 (length d) ++ d

abbrev pub op_disconnect : ℕ
op_disconnect = 0x0406

abbrev pub op_create_connection_cancel : ℕ
op_create_connection_cancel = 0x0408

abbrev pub op_le_create_connection_cancel : ℕ
op_le_create_connection_cancel = 0x200E

module _ (env : Env) where
  unfoldable pub chan_set : Which → ChanState → State → State
  chan_set w st s = record (with_chan w (with_state (env.clock s.reads) st (the_chan w s)) s) {
    reads = s.reads + 1;
  }

  unfoldable pub sig_send : Code → ℕ → List ℕ → State → State
  sig_send code id d s =
      let r = l2_send (env.turns s.turns_taken) s.host cid_signaling (command_frame code id d) in
      if ltb 60 (length d) then s else record s {
        host = r.host;
        commands =
            s.commands ++ record { code = code; id = id; content = d; packet = r.packet } ∷ [];
        turns_taken = s.turns_taken + 1;
      }

  -- A request of ours, under the next id.
  unfoldable pub request : Code → List ℕ → State → State
  unfolding sig_send
  request code d s =
      let id = next_sig_id s.host.sig_id in
      sig_send code id d (record s { host = record (s.host) { sig_id = id } })

  abbrev pub cfg_asked : Which → State → State
  cfg_asked w s = request cfg_req (put16 (the_chan w s).dcid ++ put16 0) s

  unfoldable pub chan_send_cfg : Which → State → State
  unfolding request
  chan_send_cfg w s =
      let s' = cfg_asked w s in
      record (with_chan w (tried (env.clock s'.reads) (the_chan w s')) s') { reads = s'.reads + 1 }

  unfoldable pub chan_check_open : Which → State → State
  unfolding chan_set
  chan_check_open w s =
      let c = the_chan w s in
      if is_config c.st && c.cfg_ours_ok && c.cfg_theirs_ok then chan_set w ch_open s else s

  unfoldable pub chan_connect : Which → State → State
  unfolding chan_set request
  chan_connect w s =
      let s' = chan_set w ch_connecting s in
      request conn_req (put16 (the_chan w s').psm ++ put16 (the_chan w s').scid) s'

  unfoldable pub chan_close : Which → State → State
  unfolding chan_set request
  chan_close w s =
      let c = the_chan w s in
      chan_set w ch_closed (
        if is_open c.st || is_config c.st
        then request disc_req (put16 c.dcid ++ put16 c.scid) s
        else s)

  -- A HCI command that is not the start of a scan.
  unfoldable pub send_cmd : ℕ → State → State
  send_cmd op s = if s.host.dead then s else record s {
    host = lose_unless (env.alive (length s.opcodes)) s.host;
    opcodes = s.opcodes ++ op ∷ [];
  }

  -- The attempt to connect that is under way is called off, once.
  unfoldable pub cancel_attempt : State → State
  unfolding send_cmd
  cancel_attempt s =
      let s' = with_link (record (s.host.link) { cancel_sent = true }) s in
      if s.host.link.cancel_sent
      then s
      else if s.host.link.le
      then send_cmd op_le_create_connection_cancel s'
      else if s.host.link.remote_pending == 1
      then send_cmd op_create_connection_cancel s'
      else s'

  unfoldable pub link_disconnect : State → State
  unfolding send_cmd cancel_attempt
  link_disconnect s =
      if not s.host.link.connected
      then if s.host.link.remote_pending != 0 then cancel_attempt s else with_link no_link s
      else if s.host.link.disconnecting
      then s
      else let s' = send_cmd op_disconnect s in
        with_link (record (s'.host.link) { disconnecting = true }) s'

  unfoldable pub chan_lost : Which → State → State
  unfolding chan_set link_disconnect
  chan_lost w s =
      let s' = chan_set w ch_closed s in
      if not (is_sdp w) && s'.host.link.ready then link_disconnect s' else s'

  unfoldable pub chan_tick : Which → ℕ → State → State
  unfolding chan_set chan_close chan_send_cfg
  chan_tick w now s =
      let c = the_chan w s in
      if is_connecting c.st && ltb (c.t_state + chan_connect_ms) now
      then chan_set w ch_closed s
      else if is_config c.st && ltb (c.t_state + cfg_timeout_ms) now
      then chan_close w s
      else if is_config c.st && not c.cfg_ours_ok && leb (c.t_cfg + cfg_resend_ms) now
      then if leb cfg_tries_max c.cfg_tries then chan_close w s else chan_send_cfg w s
      else s
