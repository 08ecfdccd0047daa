-- ===== src/Bt/Host/Tests.antt =====
-- The theorems on core/src/bt/host.c at concrete inputs.
use ghostcontrol_ps5_usb_con.Base.{
  ◌≡◌, refl, ℕ, ◌+◌, ◌≤◌, arith, true, false, some, List, [], ◌∷◌, length, map, replicate,
}
use ghostcontrol_ps5_usb_con.Bt.Host.{
  AclPool, Chan, ch_config, ch_open, Link, Host, Turn, no_chan, no_link, pool_expire, l2_send,
  packet_of, hand_over, pool_sent, expire_loop,
}
use ghostcontrol_ps5_usb_con.Bt.Host.Pool.{InBounds}
use ghostcontrol_ps5_usb_con.Bt.Host.Send.{
  IsSound, frame, completed, transmit, transmit-IsSound, Went, l2_send-Went,
}
use ghostcontrol_ps5_usb_con.Bt.Host.Acl.{AclHost, free_link, link_by_handle, find_link}
use ghostcontrol_ps5_usb_con.Bt.Host.Acl.Frames.{on_acls, packet}
use ghostcontrol_ps5_usb_con.Bt.Host.Acl.Reassembly.{on_acls-reassembles}
use ghostcontrol_ps5_usb_con.Bt.Host.Signals.{
  State, Env, the_sdp, the_ctrl, the_intr, chan_by_psm, chan_by_scid, chan_set, sig_send, request,
  chan_send_cfg, chan_check_open, the_chan, conn_req, conn_rsp, number_of, command_frame,
}
use ghostcontrol_ps5_usb_con.Bt.Host.Signals.Commands.{
  on_command, signal_loop, on_signaling, on_conn_req, on_cfg_rsp, on_cfg_req, accept_cfg,
}
use ghostcontrol_ps5_usb_con.Bt.Host.Signals.Agreed.{IsAgreed, AgreedAt}
use ghostcontrol_ps5_usb_con.Bt.Host.Signals.History.{signals, tick, proceed, proceed-Agreed}
use ghostcontrol_ps5_usb_con.Bt.Host.Signals.Replies.{IsAnswer, on_command-IsAnswer}
use ghostcontrol_ps5_usb_con.Bt.Host.Signals.Packets.{handed}
use ghostcontrol_ps5_usb_con.Bt.Host.Signals.Timeouts.{cfg_reqs, ticks_bounded}
use ghostcontrol_ps5_usb_con.Bt.Host.Sdp.{
  Sdp, q_ids, sdp_find_ids, sdp_find_descriptor, on_sdp, descriptor_loop, de_header,
}
use ghostcontrol_ps5_usb_con.Bt.Host.Sdp.DeviceId.{
  record_of, sdp_find_ids-record_of, sdp_find_ids-version_misread,
}
use ghostcontrol_ps5_usb_con.Bt.Host.Sdp.Bounds.{Keeps, on_sdp-Keeps, sdp_find_descriptor-within}
use ghostcontrol_ps5_usb_con.Base.{none, All}
use ghostcontrol_ps5_usb_con.Bt.Host.Store.{DbRec, empty_rec, db_load, db_save, db_forget}
use ghostcontrol_ps5_usb_con.Bt.Host.Store.RoundTrip.{IsRec, db_load-db_save}
use ghostcontrol_ps5_usb_con.Bt.Host.Store.Distinct.{
  IsStore, Put, db-Put-Put, Forgot, db_forget-Forgot,
}

abbrev ten_buffers : AclPool
ten_buffers = record { credits = 10; max = 10; inflight = replicate 64 0; head = 0; count = 0 }

ten_buffers-InBounds : InBounds ten_buffers
ten_buffers-InBounds = record {
  places = refl;
  at = omega arith;
  within = omega arith;
  budget = omega arith;
}

abbrev control : Chan
control = record no_chan { psm = 0x11; scid = 0x41 }

abbrev pad_link : Link
pad_link = record no_link { connected = true; handle = 0x0B; ctrl = control }

abbrev a_host : Host
a_host = record {
  dead = false;
  acl_mtu = 1021;
  le_mtu = 0;
  le_separate = false;
  br = ten_buffers;
  lep = ten_buffers;
  sig_id = 0;
  tx_no_credit = 0;
  tx_failed = 0;
  link = pad_link;
}

abbrev a_turn : Turn
a_turn = record { now = 100; accepted = true; alive = true; sent_at = 101 }

a_host-IsSound : IsSound a_host
a_host-IsSound = record { classic = ten_buffers-InBounds; low_energy = ten_buffers-InBounds }

transmit-IsSound_example :
    IsSound (transmit a_host (frame a_turn 0x41 (1 ∷ 2 ∷ []) ∷ completed 1 ∷ []))
transmit-IsSound_example =
    transmit-IsSound a_host (frame a_turn 0x41 (1 ∷ 2 ∷ []) ∷ completed 1 ∷ []) a_host-IsSound

two_bytes_go : (l2_send a_turn a_host 0x41 (1 ∷ 2 ∷ [])).sent ≡ true
unfolding l2_send hand_over packet_of pool_sent pool_expire expire_loop
two_bytes_go = refl

l2_send-Went_example :
    Went a_turn a_host 0x41 (1 ∷ 2 ∷ []) (l2_send a_turn a_host 0x41 (1 ∷ 2 ∷ []))
l2_send-Went_example = l2_send-Went a_turn a_host 0x41 (1 ∷ 2 ∷ []) two_bytes_go

abbrev four_links : AclHost
four_links = record {
  links =
      record free_link { used = true; connected = true; handle = 0x0C }
      ∷ record free_link { used = true; connected = true; handle = 0x0B }
      ∷ free_link
      ∷ free_link
      ∷ [];
  acl_stale = 0;
  acl_malformed = 0;
}

second_has_0x0b : link_by_handle four_links 0x0B ≡ some 1
unfolding link_by_handle find_link
second_has_0x0b = refl

on_acls-reassembles_example :
    (on_acls four_links
      (packet 0x0B 0 (3 ∷ 0 ∷ 0x42 ∷ 0 ∷ 7 ∷ []) ∷ map (packet 0x0B 1) ((8 ∷ 9 ∷ []) ∷ []))).1
    ≡ record { slot = 1; cid = 0x42; bytes = 7 ∷ 8 ∷ 9 ∷ [] } ∷ []
on_acls-reassembles_example =
    on_acls-reassembles four_links 1 0x0B 0x42 (7 ∷ 8 ∷ 9 ∷ []) (3 ∷ 0 ∷ 0x42 ∷ 0 ∷ 7 ∷ [])
      ((8 ∷ 9 ∷ []) ∷ []) (omega arith) (omega arith) (omega arith) second_has_0x0b (omega arith)
      (omega arith) refl

abbrev an_env : Env
an_env = record { clock = λ k. 1000 + k; turns = λ k. a_turn; alive = λ k. true }

abbrev at_start : State
at_start = record { host = a_host; commands = []; opcodes = []; reads = 0; turns_taken = 0 }

closed-IsAgreed : (psm scid : ℕ) → IsAgreed (record no_chan { psm = psm; scid = scid })
closed-IsAgreed psm scid = ground arith

at_start-Agreed : AgreedAt at_start
at_start-Agreed the_sdp = closed-IsAgreed 0 0
at_start-Agreed the_ctrl = closed-IsAgreed 0x11 0x41
at_start-Agreed the_intr = closed-IsAgreed 0 0

-- The pad connects the control channel, accepts our configuration and sends its own.
abbrev opening : List ℕ
opening =
    2 ∷ 1 ∷ 4 ∷ 0 ∷ 0x11 ∷ 0 ∷ 0x60 ∷ 0 ∷ 5 ∷ 1 ∷ 6 ∷ 0 ∷ 0x41 ∷ 0 ∷ 0 ∷ 0 ∷ 0 ∷ 0 ∷ 4 ∷ 2 ∷ 4 ∷ 0
    ∷ 0x41 ∷ 0 ∷ 0 ∷ 0 ∷ []

proceed-Agreed_example :
    AgreedAt (proceed an_env at_start (signals opening ∷ tick the_ctrl 2000 ∷ []))
proceed-Agreed_example =
    proceed-Agreed an_env at_start (signals opening ∷ tick the_ctrl 2000 ∷ []) at_start-Agreed

control_opens : (the_chan the_ctrl (on_signaling an_env opening at_start)).st ≡ ch_open
unfolding on_signaling signal_loop on_command on_conn_req on_cfg_rsp on_cfg_req chan_by_psm
    chan_by_scid accept_cfg chan_set sig_send request chan_send_cfg chan_check_open l2_send
    hand_over packet_of pool_sent pool_expire expire_loop
control_opens = refl

on_command-IsAnswer_example :
    IsAnswer an_env conn_rsp 1
      (0x41 ∷ 0 ∷ 0x60 ∷ 0 ∷ 0 ∷ 0 ∷ 0 ∷ 0 ∷ [])
      at_start
      (on_command an_env (number_of conn_req) 1 (0x11 ∷ 0 ∷ 0x60 ∷ 0 ∷ []) at_start)
on_command-IsAnswer_example =
    on_command-IsAnswer an_env conn_req 1 (0x11 ∷ 0 ∷ 0x60 ∷ 0 ∷ []) at_start refl (omega arith)

-- The answer to that request goes out in a packet of 20 bytes.
answer_goes :
    length
      (handed a_turn a_host (command_frame conn_rsp 1 (0x41 ∷ 0 ∷ 0x60 ∷ 0 ∷ 0 ∷ 0 ∷ 0 ∷ 0 ∷ [])))
    ≡ 20
unfolding packet_of pool_expire expire_loop
answer_goes = refl

abbrev half_open : State
half_open = record at_start {
  host = record a_host {
    link = record pad_link { ctrl = record control { st = ch_config; cfg_tries = 4 } };
  };
}

-- The times of three ticks.
abbrev some_ticks : List ℕ
some_ticks = 2000 ∷ 3500 ∷ 3900 ∷ []

ticks_bounded_example :
    cfg_reqs (proceed an_env half_open (map (tick the_ctrl) some_ticks)).commands ≤ 0 + 2
ticks_bounded_example = ticks_bounded an_env the_ctrl half_open some_ticks

sdp_find_ids-record_of_example :
    sdp_find_ids (record_of 0x0103 0x054C 0x09CC 0x0100 1 2) ≡ (true, 0x054C, 0x09CC)
sdp_find_ids-record_of_example =
    sdp_find_ids-record_of 0x0103 0x054C 0x09CC 0x0100 1 2 refl refl refl

sdp_find_ids-version_misread_example :
    (sdp_find_ids (record_of 0x0103 0x054C 0x09CC 0x0201 1 2) ≡ (true, 0x0204, 0x09CC))
    × (sdp_find_ids (record_of 0x0103 0x054C 0x09CC 0x0202 1 2) ≡ (true, 0x054C, 0x0204))
sdp_find_ids-version_misread_example =
    sdp_find_ids-version_misread 0x0103 0x054C 0x09CC 1 2 refl refl

abbrev asking : Sdp
asking = record { query = q_ids; sent = true; tries = 1; tid = 7; t_sdp = 100; cont = []; buf = [] }

-- One byte of attributes, and two that continue the answer.
abbrev first_part : List ℕ
first_part = 0x07 ∷ 0 ∷ 7 ∷ 0 ∷ 6 ∷ 0 ∷ 1 ∷ 0x35 ∷ 2 ∷ 0xAA ∷ 0xBB ∷ []

on_sdp-Keeps_example : Keeps (on_sdp 200 true first_part asking)
on_sdp-Keeps_example =
    on_sdp-Keeps 200 true first_part asking
      (record { gathered = omega arith; continued = omega arith })

abbrev with_descriptor : List ℕ
with_descriptor = 0x35 ∷ 8 ∷ 0x35 ∷ 6 ∷ 0x08 ∷ 0x22 ∷ 0x25 ∷ 2 ∷ 0x05 ∷ 0x01 ∷ []

descriptor_found : sdp_find_descriptor with_descriptor ≡ some (8, 2)
unfolding sdp_find_descriptor descriptor_loop de_header
descriptor_found = refl

sdp_find_descriptor-within_example : 8 + 2 ≤ length with_descriptor
sdp_find_descriptor-within_example = sdp_find_descriptor-within with_descriptor 8 2 descriptor_found

abbrev an_addr : List ℕ
an_addr = 1 ∷ 2 ∷ 3 ∷ 4 ∷ 5 ∷ 6 ∷ []

abbrev one_pad : List DbRec
one_pad = record (empty_rec an_addr) { vid = 0x054C; pid = 0x09CC } ∷ []

one_pad-IsRec : All IsRec one_pad
one_pad-IsRec = (
  record {
    addr = refl;
    key = refl;
    rand = refl;
    irk = refl;
    vid = omega arith;
    pid = omega arith;
    ediv = omega arith;
  },
  tt,
)

db_load-db_save_example :
    db_load (
      db_save
        (record { opened = true; written = true; renamed = true })
        one_pad
        (record { store = none; beside = none }))
    ≡ one_pad
db_load-db_save_example =
    db_load-db_save (record { opened = true; written = true; renamed = true }) one_pad
      (record { store = none; beside = none }) one_pad-IsRec (omega arith)

one_pad-IsStore : IsStore one_pad
one_pad-IsStore = record { distinct = (tt, tt); small = omega arith }

db-Put-Put_example : Put one_pad (9 ∷ 9 ∷ 9 ∷ 9 ∷ 9 ∷ 9 ∷ [])
db-Put-Put_example = db-Put-Put one_pad (9 ∷ 9 ∷ 9 ∷ 9 ∷ 9 ∷ 9 ∷ []) one_pad-IsStore

db_forget-Forgot_example : Forgot an_addr (db_forget one_pad an_addr)
db_forget-Forgot_example = db_forget-Forgot one_pad an_addr one_pad-IsStore
