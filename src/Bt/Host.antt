-- ===== src/Bt/Host.antt =====
-- core/src/bt/host.c, one link of the host: its record, and how a frame is sent on it.
-- What a call of the transport or of the clock brings back is an argument: a `Turn` for each frame
-- that is sent. A time is a number of milliseconds, a frame or a packet the list of its bytes.
-- Left out: the lines of the log, the callbacks, the LE attempt that `link_free` ends, and the other
-- three links.
mod Tests
pub mod Pool
pub mod Send
pub mod Acl
pub mod Signals
pub mod Sdp
pub mod Store
use ghostcontrol_ps5_usb_con.Base.{
  ℕ, zero, suc, ◌+◌, ◌-◌, ◌*◌, ◌/◌, ◌%◌, Bool, true, false, not, ◌&&◌, ◌||◌, List, [], ◌∷◌, ◌++◌,
  length, get_or, set, replicate, u32, ltb, leb, ◌==◌, ◌!=◌, if◌then◌else◌,
}
use ghostcontrol_ps5_usb_con.Bt.HciRx.{hci_pkt_max}

abbrev pub inflight_max : ℕ
inflight_max = 64

abbrev pub inflight_ms : ℕ
inflight_ms = 60

abbrev pub cid_signaling : ℕ
cid_signaling = 0x0001

abbrev pub put16 : ℕ → List ℕ
put16 v = v % 256 ∷ v / 256 % 256 ∷ []

abbrev pub le16 : List ℕ → ℕ → ℕ
le16 p i = get_or p i 0 + get_or p (i + 1) 0 * 256

pub record AclPool : Type 0 where
  pub credits : ℕ
  pub max : ℕ
  pub inflight : List ℕ
  pub head : ℕ
  pub count : ℕ

pub data ChanState : Type 0 where
  ch_closed ch_connecting ch_config ch_open : ChanState

pub record Chan : Type 0 where
  pub psm : ℕ
  pub scid : ℕ
  pub dcid : ℕ
  pub st : ChanState
  pub cfg_ours_ok : Bool
  pub cfg_theirs_ok : Bool
  pub cfg_tries : ℕ
  pub t_state : ℕ
  pub t_cfg : ℕ

pub record Link : Type 0 where
  pub connected : Bool
  pub le : Bool
  pub handle : ℕ
  pub ready : Bool
  pub disconnecting : Bool
  pub remote_pending : ℕ
  pub cancel_sent : Bool
  pub sdp : Chan
  pub ctrl : Chan
  pub intr : Chan

pub record Host : Type 0 where
  pub dead : Bool
  pub acl_mtu : ℕ
  pub le_mtu : ℕ
  pub le_separate : Bool
  pub br : AclPool
  pub lep : AclPool
  pub sig_id : ℕ
  pub tx_no_credit : ℕ
  pub tx_failed : ℕ
  pub link : Link

-- What comes back while a frame is sent: the clock before, whether `acl_send` takes the packet,
-- whether the transport is still there afterwards, and the clock then.
pub record Turn : Type 0 where
  pub now : ℕ
  pub accepted : Bool
  pub alive : Bool
  pub sent_at : ℕ

abbrev pub no_chan : Chan
no_chan = record {
  psm = 0;
  scid = 0;
  dcid = 0;
  st = ch_closed;
  cfg_ours_ok = false;
  cfg_theirs_ok = false;
  cfg_tries = 0;
  t_state = 0;
  t_cfg = 0;
}

-- A link whose memory is all 0.
abbrev pub no_link : Link
no_link = record {
  connected = false;
  le = false;
  handle = 0;
  ready = false;
  disconnecting = false;
  remote_pending = 0;
  cancel_sent = false;
  sdp = no_chan;
  ctrl = no_chan;
  intr = no_chan;
}

abbrev pub transport_lost : Host → Host
transport_lost h = record h { dead = true; link = no_link }

-- The oldest packet goes.
abbrev pub retire : AclPool → AclPool
retire p = record p { head = (p.head + 1) % inflight_max; count = p.count - 1 }

abbrev pub oldest : AclPool → ℕ
oldest p = get_or p.inflight p.head 0

abbrev pub is_overdue : ℕ → AclPool → Bool
is_overdue now p = ltb 0 p.count && ltb (oldest p + inflight_ms) now

unfoldable pub expire_one : AclPool → AclPool
expire_one p = record (retire p) {
  credits = if ltb p.credits p.max then p.credits + 1 else p.credits;
}

-- The loop, which takes a packet out in each round.
unfoldable pub expire_loop : ℕ → ℕ → AclPool → AclPool
expire_loop zero now p = p
expire_loop (suc rounds) now p = elim (is_overdue now p) [
  | true ↦ expire_loop rounds now (expire_one p)
  | false ↦ p
]

unfoldable pub pool_expire : ℕ → AclPool → AclPool
pool_expire now p = expire_loop p.count now p

abbrev pub done_one : AclPool → AclPool
done_one p = if ltb 0 p.count then retire p else p

-- The loop over `n` reports.
unfoldable pub done_loop : ℕ → AclPool → AclPool
done_loop zero p = p
done_loop (suc n) p = done_loop n (done_one p)

unfoldable pub pool_done : AclPool → ℕ → AclPool
pool_done p n =
    let q = done_loop n p in
    record q { credits = if ltb q.max (q.credits + n) then q.max else q.credits + n }

abbrev pub make_room : AclPool → AclPool
make_room p = if p.count == inflight_max then retire p else p

-- The packet is with the controller since `now`.
unfoldable pub pool_sent : ℕ → AclPool → AclPool
pool_sent now p =
    let q = make_room (record p { credits = p.credits - 1 }) in
    record q {
      inflight = set q.inflight ((q.head + q.count) % inflight_max) now;
      count = q.count + 1;
    }

abbrev pub on_le_pool : Host → Bool
on_le_pool h = h.link.le && h.le_separate

abbrev pub pool_of : Host → AclPool
pool_of h = if on_le_pool h then h.lep else h.br

abbrev pub with_pool : Host → AclPool → Host
with_pool h p = if on_le_pool h then record h { lep = p } else record h { br = p }

abbrev pub mtu_of : Host → ℕ
mtu_of h = if on_le_pool h then h.le_mtu else h.acl_mtu

unfoldable pub packet_of : Link → ℕ → List ℕ → List ℕ
packet_of l cid d =
    put16 (l.handle % 0x1000 + (if l.le then 0 else 0x2000))
    ++ put16 (4 + length d)
    ++ put16 (length d)
    ++ put16 cid
    ++ d

abbrev pub too_large : Host → ℕ → Bool
too_large h len = ltb hci_pkt_max (8 + len) || mtu_of h != 0 && ltb (mtu_of h) (4 + len)

-- The host afterwards, the packet that `acl_send` was called with, and what the call returns.
pub record Sending : Type 0 where
  pub host : Host
  pub packet : List ℕ
  pub sent : Bool

abbrev pub unsent : Host → Sending
unsent h = record { host = h; packet = []; sent = false }

abbrev pub lose_unless : Bool → Host → Host
lose_unless alive h = if alive then h else transport_lost h

-- From the call of `acl_send` on, with a credit in the pool.
unfoldable pub hand_over : Turn → Host → ℕ → List ℕ → Sending
hand_over t h cid d =
    let packet = packet_of h.link cid d in
    if not t.accepted
    then record {
      host = lose_unless t.alive (record h { tx_failed = u32 (h.tx_failed + 1) });
      packet = packet;
      sent = false;
    }
    else if not t.alive
    then record { host = transport_lost h; packet = packet; sent = false }
    else record {
      host = with_pool h (pool_sent t.sent_at (pool_of h));
      packet = packet;
      sent = true;
    }

unfoldable pub l2_send : Turn → Host → ℕ → List ℕ → Sending
unfolding hand_over
l2_send t h cid d =
    if h.dead || not h.link.connected
    then unsent h
    else if too_large h (length d)
    then unsent h
    else let expired = with_pool h (pool_expire t.now (pool_of h)) in
      if (pool_of expired).credits == 0
      then unsent (record expired { tx_no_credit = u32 (expired.tx_no_credit + 1) })
      else hand_over t expired cid d
