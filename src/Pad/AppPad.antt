-- ===== src/Pad/AppPad.antt =====
-- core/src/gc_app_pad.c, the state: the pad that an app owns, its settings and its rumble event.
-- Unsigned fields are of 32 bits and the identifiers and times of 64; the boot number of the
-- source, which calls are serialised by one mutex, stays what `init` made it.
pub mod Exchange
pub mod Wire
pub mod Sound
pub mod History
pub mod Accepted
pub mod Command
use ghostcontrol_ps5_usb_con.Base.{
  ℕ, zero, suc, ◌+◌, ◌-◌, ◌*◌, Bool, true, false, ◌&&◌, ◌||◌, not, Option, none, some, ltb, leb,
  ◌==◌, ◌!=◌, if◌then◌else◌, u32, u64, sub64,
}
use ghostcontrol_ps5_usb_con.Base.{ℤ, pos, negsuc, eq_ℤ}

abbrev pub lease_ms : ℕ
lease_ms = 1500

abbrev pub ttl_ms : ℕ
ttl_ms = 5000

abbrev pub uint64_max : ℕ
uint64_max = 0xffffffffffffffff

-- -2147483647.
abbrev pub not_called : ℤ
not_called = negsuc 2147483646

-- The enumeration's constants are the numbers from 0 on in this order, which the reply carries.
pub data EventState : Type 0 where
  idle pending started complete failed cancelled expired : EventState

abbrev pub state_number : EventState → ℕ
state_number idle = 0
state_number pending = 1
state_number started = 2
state_number complete = 3
state_number failed = 4
state_number cancelled = 5
state_number expired = 6

pub record Poll : Type 0 where
  pub session : ℕ
  pub generation : ℕ
  pub connected : ℕ
  pub caps : ℕ
  pub read_rc : ℤ
  pub handle_rc : ℤ

pub record Ack : Type 0 where
  pub session : ℕ
  pub generation : ℕ
  pub boot : ℕ
  pub revision : ℕ
  pub light_rc : ℤ
  pub event_id : ℕ
  pub phase : ℕ
  pub mode_rc : ℤ
  pub start_rc : ℤ
  pub stop_rc : ℤ
  pub reset_rc : ℤ

pub record Reply : Type 0 where
  pub boot : ℕ
  pub revision : ℕ
  pub enabled : ℕ
  pub effect : ℕ
  pub period_ms : ℕ
  pub step_ms : ℕ
  pub r : ℕ
  pub g : ℕ
  pub b : ℕ
  pub lease : ℕ
  pub event_id : ℕ
  pub event_state : ℕ
  pub ttl_remaining_ms : ℕ
  pub large : ℕ
  pub small : ℕ
  pub on_ms : ℕ
  pub off_ms : ℕ
  pub repeats : ℕ
  pub stop : ℕ
  pub generation : ℕ

-- The settings of the light bar.
pub record Light : Type 0 where
  pub enabled : ℕ
  pub effect : ℕ
  pub period_ms : ℕ
  pub step_ms : ℕ
  pub r : ℕ
  pub g : ℕ
  pub b : ℕ

-- The rumble pattern of the event.
pub record Pattern : Type 0 where
  pub large : ℕ
  pub small : ℕ
  pub on_ms : ℕ
  pub off_ms : ℕ
  pub repeats : ℕ

pub record AppPad : Type 0 where
  pub boot : ℕ
  pub revision : ℕ
  pub session : ℕ
  pub generation : ℕ
  pub last_poll_ms : ℕ
  pub next_id : ℕ
  pub event_id : ℕ
  pub event_created_ms : ℕ
  pub event_started_ms : ℕ
  pub light : Light
  pub connected : ℕ
  pub caps : ℕ
  pub event_state : EventState
  pub delivered : Bool
  pub pattern : Pattern
  pub light_ack_revision : ℕ
  pub read_rc : ℤ
  pub handle_rc : ℤ
  pub light_rc : ℤ
  pub mode_rc : ℤ
  pub start_rc : ℤ
  pub stop_rc : ℤ
  pub reset_rc : ℤ

abbrev pub is_pending : EventState → Bool
is_pending pending = true
is_pending _ = false

abbrev pub is_started : EventState → Bool
is_started started = true
is_started _ = false

abbrev pub is_complete : EventState → Bool
is_complete complete = true
is_complete _ = false

abbrev pub live : AppPad → Bool
live s = is_pending s.event_state || is_started s.event_state

abbrev pub no_pattern : Pattern
no_pattern = record { large = 0; small = 0; on_ms = 0; off_ms = 0; repeats = 0 }

unfoldable pub init : ℕ → AppPad
init boot = record {
  boot = boot;
  revision = 1;
  session = 0;
  generation = 0;
  last_poll_ms = 0;
  next_id = 0;
  event_id = 0;
  event_created_ms = 0;
  event_started_ms = 0;
  light = record { enabled = 1; effect = 0; period_ms = 2000; step_ms = 32; r = 0; g = 0; b = 0 };
  connected = 0;
  caps = 0;
  event_state = idle;
  delivered = false;
  pattern = no_pattern;
  light_ack_revision = 0;
  read_rc = not_called;
  handle_rc = not_called;
  light_rc = not_called;
  mode_rc = not_called;
  start_rc = not_called;
  stop_rc = not_called;
  reset_rc = not_called;
}

-- The time that a pattern takes, in uint64 arithmetic on 32-bit factors.
unfoldable pub duration : Pattern → ℕ
duration p = u64 (p.on_ms * p.repeats + p.off_ms * u32 (p.repeats + 0xffffffff))

abbrev pub lease_over : AppPad → ℕ → Bool
lease_over s now = leb lease_ms (sub64 now s.last_poll_ms)

-- The three rules of `expire`, in its order.
unfoldable pub expire_lease : AppPad → ℕ → AppPad
expire_lease s now =
    if s.session != 0 && lease_over s now
    then record s {
      connected = 0;
      event_state = if live s && s.delivered then cancelled else s.event_state;
    }
    else s

unfoldable pub expire_pending : AppPad → ℕ → AppPad
expire_pending s now =
    if is_pending s.event_state && leb ttl_ms (sub64 now s.event_created_ms)
    then record s { event_state = expired }
    else s

unfoldable pub expire_started : AppPad → ℕ → AppPad
expire_started s now =
    if is_started s.event_state
      && leb (u64 (duration s.pattern + lease_ms)) (sub64 now s.event_started_ms)
    then record s { event_state = expired }
    else s

unfoldable pub expire : AppPad → ℕ → AppPad
expire s now = expire_started (expire_pending (expire_lease s now) now) now

unfoldable pub stop : AppPad → AppPad
stop s = if live s then record s { event_state = cancelled } else s

-- What `configure` accepts.
unfoldable pub light_allowed : Light → Bool
light_allowed l =
    leb l.enabled 1
    && leb l.effect 4
    && leb 100 l.period_ms
    && leb l.period_ms 60000
    && leb 16 l.step_ms
    && leb l.step_ms 1000
    && leb l.r 255
    && leb l.g 255
    && leb l.b 255

-- The Boolean, here and below, is whether the call returns 0 rather than -1.
unfoldable pub configure : AppPad → Light → Bool × AppPad
configure s l =
    if light_allowed l && s.revision != uint64_max
    then (
      true,
      record s {
        light = l;
        revision = s.revision + 1;
        light_ack_revision = 0;
        light_rc = not_called;
      },
    )
    else (false, s)

-- What `schedule` accepts.
unfoldable pub pattern_allowed : Pattern → Bool
pattern_allowed p =
    leb p.large 255
    && leb p.small 255
    && not (p.large == 0 && p.small == 0)
    && p.on_ms != 0
    && leb p.on_ms 2000
    && leb p.off_ms 2000
    && p.repeats != 0
    && leb p.repeats 16
    && leb (duration p) 10000

abbrev pub place_event : AppPad → ℕ → Pattern → AppPad
place_event s now p = record s {
  next_id = s.next_id + 1;
  event_id = s.next_id + 1;
  event_created_ms = now;
  event_state = pending;
  delivered = false;
  pattern = p;
  mode_rc = not_called;
  start_rc = not_called;
  stop_rc = not_called;
}

unfoldable pub try_place : AppPad → ℕ → Pattern → Bool × AppPad
try_place s now p = if live s then (false, s) else (true, place_event s now p)

unfoldable pub schedule : AppPad → ℕ → Pattern → Bool × AppPad
schedule s now p =
    if pattern_allowed p && s.next_id != uint64_max
    then try_place (expire s now) now p
    else (false, s)

-- The state that `status` leaves and copies out.
unfoldable pub status : AppPad → ℕ → AppPad
status s now = expire s now
