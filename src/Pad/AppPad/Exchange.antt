-- ===== src/Pad/AppPad/Exchange.antt =====
-- core/src/gc_app_pad.c, what the app asks: the poll and the acknowledgement.
use ghostcontrol_ps5_usb_con.Base.{
  ℕ, ◌/◌, ◌%◌, Bool, true, false, ◌&&◌, ◌||◌, not, Option, none, some, ltb, ◌==◌, ◌!=◌,
  if◌then◌else◌, u32, sub64,
}
use ghostcontrol_ps5_usb_con.Base.{ℤ, pos, eq_ℤ}
use ghostcontrol_ps5_usb_con.Pad.AppPad.{
  lease_ms, ttl_ms, not_called, EventState, started, complete, failed, cancelled, state_number,
  Poll, Ack, Reply, AppPad, no_pattern, is_pending, is_complete, live, lease_over, expire,
}

-- The three guards that come before any change.
unfoldable pub poll_refused : AppPad → ℕ → Poll → Bool
poll_refused s now p =
    s.boot == 0
    || p.session == 0
    || p.generation == 0
    || ltb 1 p.connected
    || ltb 7 p.caps
    || (s.session != 0 && p.session != s.session && not (lease_over s now))
    || (p.session == s.session && ltb p.generation s.generation)

abbrev pub other_peer : AppPad → Poll → Bool
other_peer s p = s.session != p.session || s.generation != p.generation

-- An event that another session, generation or a disconnected app had begun ends.
unfoldable pub drop_event : AppPad → Poll → AppPad
drop_event s p =
    if (other_peer s p || p.connected == 0) && live s && s.delivered
    then record s { event_state = cancelled }
    else s

unfoldable pub drop_light : AppPad → Poll → AppPad
drop_light s p =
    if other_peer s p then record s { light_ack_revision = 0; light_rc = not_called } else s

unfoldable pub take_peer : AppPad → ℕ → Poll → AppPad
unfolding drop_event drop_light
take_peer s now p = record (drop_light (drop_event s p) p) {
  session = p.session;
  generation = p.generation;
  last_poll_ms = now;
  connected = p.connected;
  caps = p.caps;
  read_rc = p.read_rc;
  handle_rc = p.handle_rc;
}

-- Bit 1 of the capabilities.
abbrev pub can_rumble : ℕ → Bool
can_rumble caps = (caps / 2) % 2 == 1

unfoldable pub offers_event : AppPad → Poll → Bool
offers_event s p = s.event_id != 0 && p.connected != 0 && can_rumble p.caps

unfoldable pub reply_to : AppPad → ℕ → Poll → Reply
reply_to s now p =
    let offered = offers_event s p in
    let pattern = if offered then s.pattern else no_pattern in
    record {
      boot = s.boot;
      revision = s.revision;
      enabled = s.light.enabled;
      effect = s.light.effect;
      period_ms = s.light.period_ms;
      step_ms = s.light.step_ms;
      r = s.light.r;
      g = s.light.g;
      b = s.light.b;
      lease = lease_ms;
      event_id = if offered then s.event_id else 0;
      event_state = state_number s.event_state;
      ttl_remaining_ms =
          if offered && is_pending s.event_state
          then u32 (sub64 ttl_ms (sub64 now s.event_created_ms))
          else 0;
      large = pattern.large;
      small = pattern.small;
      on_ms = pattern.on_ms;
      off_ms = pattern.off_ms;
      repeats = pattern.repeats;
      stop = if live s then 0 else 1;
      generation = p.generation;
    }

abbrev pub mark_delivered : AppPad → Poll → AppPad
mark_delivered s p =
    if offers_event s p && is_pending s.event_state then record s { delivered = true } else s

-- `none` is the result -1.
unfoldable pub poll : AppPad → ℕ → Poll → Option Reply × AppPad
unfolding take_peer reply_to poll_refused
poll s now p =
    if poll_refused s now p
    then (none, s)
    else let t = take_peer (expire s now) now p in (some (reply_to t now p), mark_delivered t p)

abbrev pub succeeded : ℤ → Bool
succeeded rc = eq_ℤ rc (pos 0)

unfoldable pub ack_refused : AppPad → ℕ → Ack → Bool
ack_refused s now a =
    a.session != s.session
    || a.generation != s.generation
    || a.boot != s.boot
    || a.revision != s.revision
    || ltb 4 a.phase
    || s.session == 0
    || lease_over s now
    || (a.phase != 0 && (a.event_id != s.event_id || not s.delivered))
    || (a.phase == 1 && not (live s))
    || (is_complete s.event_state && a.phase != 0 && a.phase != 2)
    || (a.phase == 1 && not (succeeded a.mode_rc && succeeded a.start_rc))
    || (a.phase == 2 && not (succeeded a.mode_rc && succeeded a.start_rc && succeeded a.stop_rc))

abbrev pub phase_state : ℕ → EventState
phase_state phase =
    if phase == 1
    then started
    else if phase == 2
    then complete
    else if phase == 3
    then failed
    else cancelled

unfoldable pub ack_event : AppPad → ℕ → Ack → AppPad
ack_event s now a = if a.phase == 0 then s else record s {
  event_started_ms = if a.phase == 1 && is_pending s.event_state then now else s.event_started_ms;
  mode_rc = a.mode_rc;
  start_rc = a.start_rc;
  stop_rc = a.stop_rc;
  event_state = if live s then phase_state a.phase else s.event_state;
}

unfoldable pub ack : AppPad → ℕ → Ack → Bool × AppPad
unfolding ack_refused ack_event
ack s now a = if ack_refused s now a then (false, s) else (
  true,
  ack_event
      (record s { light_ack_revision = a.revision; light_rc = a.light_rc; reset_rc = a.reset_rc })
      now a,
)
