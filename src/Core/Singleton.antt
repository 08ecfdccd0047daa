-- ===== src/Core/Singleton.antt =====
-- core/src/gc_singleton.c: a new instance takes the place of the one before.
-- The POSIX calls are the fields of `Posix`, on a world of any type; the trace keeps what was
-- called and answered, the newest first. Messages to the log are left out. The pid file's
-- descriptor is open and its path is there, as the source asks.
pub mod Signals
pub mod Exclusive
use ghostcontrol_ps5_usb_con.Base.{
  ℕ, zero, suc, ◌+◌, ◌-◌, ◌^◌, ◌*◌, Bool, true, false, ◌&&◌, ◌||◌, not, Option, none, some, List,
  [], ◌∷◌, ltb, leb, ◌==◌, if◌then◌else◌, u32,
}
use ghostcontrol_ps5_usb_con.Base.{ℤ, pos, negsuc, eq_ℤ}

abbrev pub term_polls : ℕ
term_polls = 120

abbrev pub kill_polls : ℕ
kill_polls = 50

abbrev pub poll_ms : ℕ
poll_ms = 100

abbrev pub lock_retry_ms : ℕ
lock_retry_ms = 250

abbrev pub lock_retry_steps : ℕ
lock_retry_steps = 20

pub data LockFile : Type 0 where
  pid_file hold_file : LockFile

pub data Signal : Type 0 where
  sig_none sig_term sig_kill : Signal

-- What kill() answers: success, or a failure with EPERM or with another error.
pub data KillAnswer : Type 0 where
  delivered not_permitted not_delivered : KillAnswer

pub record Posix (W : Type 0) : Type 0 where
  pub getpid : ℤ
  pub flock : W → LockFile → Bool × W
  pub kill : W → ℤ → Signal → KillAnswer × W
  pub usleep_ms : W → ℕ → W
  pub read_number : W → Option ℤ × W  -- lseek, read and strtol of the pid file
  pub open_hold : W → Bool × W
  pub close_hold : W → W
  pub write_pid : W → ℤ → W  -- ftruncate, lseek, write and fsync, which may fail

pub data Action : Type 0 where
  locking : LockFile → Bool → Action
  signalling : ℤ → Signal → KillAnswer → Action
  waiting : ℕ → Action
  reading : Action
  opening_hold : Bool → Action
  closing_hold : Action
  claiming : ℤ → Action

pub record State (W : Type 0) : Type 0 where
  pub world : W
  pub trace : List Action

abbrev pub is_delivered : KillAnswer → Bool
is_delivered delivered = true
is_delivered _ = false

-- The process exists: the signal was delivered, or only not permitted.
abbrev pub is_there : KillAnswer → Bool
is_there not_delivered = false
is_there _ = true

abbrev pub above_one : ℤ → Bool
above_one (pos n) = ltb 1 n
above_one (negsuc n) = false

-- `(pid_t)value`.
abbrev pub to_pid : ℤ → ℤ
to_pid (pos n) = if ltb (u32 n) (2 ^ 31) then pos (u32 n) else negsuc (2 ^ 32 - u32 n - 1)
to_pid (negsuc n) = if ltb (u32 n) (2 ^ 31) then negsuc (u32 n) else pos (2 ^ 32 - u32 n - 1)

abbrev pub no_pid : ℤ
no_pid = negsuc 0

-- What eviction comes to: 0, 1 and -1 of the source, and -2 where there was no pid to evict.
pub data Eviction : Type 0 where
  gone wedged unreachable nobody : Eviction

abbrev pub is_ghost : Eviction → Bool
is_ghost gone = true
is_ghost wedged = true
is_ghost _ = false

module _ {W : Type 0} (P : Posix W) where
  unfoldable pub note : State W → W → Action → State W
  note s w a = record { world = w; trace = a ∷ s.trace }

  unfoldable pub send : State W → ℤ → Signal → KillAnswer × State W
  send s pid sig = let r = P.kill s.world pid sig in (r.0, note s r.1 (signalling pid sig r.0))

  unfoldable pub pause : State W → ℕ → State W
  pause s ms = note s (P.usleep_ms s.world ms) (waiting ms)

  unfoldable pub try_lock : State W → LockFile → Bool × State W
  try_lock s f = let r = P.flock s.world f in (r.0, note s r.1 (locking f r.0))

  unfoldable pub process_is_alive : State W → ℤ → Bool × State W
  process_is_alive s pid =
      if not (above_one pid) || eq_ℤ pid P.getpid
      then (false, s)
      else let r = send s pid sig_none in (is_there r.0, r.1)

  abbrev pub usable_pid : Option ℤ → ℤ
  usable_pid none = no_pid
  usable_pid (some v) = if above_one v && not (eq_ℤ v P.getpid) then to_pid v else no_pid

  unfoldable pub read_previous_pid : State W → ℤ × State W
  read_previous_pid s = let r = P.read_number s.world in (usable_pid r.0, note s r.1 reading)

  -- The waiting loop after a signal: whether the lock came free or the process went away.
  unfoldable pub await_exit : ℕ → State W → ℤ → Bool × State W
  await_exit zero s pid = (false, s)
  await_exit (suc n) s pid =
      let locked = try_lock (pause s poll_ms) pid_file in
      let alive = process_is_alive locked.1 pid in
      let rest = await_exit n alive.1 pid in
      if locked.0 then (true, locked.1) else if alive.0 then rest else (true, alive.1)

  -- SIGKILL after the SIGTERM window.
  unfoldable pub force_exit : State W → ℤ → Eviction × State W
  force_exit s pid =
      let killed = send s pid sig_kill in
      let waited = await_exit kill_polls killed.1 pid in
      if is_delivered killed.0
      then (if waited.0 then gone else wedged, waited.1)
      else (unreachable, killed.1)

  unfoldable pub evict_previous : State W → ℤ → Eviction × State W
  evict_previous s pid =
      let alive = process_is_alive s pid in
      let asked = send alive.1 pid sig_term in
      let waited = await_exit term_polls asked.1 pid in
      if alive.0
      then if waited.0 then (gone, waited.1) else force_exit waited.1 pid
      else (gone, alive.1)

  unfoldable pub retry_lock : ℕ → State W → Bool × State W
  retry_lock zero s = try_lock s pid_file
  retry_lock (suc n) s =
      let locked = try_lock s pid_file in
      let rest = retry_lock n (pause locked.1 lock_retry_ms) in if locked.0 then locked else rest

  -- The second lock; a file that was opened but not locked is closed again.
  unfoldable pub claim_secondary : State W → Bool × State W
  claim_secondary s =
      let opened = P.open_hold s.world in
      let t = note s opened.1 (opening_hold opened.0) in
      let locked = try_lock t hold_file in
      let closed = note locked.1 (P.close_hold locked.1.world) closing_hold in
      if opened.0 then if locked.0 then (true, locked.1) else (false, closed) else (false, t)

  abbrev pub evict_known : State W → ℤ → Eviction × State W
  evict_known s pid = if above_one pid then evict_previous s pid else (nobody, s)

  -- What happens where the lock was busy.
  unfoldable pub take_busy : State W → Bool × State W
  take_busy s =
      let previous = read_previous_pid s in
      let evicted = evict_known previous.1 previous.0 in
      let locked = retry_lock lock_retry_steps evicted.1 in
      if locked.0
      then locked
      else if is_ghost evicted.0
      then claim_secondary locked.1
      else (false, locked.1)

  abbrev pub settle : State W → ℕ → State W
  settle s settle_ms = if ltb 0 settle_ms then pause s settle_ms else s

  abbrev pub claim_pid_file : State W → State W
  claim_pid_file s = note s (P.write_pid s.world P.getpid) (claiming P.getpid)

  -- The Boolean is whether the source returns 0 rather than -1.
  unfoldable pub takeover : State W → ℕ → Bool × State W
  takeover s settle_ms =
      let locked = try_lock s pid_file in
      let busy = take_busy locked.1 in
      let held = if locked.0 then locked else busy in
      if held.0 then (true, settle (claim_pid_file held.1) settle_ms) else (false, held.1)
