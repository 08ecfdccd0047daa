-- ===== src/Pad/Identify.antt =====
-- core/src/gc_vpad_identify.c: which device the virtual pad that was just added became.
-- The state is always there: the null pointers that the source refuses have no counterpart.
pub mod Outcome
use ghostcontrol_ps5_usb_con.Base.{
  ℕ, zero, suc, ◌-◌, Bool, true, false, ◌&&◌, ◌||◌, ltb, leb, ◌==◌, if◌then◌else◌,
}
use ghostcontrol_ps5_usb_con.Base.{ℤ}

pub data IdentifyResult : Type 0 where
  idle pending identified ambiguous unknown : IdentifyResult

pub record VpadIdentify : Type 0 where
  pub result : IdentifyResult
  pub slot : ℤ
  pub active : Bool
  pub candidates : ℕ
  pub device_id : ℕ  -- uint64, as the times below
  pub start_ms : ℕ
  pub first_ms : ℕ
  pub identify_ms : ℕ
  pub ambiguity_ms : ℕ

abbrev pub candidates_max : ℕ
candidates_max = 2

abbrev pub window_ms : ℕ
window_ms = 3000

abbrev pub window_ambiguity_ms : ℕ
window_ambiguity_ms = 300

-- The source's `state->result = r; state->active = 0; return state->result`.
abbrev pub settle : VpadIdentify → IdentifyResult → IdentifyResult × VpadIdentify
settle s r = (r, record s { result = r; active = false })

unfoldable pub clock_went_back : VpadIdentify → IdentifyResult × VpadIdentify
clock_went_back s = settle s unknown

-- The Boolean is whether the call returns 0 rather than -1.
unfoldable pub configure : VpadIdentify → ℕ → ℕ → Bool × VpadIdentify
configure s identify ambiguity =
    if identify == 0 || ambiguity == 0
    then (false, s)
    else if s.active
    then (false, s)
    else (true, record s { identify_ms = identify; ambiguity_ms = ambiguity })

unfoldable pub begin : VpadIdentify → ℕ → ℤ → VpadIdentify
begin s now slot = if s.active then s else record {
  result = pending;
  slot = slot;
  active = true;
  candidates = 0;
  device_id = 0;
  start_ms = now;
  first_ms = 0;
  identify_ms = if s.identify_ms == 0 then window_ms else s.identify_ms;
  ambiguity_ms = if s.ambiguity_ms == 0 then window_ambiguity_ms else s.ambiguity_ms;
}

unfoldable pub on_device : VpadIdentify → ℕ → ℕ → IdentifyResult × VpadIdentify
unfolding clock_went_back
on_device s now id =
    if s.active
    then if ltb now s.start_ms
      then clock_went_back s
      else if id == 0
      then (s.result, s)
      else if ltb 0 s.candidates && s.device_id == id
      then (s.result, s)
      else if s.candidates == 0
      then (s.result, record s { device_id = id; candidates = 1; first_ms = now })
      else settle (record s { candidates = candidates_max }) ambiguous
    else (s.result, s)

unfoldable pub poll : VpadIdentify → ℕ → IdentifyResult × VpadIdentify
unfolding clock_went_back
poll s now =
    if s.active
    then if ltb now s.start_ms
      then clock_went_back s
      else if s.candidates == 0
      then if ltb (now - s.start_ms) s.identify_ms then (pending, s) else settle s unknown
      else if s.candidates == 1
      then if leb s.identify_ms (now - s.start_ms) || leb s.ambiguity_ms (now - s.first_ms)
        then settle s identified
        else (pending, s)
      else settle s ambiguous
    else (s.result, s)

unfoldable pub may_touch : IdentifyResult → Bool
may_touch identified = true
may_touch _ = false

unfoldable pub cancel : VpadIdentify → VpadIdentify
cancel s = record s { result = idle; active = false; candidates = 0; device_id = 0; first_ms = 0 }

unfoldable pub device_id_of : VpadIdentify → ℕ
unfolding may_touch
device_id_of s = if may_touch s.result then s.device_id else 0
