-- ===== src/Bt/LinkPolicy.antt =====
-- core/src/bt/linkpolicy.c: who may own a link, and how long a link may look idle.
pub mod Decision
pub mod Rhythm
use ghostcontrol_ps5_usb_con.Base.{
  ℕ, ◌+◌, ◌*◌, ◌/◌, ◌%◌, Bool, true, false, ◌||◌, ◌&&◌, not, Option, none, some, ltb, leb, ◌==◌,
  ◌!=◌, if◌then◌else◌, u32,
}
use ghostcontrol_ps5_usb_con.Base.{ℤ, pos, negsuc}

pub data LinkDecision : Type 0 where
  leave take : LinkDecision

pub data BlockKind : Type 0 where
  unblocked manual auto allowed : BlockKind

pub data LinkRole : Type 0 where
  nothing pad audio other : LinkRole

pub record LinkRequest : Type 0 where
  pub cod : ℕ  -- 24 bits
  pub saved_target : Bool
  pub auto_accept_audio : Bool
  pub block : BlockKind

abbrev pub cod_major : ℕ → ℕ
cod_major cod = cod / 256 % 32

abbrev pub cod_minor : ℕ → ℕ
cod_minor cod = cod / 4 % 64

unfoldable pub is_audio_sink : ℕ → Bool
is_audio_sink cod =
    if cod_major cod != 0x04
    then false
    else (let minor = cod_minor cod in
        minor == 0x01
        || (minor == 0x02
            || (minor == 0x05 || (minor == 0x06 || (minor == 0x07 || minor == 0x0A)))))

unfoldable pub link_role : ℕ → LinkRole
link_role cod =
    let minor = cod / 4 % 16 in
    if is_audio_sink cod
    then audio
    else if cod_major cod == 0x05 && (minor == 0x01 || minor == 0x02)
    then pad
    else if cod == 0
    then nothing
    else other

abbrev is_manual : BlockKind → Bool
is_manual manual = true
is_manual _ = false

abbrev is_auto : BlockKind → Bool
is_auto auto = true
is_auto _ = false

-- `none` is a null request.
unfoldable pub link_decide : Option LinkRequest → LinkDecision
link_decide none = leave
link_decide (some r) =
    if is_manual r.block
    then leave
    else if not (is_audio_sink r.cod)
    then leave
    else if r.saved_target
    then take
    else if is_auto r.block
    then leave
    else if r.auto_accept_audio
    then take
    else leave

-- The struct starts zeroed and stores only positive gaps and their averages, so the two int64
-- fields are numbers; a gap that is passed in may be negative.
pub record CreditGap : Type 0 where
  pub samples : ℕ  -- uint32
  pub avg_ms : ℕ
  pub longest_ms : ℕ

abbrev pub no_gap : CreditGap
no_gap = record { samples = 0; avg_ms = 0; longest_ms = 0 }

abbrev pub gap_max_ms : ℕ
gap_max_ms = 2000

abbrev pub idle_fallback_ms : ℕ
idle_fallback_ms = 200

abbrev pub idle_floor_ms : ℕ
idle_floor_ms = 30

abbrev pub idle_cap_ms : ℕ
idle_cap_ms = 500

-- A gap of 1 to 2000 ms is learned; any other is only counted.
learn : CreditGap → ℕ → CreditGap
learn g gap = record g {
  longest_ms = if ltb g.longest_ms gap then gap else g.longest_ms;
  avg_ms = if g.avg_ms == 0 then gap else (g.avg_ms * 7 + gap) / 8;
}

unfoldable pub credit_gap_add : CreditGap → ℤ → CreditGap
unfolding learn
credit_gap_add g (negsuc n) = record g { samples = u32 (g.samples + 1) }
credit_gap_add g (pos gap) =
    let counted = record g { samples = u32 (g.samples + 1) } in
    if leb gap 0 || ltb gap_max_ms gap then counted else learn counted gap

-- `none` is a null pointer. The floor cannot bind, since the average is not negative.
unfoldable pub credit_idle_limit : Option CreditGap → ℕ
credit_idle_limit none = idle_fallback_ms
credit_idle_limit (some g) =
    if g.avg_ms == 0
    then idle_fallback_ms
    else (let limit = g.avg_ms * 2 + idle_floor_ms in
        let floored = if ltb limit idle_floor_ms then idle_floor_ms else limit in
        if ltb idle_cap_ms floored then idle_cap_ms else floored)
