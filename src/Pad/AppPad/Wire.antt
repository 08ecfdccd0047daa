-- ===== src/Pad/AppPad/Wire.antt =====
-- core/src/gc_app_pad.c, the wire: decimal fields, the reply that an app reads, the commands.
-- A text is the list of its bytes before the one that is 0.
use ghostcontrol_ps5_usb_con.Base.{
  ℕ, zero, suc, ◌+◌, ◌-◌, ◌*◌, ◌/◌, ◌^◌, Bool, true, false, ◌&&◌, ◌||◌, not, Option, none, some,
  List, [], ◌∷◌, get_or, ltb, leb, ◌==◌, ◌!=◌, if◌then◌else◌, u64,
}
use ghostcontrol_ps5_usb_con.Pad.AppPad.{lease_ms, ttl_ms, uint64_max, Reply, Pattern, duration}

abbrev pub wire_max : ℕ
wire_max = 512

abbrev pub uint32_max : ℕ
uint32_max = 0xffffffff

abbrev pub int_max : ℕ
int_max = 0x7fffffff

abbrev pub minus : ℕ
minus = 45

abbrev pub bar : ℕ
bar = 124

abbrev pub is_digit : ℕ → Bool
is_digit c = leb 48 c && leb c 57

abbrev pub peek : List ℕ → ℕ
peek s = get_or s 0 0

-- A place in a text: what stands from there on, and the position; then the number read so far.
pub record Scan : Type 0 where
  pub rest : List ℕ
  pub at : ℕ
  pub value : ℕ

abbrev pub scan : List ℕ → ℕ → ℕ → Scan
scan s i x = record { rest = s; at = i; value = x }

-- The loop over the digits of a field.
unfoldable pub digits : List ℕ → ℕ → ℕ → Option Scan
digits [] i x = some (scan [] i x)
digits (c ∷ cs) i x =
    let rest = digits cs (suc i) (x * 10 + (c - 48)) in
    if ltb i wire_max && is_digit c
    then if ltb ((uint64_max - (c - 48)) / 10) x then none else rest
    else some (scan (c ∷ cs) i x)

-- A field of a signed place is its int64 in two's complement.
unfoldable pub signed_value : Bool → Bool → ℕ → Option ℕ
signed_value signed neg x =
    if signed
    then if ltb (if neg then int_max + 1 else int_max) x
      then none
      else some (if neg then u64 (2 ^ 64 - x) else x)
    else some x

unfoldable pub number : List ℕ → ℕ → Option Scan
unfolding digits
number s i = if leb wire_max i || not (is_digit (peek s)) then none else digits s i 0

-- The end of a field: the bar before another field, or the end of the text.
unfoldable pub close : Bool → Scan → ℕ → Option Scan
close more t v =
    if more
    then elim (t.rest) [
      | [] ↦ none
      | ◌∷◌ c cs ↦ if c == bar then some (scan cs (suc t.at) v) else none
    ]
    else if peek t.rest == 0
    then some (scan t.rest t.at v)
    else none

unfoldable pub finish : Bool → Bool → Bool → Option Scan → Option Scan
unfolding signed_value close
finish signed neg more none = none
finish signed neg more (some t) =
    if leb wire_max t.at
    then none
    else elim (signed_value signed neg t.value) [ none ↦ none | some v ↦ close more t v ]

unfoldable pub field : Bool → Bool → List ℕ → ℕ → Option Scan
unfolding number finish
field signed more s i =
    if leb wire_max i
    then none
    else if peek s == minus && signed
    then elim s [ [] ↦ none | ◌∷◌ c cs ↦ finish signed true more (number cs (suc i)) ]
    else finish signed false more (number s i)

abbrev pub is_more : List Bool → Bool
is_more [] = false
is_more (f ∷ fs) = true

abbrev pub prepend : ℕ → Option (List ℕ) → Option (List ℕ)
prepend v none = none
prepend v (some vs) = some (v ∷ vs)

-- One Boolean for each field: whether it may have a sign.
unfoldable pub fields : List Bool → List ℕ → ℕ → Option (List ℕ)
unfolding field
fields [] s i = some []
fields (signed ∷ more) s i = elim (field signed (is_more more) s i) [
  | none ↦ none
  | some t ↦ prepend t.value (fields more t.rest t.at)
]

-- From `begin` on, `count` values fit in 32 bits.
unfoldable pub fits : List ℕ → ℕ → ℕ → Bool
fits v begin zero = true
fits v begin (suc count) = leb (get_or v begin 0) uint32_max && fits v (suc begin) count

abbrev pub unsigned_20 : List Bool
unsigned_20 =
    false ∷ false ∷ false ∷ false ∷ false ∷ false ∷ false ∷ false ∷ false ∷ false ∷ false ∷ false
    ∷ false ∷ false ∷ false ∷ false ∷ false ∷ false ∷ false ∷ false ∷ []

unfoldable pub reply_of : List ℕ → Reply
reply_of v = record {
  boot = get_or v 0 0;
  revision = get_or v 1 0;
  enabled = get_or v 2 0;
  effect = get_or v 3 0;
  period_ms = get_or v 4 0;
  step_ms = get_or v 5 0;
  r = get_or v 6 0;
  g = get_or v 7 0;
  b = get_or v 8 0;
  lease = get_or v 9 0;
  event_id = get_or v 10 0;
  event_state = get_or v 11 0;
  ttl_remaining_ms = get_or v 12 0;
  large = get_or v 13 0;
  small = get_or v 14 0;
  on_ms = get_or v 15 0;
  off_ms = get_or v 16 0;
  repeats = get_or v 17 0;
  stop = get_or v 18 0;
  generation = get_or v 19 0;
}

abbrev pub pattern_of : Reply → Pattern
pattern_of t = record {
  large = t.large;
  small = t.small;
  on_ms = t.on_ms;
  off_ms = t.off_ms;
  repeats = t.repeats;
}

-- What the app asks of a reply's light and lease, and of its event.
unfoldable pub head_allowed : Reply → Bool
head_allowed t =
    t.boot != 0
    && t.revision != 0
    && t.generation != 0
    && leb t.enabled 1
    && leb t.effect 4
    && leb 100 t.period_ms
    && leb t.period_ms 60000
    && leb 16 t.step_ms
    && leb t.step_ms 1000
    && leb t.r 255
    && leb t.g 255
    && leb t.b 255
    && t.lease == lease_ms

unfoldable pub event_allowed : Reply → Bool
event_allowed t =
    leb t.event_state 6
    && leb t.ttl_remaining_ms ttl_ms
    && leb t.stop 1
    && leb t.large 255
    && leb t.small 255
    && (t.event_id == 0
        || (t.on_ms != 0
            && leb t.on_ms 2000
            && leb t.off_ms 2000
            && t.repeats != 0
            && leb t.repeats 16
            && leb (duration (pattern_of t)) 10000))

abbrev pub reply_allowed : Reply → Bool
reply_allowed t = head_allowed t && event_allowed t

abbrev pub checked_reply : List ℕ → Option Reply
checked_reply v =
    if fits v 2 8 && fits v 11 8
    then if reply_allowed (reply_of v) then some (reply_of v) else none
    else none

-- `none` is the result -1.
unfoldable pub parse_reply : List ℕ → Option Reply
parse_reply s = elim (fields unsigned_20 s 0) [ none ↦ none | some v ↦ checked_reply v ]
