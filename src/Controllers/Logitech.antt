-- ===== src/Controllers/Logitech.antt =====
-- The Logitech RumblePad 2: core/src/controller_logitech.c.
pub mod Sqrt
pub mod Circle
use ghostcontrol_ps5_usb_con.Base.{
  ℕ, zero, suc, ◌+◌, ◌-◌, ◌*◌, ◌/◌, ◌%◌, ◌^◌, ℤ, pos, negsuc, ◌-ℤ◌, ◌*ℤ◌, neg, u32, Bool, true,
  false, Option, none, some, List, [], ◌∷◌, length, get_or, ltb, leb, if◌then◌else◌,
}
use ghostcontrol_ps5_usb_con.Controllers.PadData.{
  PadData, at, bit, when, pad_up, pad_right, pad_down, pad_left, pad_square, pad_cross, pad_circle,
  pad_triangle, pad_l1, pad_r1, pad_l2, pad_r2, pad_share, pad_options, pad_l3, pad_r3,
}

-- Newton's iteration from `x` and the next value `y`; `none` when it is still running after `fuel`
-- rounds.
unfoldable pub newton : ℕ → ℕ → ℕ → ℕ → Option ℕ
newton zero n x y = none
newton (suc fuel) n x y = elim (ltb y x) [
  | true ↦ newton fuel n y (u32 (y + n / y) / 2)
  | false ↦ some x
]

-- The function, stopped after `fuel` rounds.
unfoldable pub isqrt_within : ℕ → ℕ → Option ℕ
unfolding newton
isqrt_within fuel n = if ltb n 2 then some n else newton fuel n n (u32 (n + 1) / 2)

abbrev pub returned : Option ℕ → ℕ
returned none = 0
returned (some x) = x

-- The first value is `n`, and a round makes it smaller.
unfoldable pub isqrt32 : ℕ → ℕ
unfolding isqrt_within
isqrt32 n = returned (isqrt_within n n)

-- A byte around its middle.
abbrev pub centered : ℕ → ℤ
centered v = pos v -ℤ pos 128

abbrev pub magnitude : ℤ → ℕ
magnitude (pos n) = n
magnitude (negsuc n) = suc n

-- The division rounds towards 0.
abbrev pub divide : ℤ → ℕ → ℤ
divide (pos a) n = pos (a / n)
divide (negsuc a) n = neg (suc a / n)

abbrev pub norm : ℕ
norm = 181

-- The root of the radicand that the other coordinate leaves.
unfoldable pub root : ℕ → ℕ
root other = isqrt32 (2 * 128 * 128 - magnitude (centered other) * magnitude (centered other))

-- Back to a byte, with the limits at both ends.
abbrev pub to_byte : ℤ → ℕ
to_byte (pos a) = if ltb 255 (128 + a) then 255 else 128 + a
to_byte (negsuc a) = if ltb 128 (suc a) then 0 else 128 - suc a

-- One coordinate, given the other.
unfoldable pub circular : ℕ → ℕ → ℕ
circular v other = to_byte (divide (centered v *ℤ pos (root other)) norm)

unfoldable pub circularize : ℕ → ℕ → ℕ × ℕ
circularize x y = (circular x y, circular y x)

abbrev pub hat_dpad : List ℕ
hat_dpad =
    pad_up
    ∷ (pad_up + pad_right)
    ∷ pad_right
    ∷ (pad_down + pad_right)
    ∷ pad_down
    ∷ (pad_down + pad_left)
    ∷ pad_left
    ∷ (pad_up + pad_left)
    ∷ 0
    ∷ []

-- The low half of byte 4.
abbrev pub hat_buttons : ℕ → ℕ
hat_buttons b = if leb (b % 16) 8 then get_or hat_dpad (b % 16) 0 else 0

abbrev pub face_buttons : ℕ → ℕ
face_buttons b =
    when (bit b 4) pad_square
    + when (bit b 5) pad_cross
    + when (bit b 6) pad_circle
    + when (bit b 7) pad_triangle

abbrev pub other_buttons : ℕ → ℕ
other_buttons b =
    when (bit b 0) pad_l1
    + when (bit b 1) pad_r1
    + when (bit b 2) pad_l2
    + when (bit b 3) pad_r2
    + when (bit b 4) pad_share
    + when (bit b 5) pad_options
    + when (bit b 6) pad_l3
    + when (bit b 7) pad_r3

-- A trigger that is not pressed keeps the value it had.
unfoldable pub parse_input : List ℕ → PadData → PadData
parse_input b o =
    let left = circularize (at b 0) (at b 1) in
    let right = circularize (at b 2) (at b 3) in
    record o {
      buttons = hat_buttons (at b 4) + face_buttons (at b 4) + other_buttons (at b 5);
      left_x = left.0;
      left_y = left.1;
      right_x = right.0;
      right_y = right.1;
      l2 = if bit (at b 5) 2 then 255 else o.l2;
      r2 = if bit (at b 5) 3 then 255 else o.r2;
      connected = 1;
    }

unfoldable pub handle_packet : List ℕ → PadData → Bool × PadData
handle_packet b pad = if leb 6 (length b) then (true, parse_input b pad) else (false, pad)
