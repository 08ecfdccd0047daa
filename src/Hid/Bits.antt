-- ===== src/Hid/Bits.antt =====
-- The bits of a report and their reading as a number: core/src/gc_hid.c.
use ghostcontrol_ps5_usb_con.Base.{
  ℕ, zero, suc, ◌+◌, ◌-◌, ◌*◌, ◌/◌, ◌%◌, ◌^◌, ℤ, pos, negsuc, Bool, ◌&&◌, ◌||◌, List, [], ◌∷◌,
  get_or, ltb, leb, ◌==◌, ltb_ℤ, above, if◌then◌else◌,
}
use ghostcontrol_ps5_usb_con.Controllers.PadData.{
  bit, at, when, pad_up, pad_right, pad_down, pad_left,
}
use ghostcontrol_ps5_usb_con.Hid.Layout.{HidField}

-- The number that 32 bits stand for as an int32_t.
abbrev pub to_i32 : ℕ → ℤ
to_i32 v = if ltb v (2 ^ 31) then pos v else negsuc (2 ^ 32 - 1 - v)

abbrev pub is_negative : ℤ → Bool
is_negative z = ltb_ℤ z (pos 0)

-- The first `n` bits from bit `offset` of the report on; the bits are different ones, so a sum is their `|`.
unfoldable pub raw_bits : List ℕ → ℕ → ℕ → ℕ
raw_bits report offset zero = 0
raw_bits report offset (suc n) =
    when (bit (at report (offset / 8)) (offset % 8)) 1 + 2 * raw_bits report (suc offset) n

-- `bits` bits with the sign bit copied upwards; the bits above are not set before.
unfoldable pub sign_extend : ℕ → ℕ → ℕ
sign_extend bits raw = if ltb bits 32 && bit raw (bits - 1) then raw + (2 ^ 32 - 2 ^ bits) else raw

unfoldable pub decode : ℤ → ℕ → ℕ → ℤ
decode minimum bits raw = if is_negative minimum then to_i32 (sign_extend bits raw) else pos raw

abbrev pub fits : HidField → ℕ → Bool
fits f size = leb (f.offset + f.bits) (size * 8)

abbrev pub field_decoded : HidField → List ℕ → ℤ
field_decoded f report = decode f.minimum f.bits (raw_bits report f.offset f.bits)

abbrev pub outside : HidField → ℤ → Bool
outside f value = ltb_ℤ value f.minimum || ltb_ℤ f.maximum value

abbrev hats_8 : List ℕ
hats_8 =
    pad_up
    ∷ (pad_up + pad_right)
    ∷ pad_right
    ∷ (pad_right + pad_down)
    ∷ pad_down
    ∷ (pad_down + pad_left)
    ∷ pad_left
    ∷ (pad_left + pad_up)
    ∷ []

abbrev hats_4 : List ℕ
hats_4 = pad_up ∷ pad_right ∷ pad_down ∷ pad_left ∷ []

unfoldable pub hat_mask : ℤ → ℤ → ℤ → ℕ
hat_mask minimum maximum value =
    if ltb_ℤ value minimum || ltb_ℤ maximum value
    then 0
    else if above maximum minimum + 1 == 4
    then get_or hats_4 (above value minimum) 0
    else if above maximum minimum + 1 == 8
    then get_or hats_8 (above value minimum) 0
    else 0
