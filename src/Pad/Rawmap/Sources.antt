-- ===== src/Pad/Rawmap/Sources.antt =====
-- The bits of a raw report as the sources of buttons: core/src/gc_rawmap.c.
pub mod Read
use ghostcontrol_ps5_usb_con.Base.{
  ℕ, zero, suc, ◌+◌, ◌-◌, ◌*◌, ◌/◌, ◌%◌, ◌^◌, pos, Bool, true, false, not, ◌&&◌, ◌||◌, Option, none,
  some, List, [], ◌∷◌, length, get_or, ltb, leb, ◌==◌, if◌then◌else◌,
}
use Prim.Native.Nat.{bit_and, bit_or}
use ghostcontrol_ps5_usb_con.Controllers.PadData.{
  PadData, bit, at, pad_up, pad_down, pad_left, pad_right, pad_options, pad_share, pad_l3, pad_r3,
  pad_l1, pad_r1, pad_ps, pad_cross, pad_circle, pad_square, pad_triangle,
}
use ghostcontrol_ps5_usb_con.Hid.{HidSource, button_mask}
use ghostcontrol_ps5_usb_con.Hid.Bind.{HidButtonBinding, Profile}
use ghostcontrol_ps5_usb_con.Pad.Rawmap.{digital_range}

abbrev pub rawmap_page : ℕ
rawmap_page = 0

abbrev pub rawmap_report : ℕ
rawmap_report = 0xff

-- How often the mask is halved until one is left; 32 rounds do for 32 bits.
unfoldable pub index_of : ℕ → ℕ → ℕ
index_of zero mask = 0
index_of (suc fuel) mask = elim (ltb 1 mask) [ true ↦ suc (index_of fuel (mask / 2)) | false ↦ 0 ]

abbrev pub is_one_bit : ℕ → Bool
is_one_bit mask = not (mask == 0) && bit_and mask (mask - 1) == 0

abbrev pub bit_source : ℕ → ℕ → HidSource
bit_source byte shift = record {
  offset = (byte * 8 + shift) % 2 ^ 16;
  page = rawmap_page;
  usage = 0;
  bits = 1;
  report = rawmap_report;
  minimum = pos 0;
  maximum = pos 1;
}

-- The source of bit `index` of the digital bytes.
unfoldable pub source_at : List ℕ → ℕ → Option HidSource
source_at report index =
    let r = digital_range report in
    let byte = r.offset + index / 8 in
    if leb (length report) byte || leb (r.offset + r.count) byte
    then none
    else some (bit_source byte (index % 8))

unfoldable pub source_from_mask : List ℕ → ℕ → Option HidSource
source_from_mask report mask =
    if not (is_one_bit mask) then none else source_at report (index_of 32 mask)

unfoldable pub bit_on : List ℕ → HidSource → Bool
bit_on report s =
    if not (s.page == rawmap_page) || not (s.report == rawmap_report) || not (s.bits == 1)
    then false
    else if leb (length report) (s.offset / 8)
    then false
    else bit (at report (s.offset / 8)) (s.offset % 8)

abbrev byte_2 : List ℕ
byte_2 = pad_up ∷ pad_down ∷ pad_left ∷ pad_right ∷ pad_options ∷ pad_share ∷ pad_l3 ∷ pad_r3 ∷ []

abbrev byte_3 : List ℕ
byte_3 = pad_l1 ∷ pad_r1 ∷ pad_ps ∷ 0 ∷ pad_cross ∷ pad_circle ∷ pad_square ∷ pad_triangle ∷ []

-- The button that the decoder makes of a bit.
unfoldable pub xusb_decoder_bit : ℕ → ℕ → ℕ
xusb_decoder_bit byte shift =
    if ltb 7 shift
    then 0
    else if byte == 2
    then get_or byte_2 shift 0
    else if byte == 3
    then get_or byte_3 shift 0
    else 0

abbrev pub is_raw : HidButtonBinding → Bool
is_raw b = b.present && b.source.page == rawmap_page && b.source.report == rawmap_report

abbrev pub clear : ℕ → ℕ → ℕ
clear mask buttons = bit_and buttons (2 ^ 32 - 1 - mask)

-- The buttons that the bindings from `target` on replace, and the pad without what the decoder
-- made of their bits.
unfoldable pub release_sources : ℕ → ℕ → List HidButtonBinding → PadData → ℕ × PadData
release_sources replaced target [] pad = (replaced, pad)
release_sources replaced target (b ∷ bs) pad =
    let here = is_raw b in
    let decoded = xusb_decoder_bit (b.source.offset / 8) (b.source.offset % 8) in
    release_sources (if here then bit_or replaced (button_mask target) else replaced) (suc target)
      bs (if here then record pad { buttons = clear decoded pad.buttons } else pad)

unfoldable pub press_sources : List ℕ → ℕ → List HidButtonBinding → PadData → PadData
press_sources report target [] pad = pad
press_sources report target (b ∷ bs) pad =
    let next =
      if is_raw b && bit_on report b.source
      then record pad { buttons = bit_or pad.buttons (button_mask target) }
      else pad in
    press_sources report (suc target) bs next

unfoldable pub apply_released : List ℕ → List HidButtonBinding → ℕ × PadData → PadData
apply_released report bs (replaced, pad) =
    if replaced == 0
    then pad
    else press_sources report 0 bs (record pad { buttons = clear replaced pad.buttons })

unfoldable pub rawmap_apply : Profile → List ℕ → PadData → PadData
rawmap_apply profile report pad =
    apply_released report profile.hid_buttons (release_sources 0 0 profile.hid_buttons pad)
