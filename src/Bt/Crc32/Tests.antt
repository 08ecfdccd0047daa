-- ===== src/Bt/Crc32/Tests.antt =====
-- The checksum at concrete inputs.
use ghostcontrol_ps5_usb_con.Base.{◌≡◌, arith, refl, [], ◌∷◌}
use ghostcontrol_ps5_usb_con.Bt.Crc32.Bitwise.{by_bits, update-by_bits}
use ghostcontrol_ps5_usb_con.Bt.Crc32.{rounds, g_table, update, crc32_calc}

-- The checksum of "123456789".
check_value : crc32_calc (49 ∷ 50 ∷ 51 ∷ 52 ∷ 53 ∷ 54 ∷ 55 ∷ 56 ∷ 57 ∷ []) ≡ 0xCBF43926
unfolding crc32_calc update g_table rounds
check_value = refl

update-by_bits_example :
    update 0xFFFFFFFF (0xA2 ∷ 0x31 ∷ []) ≡ by_bits 0xFFFFFFFF (0xA2 ∷ 0x31 ∷ [])
update-by_bits_example = update-by_bits 0xFFFFFFFF (0xA2 ∷ 0x31 ∷ []) (omega arith)
