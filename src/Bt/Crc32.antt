-- ===== src/Bt/Crc32.antt =====
-- core/src/bt/crc32.c: the checksum of the reports that a pad gets over Bluetooth.
-- A report is the list of its bytes. The table is the function that fills it: the model leaves out
-- that it is filled at the first call.
mod Tests
pub mod Seal
pub mod Bitwise
use Prim.Native.Nat.{bit_and, bit_xor}
use ghostcontrol_ps5_usb_con.Base.{
  ℕ, zero, suc, ◌+◌, ◌-◌, ◌/◌, ◌%◌, List, [], ◌∷◌, ◌++◌, length, take, ◌==◌, if◌then◌else◌,
}

-- `n` rounds of the inner loop of the table.
unfoldable pub rounds : ℕ → ℕ → ℕ
rounds zero c = c
rounds (suc n) c = rounds n (if c % 2 == 1 then bit_xor 0xEDB88320 (c / 2) else c / 2)

unfoldable pub g_table : ℕ → ℕ
g_table i = rounds 8 i

unfoldable pub update : ℕ → List ℕ → ℕ
update crc [] = crc
update crc (p ∷ rest) = update (bit_xor (g_table (bit_and (bit_xor crc p) 0xFF)) (crc / 256)) rest

-- The complement of a number of 32 bits.
abbrev pub flipped : ℕ → ℕ
flipped crc = 0xFFFFFFFF - crc

unfoldable pub crc32_calc : List ℕ → ℕ
crc32_calc bytes = flipped (update 0xFFFFFFFF bytes)

abbrev pub put32 : ℕ → List ℕ
put32 v = v % 256 ∷ v / 256 % 256 ∷ v / 65536 % 256 ∷ v / 16777216 % 256 ∷ []

abbrev pub hdr : ℕ
hdr = 0xA2

-- For a report of four bytes or more; a shorter one makes the source read out of bounds.
unfoldable pub crc32_seal_output : List ℕ → List ℕ
crc32_seal_output report =
    let body = take (length report - 4) report in
    let crc = update 0xFFFFFFFF (hdr ∷ []) in body ++ put32 (flipped (update crc body))
