-- ===== src/S2e/Crc.antt =====
-- services/simulation-server/src/s2e.rs: the checksum of a capsule, `padded_crc32`.
pub mod Detects
use scrap_monitoring_simulat.Prelude.{
  ℕ, zero, suc, ◌+◌, ◌-◌, ◌/◌, ◌%◌, ◌^◌, bit_and, bit_xor, List, foldl, ◌++◌, length, replicate,
  u32_max,
}

abbrev pub polynomial : ℕ
polynomial = 0xedb8_8320

-- `(crc >> 1) ^ (polynomial & 0.wrapping_sub(crc & 1))`.
unfoldable pub crc_round : ℕ → ℕ
crc_round crc = bit_xor (crc / 2) (bit_and polynomial ((2 ^ 32 - bit_and crc 1) % 2 ^ 32))

-- The rounds that are left of the eight.
unfoldable pub crc_rounds : ℕ → ℕ → ℕ
unfolding crc_round
crc_rounds zero crc = crc
crc_rounds (suc n) crc = crc_rounds n (crc_round crc)

unfoldable pub crc_byte : ℕ → ℕ → ℕ
unfolding crc_rounds
crc_byte crc byte = crc_rounds 8 (bit_xor crc byte)

-- A length that is a multiple of four gets four bytes of padding; `!crc` flips all bits.
unfoldable pub padded_crc32 : List ℕ → ℕ
unfolding crc_byte
padded_crc32 bytes =
    let padding = 4 - bit_and (length bytes) 3 in
    bit_xor (foldl crc_byte u32_max (bytes ++ replicate padding 0)) u32_max
