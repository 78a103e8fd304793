-- ===== src/Wal/Crc.antt =====
-- `crc32` of moodeng-core/src/wal.rs, over `u32` values.
use Prim.Native.Nat.{bit_and, bit_xor}
use moodeng_sql.Prelude.{
  ℕ, zero, suc, ◌-◌, ◌/◌, ◌<◌, ◌^◌, ◌≡◌, refl, [], ◌∷◌, arith, ◌==◌, if◌then◌else◌,
}
use moodeng_sql.Prelude.Bytes.{Bytes}

-- The inner loop of the table: `k` more rounds.
table_rounds : ℕ → ℕ → ℕ
table_rounds zero c = c
table_rounds (suc k) c =
    table_rounds k (if bit_and c 1 == 0 then c / 2 else bit_xor 0xEDB8_8320 (c / 2))

-- `TABLE[i]`, computed when it is read.
crc_table : ℕ → ℕ
unfolding table_rounds
crc_table i = table_rounds 8 i

crc_bytes : ℕ → Bytes → ℕ
unfolding crc_table
crc_bytes crc [] = crc
crc_bytes crc (byte ∷ bytes) =
    crc_bytes (bit_xor (crc_table (bit_and (bit_xor crc byte) 0xFF)) (crc / 256)) bytes

-- `!crc` on 32 bits is the distance from the largest value.
unfoldable pub crc32 : Bytes → ℕ
unfolding crc_bytes
crc32 bytes = 0xFFFF_FFFF - crc_bytes 0xFFFF_FFFF bytes

pub crc32-lt : (bytes : Bytes) → crc32 bytes < 2 ^ 32
unfolding crc32
crc32-lt bytes = omega arith

-- The check value of CRC-32: the checksum of the text 123456789.
crc32_check :
    crc32 (b'1' ∷ b'2' ∷ b'3' ∷ b'4' ∷ b'5' ∷ b'6' ∷ b'7' ∷ b'8' ∷ b'9' ∷ []) ≡ 0xCBF4_3926
unfolding crc32
crc32_check = refl
