-- ===== src/Codec.antt =====
-- The parts of encoding/binary and hash/crc32 that raft and storage use: little-endian words and
-- the IEEE checksum. A byte is a number below 256.
use Prim.Native.Nat.{bit_xor}
use distkv.Prelude.{
  ℕ, zero, suc, ◌+◌, ◌*◌, ◌/◌, ◌%◌, ◌^◌, ◌<◌, ◌≡◌, refl, List, [], ◌∷◌, ◌++◌, arith, ◌==◌,
  if◌then◌else◌, length, drop, Option, none, some,
}

abbrev pub Bytes : Type 0
Bytes = List ℕ

unfoldable pub put_u32 : ℕ → Bytes
put_u32 x = (x % 256) ∷ (x / 2 ^ 8 % 256) ∷ (x / 2 ^ 16 % 256) ∷ (x / 2 ^ 24 % 256) ∷ []

-- `none` is the panic of a slice that is too short.
unfoldable pub get_u32 : Bytes → Option ℕ
get_u32 (a ∷ b ∷ c ∷ d ∷ r) = some (a + 2 ^ 8 * b + 2 ^ 16 * c + 2 ^ 24 * d)
get_u32 _ = none

unfoldable pub put_u64 : ℕ → Bytes
unfolding put_u32
put_u64 x = put_u32 (x % 2 ^ 32) ++ put_u32 (x / 2 ^ 32)

unfoldable pub get_u64 : Bytes → Option ℕ
unfolding get_u32
get_u64 (a ∷ b ∷ c ∷ d ∷ r) = elim (get_u32 r) [
  | none ↦ none
  | some high ↦ some (a + 2 ^ 8 * b + 2 ^ 16 * c + 2 ^ 24 * d + 2 ^ 32 * high)
]
get_u64 _ = none

pub get_u32-put_u32 : (x : ℕ) (r : Bytes) → x < 2 ^ 32 → get_u32 (put_u32 x ++ r) ≡ some x
unfolding put_u32 get_u32
get_u32-put_u32 x r h =
    let e : x % 256
          + 2 ^ 8 * (x / 2 ^ 8 % 256)
          + 2 ^ 16 * (x / 2 ^ 16 % 256)
          + 2 ^ 24 * (x / 2 ^ 24 % 256)
        ≡ x =
      omega arith in
    rw e

pub get_u64-put_u64 : (x : ℕ) (r : Bytes) → x < 2 ^ 64 → get_u64 (put_u64 x ++ r) ≡ some x
unfolding put_u64 get_u64 put_u32 get_u32
get_u64-put_u64 x r h = ground arith

pub length-put_u32 : (x : ℕ) → length (put_u32 x) ≡ 4
unfolding put_u32
length-put_u32 x = refl

pub length-put_u64 : (x : ℕ) → length (put_u64 x) ≡ 8
unfolding put_u64
length-put_u64 x = refl

pub drop-put_u32 : (x : ℕ) (r : Bytes) → drop 4 (put_u32 x ++ r) ≡ r
unfolding put_u32
drop-put_u32 x r = refl

pub drop-put_u64 : (x : ℕ) (r : Bytes) → drop 8 (put_u64 x ++ r) ≡ r
unfolding put_u64
drop-put_u64 x r = refl

-- crc32.ChecksumIEEE, bit by bit.
crc_bit : ℕ → ℕ
crc_bit c = if c % 2 == 0 then c / 2 else bit_xor (c / 2) 0xedb8_8320

crc_bits : ℕ → ℕ → ℕ
unfolding crc_bit
crc_bits zero c = c
crc_bits (suc n) c = crc_bits n (crc_bit c)

crc_bytes : ℕ → Bytes → ℕ
unfolding crc_bits
crc_bytes c [] = c
crc_bytes c (b ∷ bs) = crc_bytes (crc_bits 8 (bit_xor c b)) bs

unfoldable pub checksum : Bytes → ℕ
unfolding crc_bytes
checksum bs = bit_xor (crc_bytes 0xffff_ffff bs) 0xffff_ffff % 2 ^ 32

pub checksum-lt : (bs : Bytes) → checksum bs < 2 ^ 32
unfolding checksum
checksum-lt bs = omega arith

-- The check value of the IEEE polynomial.
checksum_digits :
    checksum (0x31 ∷ 0x32 ∷ 0x33 ∷ 0x34 ∷ 0x35 ∷ 0x36 ∷ 0x37 ∷ 0x38 ∷ 0x39 ∷ []) ≡ 0xcbf4_3926
unfolding checksum
checksum_digits = refl
