-- ===== src/Upload/Crc.antt =====
-- `crc32_update` and `typx_wifi_upload_crc32`.
use typxen.Base.{
  ℕ, zero, suc, ◌-◌, ◌/◌, ◌%◌, ◌^◌, ◌≡◌, refl, Option, none, some, List, [], ◌∷◌, ◌++◌, bit_and,
  bit_xor,
}

-- `(crc >> 1) ^ (0xedb88320u & (0u - (crc & 1u)))`.
abbrev crc_bit : ℕ → ℕ
crc_bit crc = bit_xor (crc / 2) (bit_and 0xedb88320 ((2 ^ 32 - bit_and crc 1) % 2 ^ 32))

-- The inner loop, with the bits that are left.
unfoldable pub crc_bits : ℕ → ℕ → ℕ
crc_bits zero crc = crc
crc_bits (suc bits) crc = crc_bits bits (crc_bit crc)

unfoldable pub crc32_update : ℕ → List ℕ → ℕ
unfolding crc_bits
crc32_update crc [] = crc
crc32_update crc (b ∷ bytes) = crc32_update (crc_bits 8 (bit_xor crc b)) bytes

-- `none` is a NULL pointer; with a length of 0 the code comes to 0 as well.
unfoldable pub crc32 : Option (List ℕ) → ℕ
unfolding crc32_update
crc32 none = 0
crc32 (some bytes) = bit_xor (crc32_update 0xffffffff bytes) 0xffffffff

-- A chunk that arrives in pieces has the CRC of the whole.
pub crc32_update-append :
    (crc : ℕ) (xs ys : List ℕ) → crc32_update crc (xs ++ ys) ≡ crc32_update (crc32_update crc xs) ys
unfolding crc32_update
crc32_update-append crc [] ys = refl
crc32_update-append crc (x ∷ xs) ys = crc32_update-append (crc_bits 8 (bit_xor crc x)) xs ys

-- The check value of CRC-32: the digits 1 to 9.
check_value :
    crc32 (some (0x31 ∷ 0x32 ∷ 0x33 ∷ 0x34 ∷ 0x35 ∷ 0x36 ∷ 0x37 ∷ 0x38 ∷ 0x39 ∷ [])) ≡ 0xcbf43926
unfolding crc32
check_value = refl
