-- ===== src/Protocol/Bytes.antt =====
-- Byte buffers: little-endian words, comparison, and a checked read.
use typxen.Base.{
  ℕ, zero, suc, ◌+◌, ◌-◌, ◌*◌, ◌^◌, Bool, true, ◌&&◌, ◌||◌, Option, none, some, List, bit_or,
  if◌then◌else◌, ◌==◌, ltb, get_or, take, drop,
}
use typxen.Protocol.Types.{Reader}

-- `bytes[at]`; the buffers are longer than any index that the code uses.
abbrev pub byte : List ℕ → ℕ → ℕ
byte bytes at = get_or bytes at 0

-- `memcpy` of `n` bytes from `bytes + at`.
abbrev pub slice : List ℕ → ℕ → ℕ → List ℕ
slice bytes at n = take n (drop at bytes)

-- `read_u16_le(bytes + at)`, and so on.
unfoldable pub read_u16_le : List ℕ → ℕ → ℕ
read_u16_le bytes at = bit_or (byte bytes at) (byte bytes (at + 1) * 2 ^ 8)

unfoldable pub read_u32_le : List ℕ → ℕ → ℕ
read_u32_le bytes at =
    bit_or
      (bit_or (bit_or (byte bytes at) (byte bytes (at + 1) * 2 ^ 8)) (byte bytes (at + 2) * 2 ^ 16))
      (byte bytes (at + 3) * 2 ^ 24)

unfoldable pub read_u64_le : List ℕ → ℕ → ℕ
unfolding read_u32_le
read_u64_le bytes at = bit_or (read_u32_le bytes at) (read_u32_le bytes (at + 4) * 2 ^ 32)

unfoldable pub read_exact : Reader → ℕ → ℕ → Option (List ℕ)
read_exact reader offset n = elim reader.read_at [
  | none ↦ none
  | some read ↦
      if ltb reader.size_bytes offset || ltb (reader.size_bytes - offset) n
      then none
      else read offset n
]

-- `all_zero(bytes + at, n)`.
unfoldable pub all_zero : List ℕ → ℕ → ℕ → Bool
all_zero bytes at zero = true
all_zero bytes at (suc n) = byte bytes at == 0 && all_zero bytes (at + 1) n

-- `memcmp(xs, ys, n) == 0`.
unfoldable pub same_bytes : ℕ → List ℕ → List ℕ → Bool
same_bytes zero xs ys = true
same_bytes (suc n) xs ys = byte xs 0 == byte ys 0 && same_bytes n (drop 1 xs) (drop 1 ys)
