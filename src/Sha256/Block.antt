-- ===== src/Sha256/Block.antt =====
-- The compression of a block: `process_block` and its helpers.
use typxen.Base.{
  ℕ, zero, suc, ◌+◌, ◌-◌, ◌*◌, ◌/◌, ◌%◌, ◌^◌, List, [], ◌∷◌, ◌++◌, get_or, drop, bit_and, bit_or,
  bit_xor,
}

-- `typx_sha256_portable_context_t`.
pub record PortableContext : Type 0 where
  pub state : List ℕ
  pub total_bytes : ℕ
  pub block : List ℕ
  pub block_bytes : ℕ

abbrev pub initial_state : List ℕ
initial_state =
    0x6a09e667 ∷ 0xbb67ae85 ∷ 0x3c6ef372 ∷ 0xa54ff53a ∷ 0x510e527f ∷ 0x9b05688c ∷ 0x1f83d9ab
    ∷ 0x5be0cd19 ∷ []

abbrev pub round_constants : List ℕ
round_constants =
    0x428a2f98 ∷ 0x71374491 ∷ 0xb5c0fbcf ∷ 0xe9b5dba5 ∷ 0x3956c25b ∷ 0x59f111f1 ∷ 0x923f82a4
    ∷ 0xab1c5ed5 ∷ 0xd807aa98 ∷ 0x12835b01 ∷ 0x243185be ∷ 0x550c7dc3 ∷ 0x72be5d74 ∷ 0x80deb1fe
    ∷ 0x9bdc06a7 ∷ 0xc19bf174 ∷ 0xe49b69c1 ∷ 0xefbe4786 ∷ 0x0fc19dc6 ∷ 0x240ca1cc ∷ 0x2de92c6f
    ∷ 0x4a7484aa ∷ 0x5cb0a9dc ∷ 0x76f988da ∷ 0x983e5152 ∷ 0xa831c66d ∷ 0xb00327c8 ∷ 0xbf597fc7
    ∷ 0xc6e00bf3 ∷ 0xd5a79147 ∷ 0x06ca6351 ∷ 0x14292967 ∷ 0x27b70a85 ∷ 0x2e1b2138 ∷ 0x4d2c6dfc
    ∷ 0x53380d13 ∷ 0x650a7354 ∷ 0x766a0abb ∷ 0x81c2c92e ∷ 0x92722c85 ∷ 0xa2bfe8a1 ∷ 0xa81a664b
    ∷ 0xc24b8b70 ∷ 0xc76c51a3 ∷ 0xd192e819 ∷ 0xd6990624 ∷ 0xf40e3585 ∷ 0x106aa070 ∷ 0x19a4c116
    ∷ 0x1e376c08 ∷ 0x2748774c ∷ 0x34b0bcb5 ∷ 0x391c0cb3 ∷ 0x4ed8aa4a ∷ 0x5b9cca4f ∷ 0x682e6ff3
    ∷ 0x748f82ee ∷ 0x78a5636f ∷ 0x84c87814 ∷ 0x8cc70208 ∷ 0x90befffa ∷ 0xa4506ceb ∷ 0xbef9a3f7
    ∷ 0xc67178f2 ∷ []

unfoldable pub rotate_right : ℕ → ℕ → ℕ
rotate_right value shift = bit_or (value / 2 ^ shift) (value * 2 ^ (32 - shift) % 2 ^ 32)

unfoldable pub read_u32_be : List ℕ → ℕ
read_u32_be bytes =
    bit_or
      (bit_or (bit_or (get_or bytes 0 0 * 2 ^ 24) (get_or bytes 1 0 * 2 ^ 16))
        (get_or bytes 2 0 * 2 ^ 8))
      (get_or bytes 3 0)

unfoldable pub write_u32_be : ℕ → List ℕ
write_u32_be value =
    value / 2 ^ 24 % 2 ^ 8 ∷ value / 2 ^ 16 % 2 ^ 8 ∷ value / 2 ^ 8 % 2 ^ 8 ∷ value % 2 ^ 8 ∷ []

abbrev xor3 : ℕ → ℕ → ℕ → ℕ
xor3 x y z = bit_xor (bit_xor x y) z

-- The first loop, with the words that are left.
unfoldable pub load_words : ℕ → List ℕ → List ℕ
unfolding read_u32_be
load_words zero block = []
load_words (suc n) block = read_u32_be block ∷ load_words n (drop 4 block)

-- The second loop, with the words that are left; the words so far are in order.
unfoldable pub extend_words : ℕ → ℕ → List ℕ → List ℕ
unfolding rotate_right
extend_words zero index words = words
extend_words (suc n) index words =
    let first = get_or words (index - 15) 0 in
    let second = get_or words (index - 2) 0 in
    let sigma0 = xor3 (rotate_right first 7) (rotate_right first 18) (first / 2 ^ 3) in
    let sigma1 = xor3 (rotate_right second 17) (rotate_right second 19) (second / 2 ^ 10) in
    extend_words n (index + 1) (
      words
      ++ ((get_or words (index - 16) 0 + sigma0 + get_or words (index - 7) 0 + sigma1) % 2 ^ 32
          ∷ []))

pub record Registers : Type 0 where
  pub ra : ℕ
  pub rb : ℕ
  pub rc : ℕ
  pub rd : ℕ
  pub re : ℕ
  pub rf : ℕ
  pub rg : ℕ
  pub rh : ℕ

-- The body of the last loop.
unfoldable pub round : ℕ → ℕ → Registers → Registers
unfolding rotate_right
round constant word r =
    let sum1 = xor3 (rotate_right r.re 6) (rotate_right r.re 11) (rotate_right r.re 25) in
    let choose = bit_xor (bit_and r.re r.rf) (bit_and (2 ^ 32 - 1 - r.re) r.rg) in
    let temporary1 = (r.rh + sum1 + choose + constant + word) % 2 ^ 32 in
    let sum0 = xor3 (rotate_right r.ra 2) (rotate_right r.ra 13) (rotate_right r.ra 22) in
    let majority = xor3 (bit_and r.ra r.rb) (bit_and r.ra r.rc) (bit_and r.rb r.rc) in
    let temporary2 = (sum0 + majority) % 2 ^ 32 in
    record {
      ra = (temporary1 + temporary2) % 2 ^ 32;
      rb = r.ra;
      rc = r.rb;
      rd = r.rc;
      re = (r.rd + temporary1) % 2 ^ 32;
      rf = r.re;
      rg = r.rf;
      rh = r.rg;
    }

-- The last loop, over the constants and the words.
unfoldable pub rounds : List ℕ → List ℕ → Registers → Registers
unfolding round
rounds [] words r = r
rounds (constant ∷ constants) [] r = r
rounds (constant ∷ constants) (word ∷ words) r = rounds constants words (round constant word r)

abbrev registers : List ℕ → Registers
registers state = record {
  ra = get_or state 0 0;
  rb = get_or state 1 0;
  rc = get_or state 2 0;
  rd = get_or state 3 0;
  re = get_or state 4 0;
  rf = get_or state 5 0;
  rg = get_or state 6 0;
  rh = get_or state 7 0;
}

-- The additions to the state.
abbrev add_registers : List ℕ → Registers → List ℕ
add_registers state r =
    (get_or state 0 0 + r.ra) % 2 ^ 32
    ∷ (get_or state 1 0 + r.rb) % 2 ^ 32
    ∷ (get_or state 2 0 + r.rc) % 2 ^ 32
    ∷ (get_or state 3 0 + r.rd) % 2 ^ 32
    ∷ (get_or state 4 0 + r.re) % 2 ^ 32
    ∷ (get_or state 5 0 + r.rf) % 2 ^ 32
    ∷ (get_or state 6 0 + r.rg) % 2 ^ 32
    ∷ (get_or state 7 0 + r.rh) % 2 ^ 32
    ∷ []

-- The new state; the rest of the context is not changed.
unfoldable pub process_block : List ℕ → List ℕ → List ℕ
unfolding load_words extend_words rounds
process_block state block =
    let words = extend_words 48 16 (load_words 16 block) in
    add_registers state (rounds round_constants words (registers state))
