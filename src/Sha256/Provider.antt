-- ===== src/Sha256/Provider.antt =====
-- The callbacks: `portable_begin`, `portable_update` and `portable_finish`.
use typxen.Base.{
  ℕ, zero, suc, ◌+◌, ◌-◌, ◌*◌, ◌/◌, ◌%◌, ◌^◌, Bool, true, false, Option, none, some, List, [], ◌∷◌,
  ◌++◌, if◌then◌else◌, ◌==◌, ltb, min, length, set, take, drop, replicate,
}
use typxen.Protocol.Types.{Sha256Provider}
use typxen.Sha256.Block.{PortableContext, initial_state, write_u32_be, process_block}

unfoldable pub portable_begin : PortableContext → Bool × PortableContext
portable_begin context = (
  true,
  record { state = initial_state; total_bytes = 0; block = replicate 64 0; block_bytes = 0 },
)

-- `memcpy` into the block.
unfoldable pub copy_to : List ℕ → ℕ → List ℕ → List ℕ
copy_to block at [] = block
copy_to block at (b ∷ bytes) = copy_to (set block at b) (suc at) bytes

-- The test for a full block.
abbrev pub flush : PortableContext → PortableContext
flush context =
    if context.block_bytes == 64
    then record context { state = process_block context.state context.block; block_bytes = 0 }
    else context

-- The `while` loop, with the bytes that are left. While the block is not full a round takes a byte
-- at least, so their length is fuel enough.
unfoldable pub update_loop : ℕ → List ℕ → PortableContext → PortableContext
unfolding copy_to
update_loop zero bytes context = context
update_loop (suc fuel) [] context = context
update_loop (suc fuel) (b ∷ bytes) context =
    let copy = min (length (b ∷ bytes)) (64 - context.block_bytes) in
    update_loop fuel (drop copy (b ∷ bytes)) (
      flush (record context {
        block = copy_to context.block context.block_bytes (take copy (b ∷ bytes));
        block_bytes = context.block_bytes + copy;
      }))

unfoldable pub portable_update : List ℕ → PortableContext → Bool × PortableContext
unfolding update_loop
portable_update bytes context =
    if ltb (2 ^ 64 - 1 - context.total_bytes) (length bytes) then (false, context) else (
      true,
      update_loop (length bytes) bytes
          (record context { total_bytes = context.total_bytes + length bytes }),
    )

-- The 8 bytes of the bit length, the highest first.
abbrev pub length_bytes : ℕ → List ℕ
length_bytes n = write_u32_be (n / 2 ^ 32) ++ write_u32_be (n % 2 ^ 32)

abbrev pub digest_of : List ℕ → List ℕ
digest_of [] = []
digest_of (word ∷ state) = write_u32_be word ++ digest_of state

-- The block after `block[block_bytes++] = 0x80`, and its count.
abbrev pub pad_tail : PortableContext → PortableContext
pad_tail context =
    let n = context.block_bytes + 1 in
    let context' = record context {
      block = set context.block context.block_bytes 0x80;
      block_bytes = n;
    } in
    if ltb 56 n
    then record context' {
      block = copy_to context'.block n (replicate (64 - n) 0);
      state = process_block context.state (copy_to context'.block n (replicate (64 - n) 0));
      block_bytes = 0;
    }
    else context'

-- The last block.
abbrev pub last_block : PortableContext → ℕ → PortableContext
last_block context bit_length =
    let block =
      copy_to (copy_to context.block context.block_bytes (replicate (56 - context.block_bytes) 0))
        56 (length_bytes bit_length) in
    record context { block = block; state = process_block context.state block }

-- The digest is `none` where the code returns false.
unfoldable pub portable_finish : PortableContext → Option (List ℕ) × PortableContext
unfolding process_block write_u32_be copy_to
portable_finish context =
    let context' = last_block (pad_tail context) (context.total_bytes * 8) in
    if ltb ((2 ^ 64 - 1) / 8) context.total_bytes
    then (none, context)
    else (some (digest_of context'.state), context')

unfoldable pub portable_provider : Sha256Provider PortableContext
unfolding portable_begin portable_update portable_finish
portable_provider = record {
  begin = some portable_begin;
  update = some portable_update;
  finish = some portable_finish;
}
