-- ===== src/Sha256/Padding.antt =====
-- `portable_finish` feeds the padding.
use typxen.Base.{
  ℕ, zero, suc, ◌+◌, ◌-◌, ◌%◌, ◌≤◌, ◌<◌, ◌≡◌, refl, sym, ap, ◌∙◌, inl, inr, true, false, List, [],
  ◌∷◌, ◌++◌, arith, Bool-cases, ltb→lt, ltb, length, length-append, length-replicate, set,
  replicate,
}
use mathlib.Core.List.{append_assoc}
use typxen.Sha256.Block.{PortableContext, write_u32_be, process_block}
use typxen.Sha256.Provider.{copy_to, flush, length_bytes, pad_tail, last_block}
use typxen.Sha256.Streaming.{feed_all, feed_piece, feed_all-append}

copy_to-append :
    (xs ys block : List ℕ) (at : ℕ)
    → copy_to block at (xs ++ ys) ≡ copy_to (copy_to block at xs) (at + length xs) ys
unfolding copy_to
copy_to-append [] ys block at = let e : at + 0 ≡ at = omega arith in rw e refl
copy_to-append (x ∷ xs) ys block at =
    let e : suc at + length xs ≡ at + length (x ∷ xs) = omega arith in
    copy_to-append xs ys (set block at x) (suc at)
    ∙ ap (λ k. copy_to (copy_to (set block at x) (suc at) xs) k ys) e

length-length_bytes : (n : ℕ) → length (length_bytes n) ≡ 8
unfolding write_u32_be
length-length_bytes n = refl

flush-whole :
    (c : PortableContext)
    → c.block_bytes ≡ 64
    → flush c ≡ record c { state = process_block c.state c.block; block_bytes = 0 }
flush-whole c h = rw h refl

-- A row of bytes that fills the block.
fill :
    (c : PortableContext) (x : ℕ) (xs : List ℕ)
    → c.block_bytes + length (x ∷ xs) ≡ 64
    → feed_all (x ∷ xs) c ≡ record c {
      state = process_block c.state (copy_to c.block c.block_bytes (x ∷ xs));
      block = copy_to c.block c.block_bytes (x ∷ xs);
      block_bytes = 0;
    }
fill c x xs h = feed_piece x xs c (omega arith) ∙ flush-whole _ h

abbrev zeros : ℕ → List ℕ
zeros n = replicate n 0

length-zeros : (n : ℕ) → length (zeros n) ≡ n
length-zeros n = length-replicate n 0

zeros_add : (a b n : ℕ) → n ≡ a + b → zeros n ≡ zeros a ++ zeros b
zeros_add zero b n e = ap zeros (omega arith)
zeros_add (suc a) b zero e = absurd (omega arith)
zeros_add (suc a) b (suc n) e = ap (λ l. 0 ∷ l) (zeros_add a b n (omega arith))

-- The padding behind the bytes of a block.
abbrev pub pad_from : ℕ → ℕ → List ℕ
pad_from n bit_length = 0x80 ∷ (zeros ((119 - n) % 64) ++ length_bytes bit_length)

tail_short :
    (c : PortableContext)
    → c.block_bytes < 56
    → pad_tail c
      ≡ record c { block = set c.block c.block_bytes 0x80; block_bytes = c.block_bytes + 1 }
tail_short c h = let e : ltb 56 (c.block_bytes + 1) ≡ false = ground (arith, h) in rw e refl

tail_long :
    (c : PortableContext)
    → 56 ≤ c.block_bytes
    → let block =
        copy_to
          (set c.block c.block_bytes 0x80)
          (c.block_bytes + 1)
          (zeros (64 - (c.block_bytes + 1))) in
      pad_tail c ≡ record c { block = block; state = process_block c.state block; block_bytes = 0 }
tail_long c h = let e : ltb 56 (c.block_bytes + 1) ≡ true = ground (arith, h) in rw e refl

pad_short :
    (c : PortableContext) (bit_length : ℕ)
    → c.block_bytes < 56
    → (last_block (pad_tail c) bit_length).state
      ≡ (feed_all (pad_from c.block_bytes bit_length) c).state
unfolding copy_to
pad_short c bit_length h =
    let n = c.block_bytes in
    let k = 55 - n in
    let lb = length_bytes bit_length in
    let marked = set c.block n 0x80 in
    let size = length-append (zeros k) lb in
    let zeros_size = length-zeros k in
    let lb_size = length-length_bytes bit_length in
    let whole = fill c 0x80 (zeros k ++ lb) (omega arith) in
    let tail = ap (λ t. (last_block t bit_length).state) (tail_short c h) in
    let count : 56 - (n + 1) ≡ k = omega arith in
    let next : n + 1 ≡ suc n = omega arith in
    let end : suc n + length (zeros k) ≡ 56 = omega arith in
    let round : (119 - n) % 64 ≡ k = omega arith in
    tail
    ∙ ap (λ m. process_block c.state (copy_to (copy_to marked (n + 1) (zeros m)) 56 lb)) count
    ∙ ap (λ m. process_block c.state (copy_to (copy_to marked m (zeros k)) 56 lb)) next
    ∙ ap (λ m. process_block c.state (copy_to (copy_to marked (suc n) (zeros k)) m lb)) (sym end)
    ∙ ap (process_block c.state) (sym (copy_to-append (zeros k) lb marked (suc n)))
    ∙ ap (λ (c' : PortableContext). c'.state) (sym whole)
    ∙ ap (λ m. (feed_all (0x80 ∷ (zeros m ++ lb)) c).state) (sym round)

-- The block that the padding ends in, behind a block that it filled.
pad_empty :
    (c : PortableContext) (bit_length : ℕ)
    → c.block_bytes ≡ 0
    → (last_block c bit_length).state ≡ (feed_all (zeros 56 ++ length_bytes bit_length) c).state
unfolding copy_to
pad_empty c bit_length h =
    let lb = length_bytes bit_length in
    let size = length-append (zeros 55) lb in
    let zeros_size = length-zeros 55 in
    let lb_size = length-length_bytes bit_length in
    let whole = fill c 0 (zeros 55 ++ lb) (omega arith) in
    ap (λ m. process_block c.state (copy_to (copy_to c.block m (zeros (56 - m))) 56 lb)) h
    ∙ ap (process_block c.state) (sym (copy_to-append (zeros 56) lb c.block 0))
    ∙ ap (λ m. process_block c.state (copy_to c.block m (zeros 56 ++ lb))) (sym h)
    ∙ ap (λ (c' : PortableContext). c'.state) (sym whole)

pad_long :
    (c : PortableContext) (bit_length : ℕ)
    → 56 ≤ c.block_bytes
    → c.block_bytes < 64
    → (last_block (pad_tail c) bit_length).state
      ≡ (feed_all (pad_from c.block_bytes bit_length) c).state
unfolding copy_to
pad_long c bit_length h l =
    let n = c.block_bytes in
    let k = 63 - n in
    let lb = length_bytes bit_length in
    let zeros_size = length-zeros k in
    let filled = fill c 0x80 (zeros k) (omega arith) in
    let c1 = feed_all (0x80 ∷ zeros k) c in
    let count : 64 - (n + 1) ≡ k = omega arith in
    let next : n + 1 ≡ suc n = omega arith in
    let at_end : List ℕ → PortableContext =
      λ block. record c { block = block; state = process_block c.state block; block_bytes = 0 } in
    let tail : pad_tail c ≡ c1 =
      tail_long c h
      ∙ ap (λ m. at_end (copy_to (set c.block n 0x80) (n + 1) (zeros m))) count
      ∙ ap (λ m. at_end (copy_to (set c.block n 0x80) m (zeros k))) next
      ∙ sym filled in
    let round : (119 - n) % 64 ≡ k + 56 = omega arith in
    ap (λ t. (last_block t bit_length).state) tail
    ∙ pad_empty c1 bit_length (ap (λ (c' : PortableContext). c'.block_bytes) filled)
    ∙ ap (λ (c' : PortableContext). c'.state)
        (sym (feed_all-append (0x80 ∷ zeros k) (zeros 56 ++ lb) c))
    ∙ ap (λ l. (feed_all (0x80 ∷ l) c).state)
        (sym (append_assoc (zeros k) (zeros 56) lb)
          ∙ ap (λ l. l ++ lb) (sym (zeros_add k 56 _ round)))

-- With less than a block pending, the last block of `portable_finish` is that of the padding.
pub finish_state :
    (c : PortableContext) (bit_length : ℕ)
    → c.block_bytes < 64
    → (last_block (pad_tail c) bit_length).state
      ≡ (feed_all (pad_from c.block_bytes bit_length) c).state
finish_state c bit_length h = elim (Bool-cases (ltb c.block_bytes 56)) [
  | inl short ↦ pad_short c bit_length (ltb→lt c.block_bytes 56 short)
  | inr long ↦ pad_long c bit_length (ground (arith, long)) h
]
