-- ===== src/Sha256/Streaming.antt =====
-- An update takes its bytes one after the other, whatever the pieces.
use typxen.Base.{
  ℕ, zero, suc, ◌+◌, ◌-◌, ◌^◌, ◌≤◌, ◌<◌, ◌≡◌, refl, sym, ap, ◌∙◌, true, List, [], ◌∷◌, ◌++◌, arith,
  min, length, length-append, length-drop, length-take, set, take, drop,
}
use typxen.Sha256.Block.{PortableContext}
use typxen.Sha256.Provider.{copy_to, flush, update_loop, portable_update}

-- A byte to the block.
unfoldable pub feed : ℕ → PortableContext → PortableContext
feed b c = flush (record c { block = set c.block c.block_bytes b; block_bytes = suc c.block_bytes })

unfoldable pub feed_all : List ℕ → PortableContext → PortableContext
feed_all [] c = c
feed_all (b ∷ bytes) c = feed_all bytes (feed b c)

pub feed_all-append :
    (xs ys : List ℕ) (c : PortableContext) → feed_all (xs ++ ys) c ≡ feed_all ys (feed_all xs c)
unfolding feed_all
feed_all-append [] ys c = refl
feed_all-append (x ∷ xs) ys c = feed_all-append xs ys (feed x c)

feed_room : (b : ℕ) (c : PortableContext) → c.block_bytes < 64 → (feed b c).block_bytes < 64
unfolding feed
feed_room b c h = ground arith

pub feed_all_room :
    (xs : List ℕ) (c : PortableContext) → c.block_bytes < 64 → (feed_all xs c).block_bytes < 64
unfolding feed_all
feed_all_room [] c h = h
feed_all_room (x ∷ xs) c h = feed_all_room xs (feed x c) (feed_room x c h)

pub feed_small :
    (b : ℕ) (c : PortableContext)
    → suc c.block_bytes < 64
    → feed b c ≡ record c { block = set c.block c.block_bytes b; block_bytes = suc c.block_bytes }
unfolding feed
feed_small b c h = ground arith

-- A piece that fits the block.
pub feed_piece :
    (x : ℕ) (xs : List ℕ) (c : PortableContext)
    → c.block_bytes + length (x ∷ xs) ≤ 64
    → feed_all (x ∷ xs) c
      ≡ flush (record c {
        block = copy_to c.block c.block_bytes (x ∷ xs);
        block_bytes = c.block_bytes + length (x ∷ xs);
      })
unfolding feed_all copy_to feed
feed_piece x [] c h = let e : c.block_bytes + 1 ≡ suc c.block_bytes = omega arith in rw e refl
feed_piece x (y ∷ xs) c h =
    let e : c.block_bytes + length (x ∷ y ∷ xs) ≡ suc c.block_bytes + length (y ∷ xs) =
      omega arith in
    rw (feed_small x c (omega arith), e)
      (feed_piece y xs
        (record c { block = set c.block c.block_bytes x; block_bytes = suc c.block_bytes })
        (omega arith))

take-append-drop : (k : ℕ) (xs : List ℕ) → take k xs ++ drop k xs ≡ xs
take-append-drop zero xs = refl
take-append-drop (suc k) [] = refl
take-append-drop (suc k) (x ∷ xs) = ap (λ l. x ∷ l) (take-append-drop k xs)

-- A round of the loop.
update_round :
    (k fuel x : ℕ) (xs : List ℕ) (c : PortableContext)
    → k ≡ min (length (x ∷ xs)) (64 - c.block_bytes)
    → c.block_bytes < 64
    → update_loop (suc fuel) (x ∷ xs) c
      ≡ update_loop fuel (drop k (x ∷ xs)) (feed_all (take k (x ∷ xs)) c)
unfolding update_loop
update_round zero fuel x xs c e h = absurd (omega arith)
update_round (suc k) fuel x xs c e h =
    let size : length (x ∷ take k xs) ≡ suc k = omega (arith, length-take k xs) in
    let piece = feed_piece x (take k xs) c (omega arith) in rw (sym e, piece, size) refl

update_loop_lem :
    (fuel : ℕ) (xs : List ℕ) (c : PortableContext)
    → c.block_bytes < 64
    → length xs ≤ fuel
    → update_loop fuel xs c ≡ feed_all xs c
unfolding update_loop feed_all
update_loop_lem zero [] c h f = refl
update_loop_lem zero (x ∷ xs) c h f = absurd (omega arith)
update_loop_lem (suc fuel) [] c h f = refl
update_loop_lem (suc fuel) (x ∷ xs) c h f =
    let k = min (length (x ∷ xs)) (64 - c.block_bytes) in
    update_round k fuel x xs c refl h
    ∙ update_loop_lem fuel (drop k (x ∷ xs)) (feed_all (take k (x ∷ xs)) c)
        (feed_all_room (take k (x ∷ xs)) c h) (omega (arith, length-drop k (x ∷ xs)))
    ∙ sym (feed_all-append (take k (x ∷ xs)) (drop k (x ∷ xs)) c)
    ∙ ap (λ l. feed_all l c) (take-append-drop k (x ∷ xs))

-- A context between two calls: the block is not full, and its bytes and the total are counted.
abbrev pub HasRoom : PortableContext → List ℕ → Type 0
HasRoom c xs = (c.block_bytes < 64) × (c.total_bytes + length xs < 2 ^ 64)

-- The bytes of an update, counted and fed one after the other.
abbrev pub absorb : PortableContext → List ℕ → PortableContext
absorb c xs = feed_all xs (record c { total_bytes = c.total_bytes + length xs })

-- With room for the bytes, an update accepts them and feeds them to the block one after the other.
pub portable_update_lem :
    (xs : List ℕ) (c : PortableContext) → HasRoom c xs → portable_update xs c ≡ (true, absorb c xs)
unfolding portable_update
portable_update_lem xs c h =
    let loop =
      update_loop_lem (length xs) xs (record c { total_bytes = c.total_bytes + length xs }) h.0
        (omega arith) in
    ground (arith, loop, h.1)

feed-total :
    (b n : ℕ) (c : PortableContext)
    → record (feed b c) { total_bytes = n } ≡ feed b (record c { total_bytes = n })
unfolding feed
feed-total b n c = ground arith

feed_all-total :
    (xs : List ℕ) (n : ℕ) (c : PortableContext)
    → record (feed_all xs c) { total_bytes = n } ≡ feed_all xs (record c { total_bytes = n })
unfolding feed_all
feed_all-total [] n c = refl
feed_all-total (x ∷ xs) n c = feed_all-total xs n (feed x c) ∙ ap (feed_all xs) (feed-total x n c)

feed_keeps_total : (b : ℕ) (c : PortableContext) → (feed b c).total_bytes ≡ c.total_bytes
unfolding feed
feed_keeps_total b c = ground arith

pub feed_all_keeps_total :
    (xs : List ℕ) (c : PortableContext) → (feed_all xs c).total_bytes ≡ c.total_bytes
unfolding feed_all
feed_all_keeps_total [] c = refl
feed_all_keeps_total (x ∷ xs) c = feed_all_keeps_total xs (feed x c) ∙ feed_keeps_total x c

pub absorb-append :
    (xs ys : List ℕ) (c : PortableContext) → absorb c (xs ++ ys) ≡ absorb (absorb c xs) ys
absorb-append xs ys c =
    let n = c.total_bytes + length (xs ++ ys) in
    let c' = record c { total_bytes = c.total_bytes + length xs } in
    let total : (feed_all xs c').total_bytes + length ys ≡ n =
      omega (arith, feed_all_keeps_total xs c', length-append xs ys) in
    feed_all-append xs ys (record c { total_bytes = n })
    ∙ ap (feed_all ys) (sym (feed_all-total xs n c'))
    ∙ ap (λ m. feed_all ys (record (feed_all xs c') { total_bytes = m })) (sym total)

-- With room for both, two updates are accepted and come to one update with the bytes in a row.
pub portable_update-append :
    (xs ys : List ℕ) (c : PortableContext)
    → HasRoom c (xs ++ ys)
    → portable_update ys (portable_update xs c).1 ≡ portable_update (xs ++ ys) c
portable_update-append xs ys c h =
    let size = length-append xs ys in
    let c' = record c { total_bytes = c.total_bytes + length xs } in
    let first = portable_update_lem xs c (h.0, omega (arith, h.1)) in
    let room : HasRoom (absorb c xs) ys =
      (feed_all_room xs c' h.0, omega (arith, h.1, feed_all_keeps_total xs c')) in
    rw first (
      portable_update_lem ys (absorb c xs) room
      ∙ ap (λ x. (true, x)) (sym (absorb-append xs ys c))
      ∙ sym (portable_update_lem (xs ++ ys) c h))
