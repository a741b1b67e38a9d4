-- ===== src/Embedded/Sample.antt =====
-- The sample schedule with the SHA-256 of its records, and a library that knows this one digest.
use mathlib.Core.List.{append_assoc}
use typxen.Base.{
  sym, Bool, ◌&&◌, replicate, ◌==◌, true, false, arith, length-append, suc, ◌+◌, refl, ℕ, ◌≡◌, List,
  [], ◌∷◌, take, drop, ap, ◌∙◌, length, ◌++◌,
}
use typxen.Protocol.Sample.{image}
use typxen.Sha256.Block.{
  rotate_right, read_u32_be, write_u32_be, load_words, extend_words, round, rounds, process_block,
  initial_state,
}
use typxen.Embedded.{Mbedtls, IsMbedtls}
use typxen.Protocol.Decoding.{IsBytes}
use typxen.Sha256.Provider.{digest_of}
use typxen.Sha256.Digest.{by_blocks, sha256, padding}

abbrev records : List ℕ
records = drop 96 image

-- The bytes of the blocks after their first.
abbrev rest_1 : List ℕ
rest_1 = take 63 (drop 1 records)

abbrev rest_2 : List ℕ
rest_2 = drop 65 records

abbrev rest_3 : List ℕ
rest_3 = replicate 61 0 ++ (4 ∷ 0 ∷ [])

in_blocks : records ++ padding 128 ≡ (0 ∷ rest_1) ++ ((0 ∷ rest_2) ++ ((0x80 ∷ rest_3) ++ []))
unfolding write_u32_be
in_blocks = refl

first_block : process_block initial_state (0 ∷ rest_1) ≡ (
    977740858 ∷ 952987925 ∷ 1184622594 ∷ 3418214855 ∷ 1836399555 ∷ 1120803670 ∷ 303755130
    ∷ 4120587562 ∷ [])
unfolding process_block rounds round extend_words load_words rotate_right read_u32_be
first_block = refl

second_block :
    process_block
      (977740858 ∷ 952987925 ∷ 1184622594 ∷ 3418214855 ∷ 1836399555 ∷ 1120803670 ∷ 303755130
        ∷ 4120587562 ∷ [])
      (0 ∷ rest_2)
    ≡ (3005673936 ∷ 2371858054 ∷ 1123733626 ∷ 4221556606 ∷ 3303595587 ∷ 1236082484 ∷ 2400266413
        ∷ 612914673 ∷ [])
unfolding process_block rounds round extend_words load_words rotate_right read_u32_be
second_block = refl

third_block :
    process_block
      (3005673936 ∷ 2371858054 ∷ 1123733626 ∷ 4221556606 ∷ 3303595587 ∷ 1236082484 ∷ 2400266413
        ∷ 612914673 ∷ [])
      (0x80 ∷ rest_3)
    ≡ (3707608856 ∷ 2945557455 ∷ 1436118378 ∷ 633695392 ∷ 2453031362 ∷ 384840710 ∷ 1003875443
        ∷ 3920671900 ∷ [])
unfolding process_block rounds round extend_words load_words rotate_right read_u32_be
third_block = refl

by_blocks_block :
    (x : ℕ) (xs state pending rest : List ℕ)
    → length pending + suc (length xs) ≡ 64
    → by_blocks state pending ((x ∷ xs) ++ rest)
      ≡ by_blocks (process_block state (pending ++ (x ∷ xs))) [] rest
by_blocks_block x [] state pending rest h =
    let full : (suc (length pending) == 64) ≡ true = ground (arith, h) in rw full refl
by_blocks_block x (y ∷ ys) state pending rest h =
    let more : (suc (length pending) == 64) ≡ false = ground (arith, h) in
    let size = length-append pending (x ∷ []) in
    rw more (
      by_blocks_block y ys state (pending ++ (x ∷ [])) rest (omega arith)
      ∙ ap (λ (p : List ℕ). by_blocks (process_block state p) [] rest)
          (append_assoc pending (x ∷ []) (y ∷ ys)))

by_three_blocks :
    (x y z : ℕ) (xs ys zs state : List ℕ)
    → length xs ≡ 63
    → length ys ≡ 63
    → length zs ≡ 63
    → (by_blocks state [] ((x ∷ xs) ++ ((y ∷ ys) ++ ((z ∷ zs) ++ [])))).0
      ≡ process_block (process_block (process_block state (x ∷ xs)) (y ∷ ys)) (z ∷ zs)
by_three_blocks x y z xs ys zs state h i j =
    ap (λ (p : List ℕ × List ℕ). p.0)
      (by_blocks_block x xs state [] _ (omega arith)
        ∙ by_blocks_block y ys _ [] _ (omega arith)
        ∙ by_blocks_block z zs _ [] [] (omega arith))

-- The digest of the records.
abbrev pub digest : List ℕ
digest =
    220 ∷ 253 ∷ 159 ∷ 24 ∷ 175 ∷ 145 ∷ 163 ∷ 207 ∷ 85 ∷ 153 ∷ 109 ∷ 106 ∷ 37 ∷ 197 ∷ 108 ∷ 160 ∷ 146
    ∷ 54 ∷ 73 ∷ 194 ∷ 22 ∷ 240 ∷ 52 ∷ 6 ∷ 59 ∷ 213 ∷ 236 ∷ 115 ∷ 233 ∷ 176 ∷ 180 ∷ 156 ∷ []

records_digest : sha256 records ≡ digest
unfolding write_u32_be
records_digest =
    ap (λ (m : List ℕ). digest_of (by_blocks initial_state [] m).0) in_blocks
    ∙ ap digest_of (
        by_three_blocks 0 0 0x80 rest_1 rest_2 rest_3 initial_state refl refl refl
        ∙ ap (λ (s : List ℕ). process_block (process_block s (0 ∷ rest_2)) (0x80 ∷ rest_3))
            first_block
        ∙ ap (λ (s : List ℕ). process_block s (0x80 ∷ rest_3)) second_block
        ∙ third_block)

-- The sample schedule, with the SHA-256 of its records in the header.
abbrev pub signed : List ℕ
signed = take 56 image ++ (digest ++ drop 88 image)

pub signed-IsBytes : IsBytes signed
signed-IsBytes = omega arith

same_list : List ℕ → List ℕ → Bool
same_list [] [] = true
same_list [] (y ∷ ys) = false
same_list (x ∷ xs) [] = false
same_list (x ∷ xs) (y ∷ ys) = x == y && same_list xs ys

same_list_sound : (xs ys : List ℕ) → same_list xs ys ≡ true → xs ≡ ys
unfolding same_list
same_list_sound [] [] h = refl
same_list_sound [] (y ∷ ys) h = absurd cc
same_list_sound (x ∷ xs) [] h = absurd cc
same_list_sound (x ∷ xs) (y ∷ ys) h =
    let head : x ≡ y = ground (arith, h) in
    let tail : same_list xs ys ≡ true = ground (arith, h) in
    rw (head, same_list_sound xs ys tail) refl

result_of : Bool → ℕ
result_of true = 0
result_of false = 1

known : (b : Bool) → result_of b ≡ 0 → b ≡ true
unfolding result_of
known b h = ground (arith, h)

-- Its context is the list of the bytes that it has taken, and `finish` fails for other messages.
unfoldable pub one_digest : Mbedtls (List ℕ)
unfolding same_list result_of
one_digest = record {
  init = λ c. [];
  starts = λ c. (0, []);
  update = λ bytes c. (0, c ++ bytes);
  finish = λ c. (result_of (same_list c records), digest, c);
  free = λ c. c;
}

pub one_digest-IsMbedtls : IsMbedtls one_digest (λ c xs. c ≡ xs)
unfolding one_digest
one_digest-IsMbedtls = record {
  starts = λ c h. refl;
  update = λ c xs ys t h. ap (λ l. l ++ ys) t;
  finish = λ c xs t h.
      sym records_digest
      ∙ ap sha256 (sym (same_list_sound c records (known (same_list c records) h)) ∙ t);
}
