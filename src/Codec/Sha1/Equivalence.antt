-- ===== src/Codec/Sha1/Equivalence.antt =====
-- `sha1` against FIPS 180-4.
use instance_lib.Prelude.{
  sym, length-take, ap, Bytes, ℕ, zero, suc, ◌+◌, ◌-◌, ◌*◌, ◌/◌, ◌%◌, ◌^◌, ◌<◌, ◌≤◌, ◌∷◌, ◌++◌, [],
  ◌≡◌, ◌∙◌, refl, arith, get_or, length, take, drop, AreBytes, All-append, replicate,
}
use instance_lib.Codec.Sha1.{
  Digest, initial, add_digest, words, schedule, compress, rounds, blocks, to_be_bytes, sha1, output,
}
use instance_lib.Codec.Sha1.Fips.{word_at, expanded, working, sum32, hash, message, digest}
use instance_lib.Codec.Sha1.Slices.{get_or-take, get_or-drop, drop-drop, length-drop}
use instance_lib.Codec.Sha1.Padding.{padded-message}
use instance_lib.Codec.Sha1.Schedule.{Fills, schedule-Fills, words_at, length-words}
use instance_lib.Codec.Sha1.Rounds.{IsWords, rounds-Fills}

get_or-bytes : (xs : Bytes) (i : ℕ) → AreBytes xs → get_or xs i 0 < 256
get_or-bytes [] i h = omega arith
get_or-bytes (x ∷ xs) zero h = h.0
get_or-bytes (x ∷ xs) (suc i) h = get_or-bytes xs i h.1

word_at-bound : (msg : Bytes) → AreBytes msg → (j : ℕ) → word_at msg j < 2 ^ 32
word_at-bound msg h j = omega (
  arith,
  get_or-bytes msg (4 * j) h,
  get_or-bytes msg (4 * j + 1) h,
  get_or-bytes msg (4 * j + 2) h,
  get_or-bytes msg (4 * j + 3) h,
)

compress-rounds :
    (block : Bytes) (h : Digest)
    → compress block h ≡ add_digest h (rounds 0 (schedule 64 (words block)) h)
unfolding compress
compress-rounds block h = refl

hash-suc :
    (msg : Bytes) (i : ℕ)
    → hash msg (suc i)
      ≡ sum32 (hash msg i) (working (expanded 64 (λ t. word_at msg (16 * i + t))) (hash msg i) 80)
unfolding hash
hash-suc msg i = refl

hash-IsWords : (msg : Bytes) (i : ℕ) → IsWords (hash msg i)
unfolding hash
hash-IsWords msg zero = record {
  a = omega arith;
  b = omega arith;
  c = omega arith;
  d = omega arith;
  e = omega arith;
}
hash-IsWords msg (suc i) = record {
  a = omega arith;
  b = omega arith;
  c = omega arith;
  d = omega arith;
  e = omega arith;
}

module _ (msg : Bytes) (bytes : AreBytes msg) where
  abbrev block_of : ℕ → Bytes
  block_of j = take 64 (drop (64 * j) msg)

  block_at : (j i : ℕ) → i < 64 → get_or (block_of j) i 0 ≡ get_or msg (64 * j + i) 0
  block_at j i h = get_or-take 64 (drop (64 * j) msg) i h ∙ get_or-drop (64 * j) msg i

  word_at-block : (j t : ℕ) → t < 16 → word_at (block_of j) t ≡ word_at msg (16 * j + t)
  word_at-block j t h =
      let place : (i : ℕ) → 64 * j + (4 * t + i) ≡ 4 * (16 * j + t) + i = λ i. omega arith in
      let first : 64 * j + 4 * t ≡ 4 * (16 * j + t) = omega arith in
      rw (
        block_at j (4 * t) (omega arith),
        block_at j (4 * t + 1) (omega arith),
        block_at j (4 * t + 2) (omega arith),
        block_at j (4 * t + 3) (omega arith),
        first,
        place 1,
        place 2,
        place 3,
      )

  module _ (j : ℕ) (fits : 64 * j + 64 ≤ length msg) where
    block_length : length (block_of j) ≡ 64
    block_length = omega (arith, length-take 64 (drop (64 * j) msg), length-drop (64 * j) msg)

    words-Fills : Fills (words (block_of j)) (λ t. word_at msg (16 * j + t)) 16
    words-Fills = record {
      size = length-words 16 (block_of j) block_length;
      at_index = λ t h. words_at (block_of j) t (omega (arith, block_length)) ∙ word_at-block j t h;
    }

    block_rounds :
        rounds 0 (schedule 64 (words (block_of j))) (hash msg j)
        ≡ working (expanded 64 (λ t. word_at msg (16 * j + t))) (hash msg j) 80
    block_rounds =
        let m = λ (t : ℕ). word_at msg (16 * j + t) in
        rounds-Fills (expanded 64 m) (hash msg j) (hash-IsWords msg j) 80
          (schedule 64 (words (block_of j)))
          (schedule-Fills m (λ t. word_at-bound msg bytes (16 * j + t)) 64 (words (block_of j))
            words-Fills)

    compress_lem : compress (block_of j) (hash msg j) ≡ hash msg (suc j)
    compress_lem =
        compress-rounds (block_of j) (hash msg j)
        ∙ ap (add_digest (hash msg j)) block_rounds
        ∙ sym (hash-suc msg j)

  blocks_lem :
      (n j : ℕ)
      → 64 * (j + n) ≤ length msg
      → blocks n (drop (64 * j) msg) (hash msg j) ≡ hash msg (j + n)
  unfolding blocks
  blocks_lem zero j fits = ap (hash msg) (omega arith)
  blocks_lem (suc n) j fits =
      let next_block : 64 * j + 64 ≡ 64 * suc j = omega arith in
      let count : j + suc n ≡ suc j + n = omega arith in
      rw (drop-drop 64 (64 * j) msg, next_block, compress_lem j (omega arith), count)
        (blocks_lem n (suc j) (omega arith))

replicate-AreBytes : (n : ℕ) → AreBytes (replicate n 0)
replicate-AreBytes zero = tt
replicate-AreBytes (suc n) = (omega arith, replicate-AreBytes n)

to_be_bytes-AreBytes : (n x : ℕ) → AreBytes (to_be_bytes n x)
unfolding to_be_bytes
to_be_bytes-AreBytes zero x = tt
to_be_bytes-AreBytes (suc n) x = (omega arith, to_be_bytes-AreBytes n x)

message-AreBytes : (data' : Bytes) → AreBytes data' → AreBytes (message data')
message-AreBytes data' bytes =
    All-append (λ b. b < 256) _ (to_be_bytes 8 (length data' * 8 % 2 ^ 64))
      (All-append (λ b. b < 256) (data' ++ 0x80 ∷ []) (replicate _ 0)
        (All-append (λ b. b < 256) data' (0x80 ∷ []) bytes (omega arith, tt))
        (replicate-AreBytes ((119 - length data' % 64) % 64)))
      (to_be_bytes-AreBytes 8 (length data' * 8 % 2 ^ 64))

all_blocks :
    (msg : Bytes) → AreBytes msg → blocks (length msg / 64) msg initial ≡ hash msg (length msg / 64)
unfolding hash
all_blocks msg bytes =
    blocks_lem msg bytes (length msg / 64) 0 (omega arith) ∙ ap (hash msg) (omega arith)

-- Of a text of bytes, the code's `sha1` is the SHA-1 of FIPS 180-4: the message padded and parsed
-- as in section 5, its schedule, the functions and constants of the 80 rounds and the sums modulo
-- 2^32 as in section 6.1.2, word by word. The code selects and takes the majority by an or where the
-- standard has an exclusive or, and rotates by an or of shifts where the reference adds; and it works
-- through a buffer that it extends and a list of rounds, where the reference goes by index.
pub sha1-digest : (data' : Bytes) → AreBytes data' → sha1 data' ≡ digest data'
unfolding sha1 digest
sha1-digest data' bytes =
    rw (padded-message data')
      (ap output (all_blocks (message data') (message-AreBytes data' bytes)))
