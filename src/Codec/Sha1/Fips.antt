-- ===== src/Codec/Sha1/Fips.antt =====
-- SHA-1 as FIPS 180-4 writes it: words by their index, and no loop over a buffer.
use instance_lib.Prelude.{
  Bytes, ℕ, zero, suc, ◌+◌, ◌-◌, ◌*◌, ◌/◌, ◌%◌, ◌^◌, ◌==◌, ◌∷◌, ◌++◌, [], bit_and, bit_xor, get_or,
  if◌then◌else◌, length, ltb, replicate,
}
use instance_lib.Codec.Sha1.{Digest, initial, not32, output, to_be_bytes}

-- 2.2.2: the rotation to the left by `n` digits of 32.
abbrev pub rotl : ℕ → ℕ → ℕ
rotl n x = x % 2 ^ (32 - n) * 2 ^ n + x / 2 ^ (32 - n)

-- 4.1.1: the functions of the rounds.
abbrev pub ch : ℕ → ℕ → ℕ → ℕ
ch x y z = bit_xor (bit_and x y) (bit_and (not32 x) z)

abbrev pub odd : ℕ → ℕ → ℕ → ℕ
odd x y z = bit_xor (bit_xor x y) z

abbrev pub maj : ℕ → ℕ → ℕ → ℕ
maj x y z = bit_xor (bit_xor (bit_and x y) (bit_and x z)) (bit_and y z)

abbrev pub logical : ℕ → ℕ → ℕ → ℕ → ℕ
logical t x y z =
    if ltb t 20
    then ch x y z
    else if ltb t 40
    then odd x y z
    else if ltb t 60
    then maj x y z
    else odd x y z

-- 4.2.1: the constants.
abbrev pub constant : ℕ → ℕ
constant t =
    if ltb t 20
    then 0x5A82_7999
    else if ltb t 40
    then 0x6ED9_EBA1
    else if ltb t 60
    then 0x8F1B_BCDC
    else 0xCA62_C1D6

-- 5.1.1: a 1, as few zeros as fill the last block, and the length in 64 digits.
abbrev pub message : Bytes → Bytes
message data' =
    ((data' ++ 0x80 ∷ []) ++ replicate ((119 - length data' % 64) % 64) 0)
    ++ to_be_bytes 8 (length data' * 8 % 2 ^ 64)

-- 5.2.1: word `j` of a message.
abbrev pub word_at : Bytes → ℕ → ℕ
word_at msg j =
    get_or msg (4 * j) 0 * 2 ^ 24
    + get_or msg (4 * j + 1) 0 * 2 ^ 16
    + get_or msg (4 * j + 2) 0 * 2 ^ 8
    + get_or msg (4 * j + 3) 0

-- 6.1.2, step 1: the schedule, filled from its first 16 words up to word `16 + n`.
unfoldable pub expanded : ℕ → (ℕ → ℕ) → ℕ → ℕ
expanded zero m t = m t
expanded (suc n) m t =
    let w = expanded n m in
    if t == 16 + n
    then rotl 1 (bit_xor (bit_xor (bit_xor (w (13 + n)) (w (8 + n))) (w (2 + n))) (w n))
    else w t

-- Steps 2 and 3: the working variables after `t` rounds.
unfoldable pub working : (ℕ → ℕ) → Digest → ℕ → Digest
working w h zero = h
working w h (suc t) =
    let s = working w h t in
    record {
      a = (rotl 5 s.a + logical t s.b s.c s.d + s.e + constant t + w t) % 2 ^ 32;
      b = s.a;
      c = rotl 30 s.b;
      d = s.c;
      e = s.d;
    }

abbrev pub sum32 : Digest → Digest → Digest
sum32 h s = record {
  a = (h.a + s.a) % 2 ^ 32;
  b = (h.b + s.b) % 2 ^ 32;
  c = (h.c + s.c) % 2 ^ 32;
  d = (h.d + s.d) % 2 ^ 32;
  e = (h.e + s.e) % 2 ^ 32;
}

-- Step 4: the hash value after `i` blocks.
unfoldable pub hash : Bytes → ℕ → Digest
hash msg zero = initial
hash msg (suc i) =
    sum32 (hash msg i) (working (expanded 64 (λ t. word_at msg (16 * i + t))) (hash msg i) 80)

unfoldable pub digest : Bytes → Bytes
digest data' = output (hash (message data') (length (message data') / 64))
