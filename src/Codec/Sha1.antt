-- ===== src/Codec/Sha1.antt =====
-- src/lib.rs: `sha1` (FIPS 180-4), on 32-bit words.
pub mod Padding
pub mod Gates
pub mod Fips
pub mod Slices
pub mod Equivalence
pub mod Rounds
pub mod Schedule
use instance_lib.Prelude.{
  ◌==◌, zero, take, ◌/◌, get_or, ltb, ◌-◌, drop, bit_and, ◌*◌, ◌∷◌, [], ◌++◌, bit_xor, length, List,
  bit_or, suc, ◌^◌, ◌%◌, if◌then◌else◌, ◌+◌, ℕ, Bytes,
}

abbrev pub u32 : ℕ → ℕ
u32 x = x % 2 ^ 32

-- `rotate_left`.
unfoldable pub rotate_left : ℕ → ℕ → ℕ
rotate_left x n = bit_or (u32 (x * 2 ^ n)) (x / 2 ^ (32 - n))

-- `!x`.
abbrev pub not32 : ℕ → ℕ
not32 x = 2 ^ 32 - 1 - x

-- `to_be_bytes` of a word of the given number of bytes.
unfoldable pub to_be_bytes : ℕ → ℕ → Bytes
to_be_bytes zero x = []
to_be_bytes (suc n) x = x / 256 ^ n % 256 ∷ to_be_bytes n x

-- `while msg.len() % 64 != 56 { msg.push(0) }`; 64 rounds are enough for any message.
unfoldable pub pad_zeros : ℕ → Bytes → Bytes
pad_zeros zero msg = msg
pad_zeros (suc fuel) msg =
    let longer = pad_zeros fuel (msg ++ 0 ∷ []) in if length msg % 64 == 56 then msg else longer

unfoldable pub padded : Bytes → Bytes
unfolding pad_zeros to_be_bytes
padded data' = pad_zeros 64 (data' ++ 0x80 ∷ []) ++ to_be_bytes 8 (length data' * 8 % 2 ^ 64)

-- The big-endian words of a block.
unfoldable pub words : Bytes → List ℕ
words (a ∷ b ∷ c ∷ d ∷ block) = (a * 2 ^ 24 + b * 2 ^ 16 + c * 2 ^ 8 + d) ∷ words block
words block = []

-- `w[i - k]` of a schedule that is filled up to `i`.
abbrev pub back : List ℕ → ℕ → ℕ
back w k = get_or w (length w - k) 0

-- The word that follows, from the words 3, 8, 14 and 16 places back.
abbrev pub next_word : List ℕ → ℕ
next_word w =
    rotate_left (bit_xor (bit_xor (bit_xor (back w 3) (back w 8)) (back w 14)) (back w 16)) 1

unfoldable pub schedule : ℕ → List ℕ → List ℕ
unfolding rotate_left
schedule zero w = w
schedule (suc n) w = schedule n (w ++ next_word w ∷ [])

pub record Digest : Type 0 where
  pub a : ℕ
  pub b : ℕ
  pub c : ℕ
  pub d : ℕ
  pub e : ℕ

abbrev pub initial : Digest
initial = record {
  a = 0x6745_2301;
  b = 0xEFCD_AB89;
  c = 0x98BA_DCFE;
  d = 0x1032_5476;
  e = 0xC3D2_E1F0;
}

abbrev pub choose : Digest → ℕ
choose s = bit_or (bit_and s.b s.c) (bit_and (not32 s.b) s.d)

abbrev pub parity : Digest → ℕ
parity s = bit_xor (bit_xor s.b s.c) s.d

abbrev pub majority : Digest → ℕ
majority s = bit_or (bit_or (bit_and s.b s.c) (bit_and s.b s.d)) (bit_and s.c s.d)

-- `(f, k)` of round `i`, added up.
abbrev pub mixed : ℕ → Digest → ℕ
mixed i s =
    if ltb i 20
    then choose s + 0x5A82_7999
    else if ltb i 40
    then parity s + 0x6ED9_EBA1
    else if ltb i 60
    then majority s + 0x8F1B_BCDC
    else parity s + 0xCA62_C1D6

unfoldable pub round : ℕ → ℕ → Digest → Digest
unfolding rotate_left
round i w s = record {
  a = u32 (rotate_left s.a 5 + mixed i s + s.e + w);
  b = s.a;
  c = rotate_left s.b 30;
  d = s.c;
  e = s.d;
}

unfoldable pub rounds : ℕ → List ℕ → Digest → Digest
unfolding round
rounds i [] s = s
rounds i (w ∷ ws) s = rounds (i + 1) ws (round i w s)

abbrev pub add_digest : Digest → Digest → Digest
add_digest h s = record {
  a = u32 (h.a + s.a);
  b = u32 (h.b + s.b);
  c = u32 (h.c + s.c);
  d = u32 (h.d + s.d);
  e = u32 (h.e + s.e);
}

-- One block of 64 bytes.
unfoldable pub compress : Bytes → Digest → Digest
unfolding rounds schedule words
compress block h = add_digest h (rounds 0 (schedule 64 (words block)) h)

-- `chunks_exact(64)`.
unfoldable pub blocks : ℕ → Bytes → Digest → Digest
unfolding compress
blocks zero msg h = h
blocks (suc n) msg h = blocks n (drop 64 msg) (compress (take 64 msg) h)

abbrev pub output : Digest → Bytes
output h =
    to_be_bytes 4 h.a
    ++ (to_be_bytes 4 h.b ++ (to_be_bytes 4 h.c ++ (to_be_bytes 4 h.d ++ to_be_bytes 4 h.e)))

unfoldable pub sha1 : Bytes → Bytes
unfolding blocks padded to_be_bytes
sha1 data' = let msg = padded data' in output (blocks (length msg / 64) msg initial)
