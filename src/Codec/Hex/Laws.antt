-- ===== src/Codec/Hex/Laws.antt =====
-- Hex: the round trip, and the comparison of hex texts.
use instance_lib.Prelude.{
  ap, [], ◌+◌, ◌∷◌, ◌%◌, ◌*◌, length, AreBytes, ◌^◌, bit_and, ◌/◌, Bytes, ==_iff, none, bit_or, ltb,
  arith, ◌&&◌, gives→eq, ◌||◌, every-at, refl, ◌==◌, true, Bool, some, not, Option, gives, get_or,
  ◌<◌, ◌≡◌, ℕ, every,
}
use instance_lib.Codec.Hex.{
  hex_encode, hex_digits, hex_val, hex_pairs, hex_decode, to_ascii_lowercase,
}
use instance_lib.Prelude.Bits.{bit_or_field, bit_and_15}

-- The digit of a nibble.
abbrev pub digit : ℕ → ℕ
digit n = get_or hex_digits n 0

digit_table : every 16 (λ n. gives (hex_val (digit n)) n) ≡ true
unfolding every hex_val
digit_table = refl

hex_val-digit : (n : ℕ) → n < 16 → hex_val (digit n) ≡ some n
hex_val-digit n h = gives→eq (hex_val (digit n)) n (every-at 16 _ digit_table n h)

-- A character has a value exactly where its lower case is the digit of that value.
abbrev agrees : ℕ → Option ℕ → Bool
agrees c none = true
agrees c (some v) = to_ascii_lowercase c == digit v && ltb v 16

value_table : every 103 (λ c. agrees c (hex_val c)) ≡ true
unfolding every hex_val to_ascii_lowercase
value_table = refl

hex_val_bound : (c : ℕ) {v : ℕ} → hex_val c ≡ some v → c < 103
unfolding hex_val
hex_val_bound c h = ground arith

pub hex_val_lower : (c v : ℕ) → hex_val c ≡ some v → (to_ascii_lowercase c ≡ digit v) × (v < 16)
hex_val_lower c v h =
    let checked = every-at 103 _ value_table c (hex_val_bound c h) in
    let found : agrees c (some v) ≡ true = rw h at checked in ground arith

lower_table :
    every 103 (λ c. every 16 (λ v. not (to_ascii_lowercase c == digit v) || gives (hex_val c) v))
    ≡ true
unfolding every hex_val to_ascii_lowercase
lower_table = refl

lower_bound : (c d : ℕ) → to_ascii_lowercase c ≡ d → d < 103 → c < 103
unfolding to_ascii_lowercase
lower_bound c d e h = ground arith

digit_bounds : every 16 (λ v. ltb (digit v) 103) ≡ true
unfolding every
digit_bounds = refl

pub lower_hex_val : (c v : ℕ) → v < 16 → to_ascii_lowercase c ≡ digit v → hex_val c ≡ some v
lower_hex_val c v h e =
    let small = every-at 16 (λ v. ltb (digit v) 103) digit_bounds v h in
    let row = every-at 103 _ lower_table c (lower_bound c (digit v) e (ground arith)) in
    let cell = every-at 16 _ row v h in
    gives→eq (hex_val c) v (ground (arith, ==_iff (to_ascii_lowercase c) (digit v)))

pub lower_digit : (v : ℕ) → v < 16 → to_ascii_lowercase (digit v) ≡ digit v
lower_digit v h = (hex_val_lower (digit v) v (hex_val-digit v h)).0

-- One encoded byte: its two digits decode, and are joined to the byte again.
abbrev pub high : ℕ → ℕ
high b = b / 2 ^ 4

abbrev pub low : ℕ → ℕ
low b = bit_and b 0x0f

pub joined : (hi lo : ℕ) → hi < 16 → lo < 16 → bit_or (hi * 2 ^ 4 % 2 ^ 8) lo ≡ hi * 16 + lo
joined hi lo h k =
    let fits : hi * 2 ^ 4 % 2 ^ 8 ≡ hi * 2 ^ 4 = omega arith in
    rw fits (omega (arith, bit_or_field 4 hi lo k))

hex_pairs-hex_encode : (bs : Bytes) → AreBytes bs → hex_pairs (hex_encode bs) ≡ some bs
unfolding hex_pairs hex_encode
hex_pairs-hex_encode [] h = refl
hex_pairs-hex_encode (b ∷ bs) h =
    let small : low b < 16 = omega (arith, bit_and_15 b) in
    let whole : bit_or (high b * 2 ^ 4 % 2 ^ 8) (low b) ≡ b =
      omega (arith, joined (high b) (low b) (omega arith) small, bit_and_15 b) in
    rw
      (
        hex_val-digit (high b) (omega arith),
        hex_val-digit (low b) small,
        hex_pairs-hex_encode bs h.1,
      )
      (ap (λ x. some (x ∷ bs)) whole)

pub length-hex_encode : (bs : Bytes) → length (hex_encode bs) ≡ 2 * length bs
unfolding hex_encode
length-hex_encode [] = refl
length-hex_encode (b ∷ bs) = omega (arith, length-hex_encode bs)

-- Decoding the hex of a list of bytes gives the bytes back.
pub hex_decode-hex_encode : (bs : Bytes) → AreBytes bs → hex_decode (hex_encode bs) ≡ some bs
unfolding hex_decode
hex_decode-hex_encode bs h =
    let even : length (hex_encode bs) % 2 ≡ 0 = omega (arith, length-hex_encode bs) in
    rw even (hex_pairs-hex_encode bs h)
