-- ===== src/Codec/Base64.antt =====
-- src/lib.rs: `b64url_nopad` and `b64_decode_any`; src/attestation.rs: `b64_encode`.
pub mod Errors
pub mod Laws
pub mod RoundTrip
pub mod Lines
use instance_lib.Prelude.{
  false, leb, true, none, ◌+◌, ◌%◌, ◌-◌, ◌^◌, between, ◌||◌, ◌==◌, ◌/◌, if◌then◌else◌, some, [],
  ◌*◌, get_or, ◌∷◌, bit_and, Option, bit_or, codes, Bool, ℕ, Bytes,
}
use mathlib.Core.Option

-- const B64URL.
abbrev pub b64url_digits : Bytes
b64url_digits = codes "ABCDEFGHIJKLMNOPQRSTUVWXYZabcdefghijklmnopqrstuvwxyz0123456789-_"

-- const B64.
abbrev pub b64_digits : Bytes
b64_digits = codes "ABCDEFGHIJKLMNOPQRSTUVWXYZabcdefghijklmnopqrstuvwxyz0123456789+/"

-- `(c0 << 16 | c1 << 8 | c2)`, of three bytes.
abbrev pub word_of : ℕ → ℕ → ℕ → ℕ
word_of a b c = bit_or (bit_or (a * 2 ^ 16) (b * 2 ^ 8)) c

-- `ALPHABET[(n >> shift & 63) as usize]`.
abbrev pub sextet : ℕ → ℕ → ℕ
sextet n shift = bit_and (n / 2 ^ shift) 63

abbrev pub digit_at : Bytes → ℕ → ℕ → ℕ
digit_at alphabet n shift = get_or alphabet (sextet n shift) 0

unfoldable pub b64url_nopad : Bytes → Bytes
b64url_nopad [] = []
b64url_nopad (a ∷ []) =
    let n = a * 2 ^ 16 in digit_at b64url_digits n 18 ∷ digit_at b64url_digits n 12 ∷ []
b64url_nopad (a ∷ b ∷ []) =
    let n = bit_or (a * 2 ^ 16) (b * 2 ^ 8) in
    digit_at b64url_digits n 18 ∷ digit_at b64url_digits n 12 ∷ digit_at b64url_digits n 6 ∷ []
b64url_nopad (a ∷ b ∷ c ∷ bytes) =
    let n = word_of a b c in
    digit_at b64url_digits n 18
    ∷ digit_at b64url_digits n 12
    ∷ digit_at b64url_digits n 6
    ∷ digit_at b64url_digits n 0
    ∷ b64url_nopad bytes

-- A short last chunk is filled with zero bytes, and `=` takes the place of the digits it lacks.
unfoldable pub b64_encode : Bytes → Bytes
b64_encode [] = []
b64_encode (a ∷ []) =
    let n = word_of a 0 0 in digit_at b64_digits n 18 ∷ digit_at b64_digits n 12 ∷ b'=' ∷ b'=' ∷ []
b64_encode (a ∷ b ∷ []) =
    let n = word_of a b 0 in
    digit_at b64_digits n 18 ∷ digit_at b64_digits n 12 ∷ digit_at b64_digits n 6 ∷ b'=' ∷ []
b64_encode (a ∷ b ∷ c ∷ bytes) =
    let n = word_of a b c in
    digit_at b64_digits n 18
    ∷ digit_at b64_digits n 12
    ∷ digit_at b64_digits n 6
    ∷ digit_at b64_digits n 0
    ∷ b64_encode bytes

-- The closure `val` of `b64_decode_any`.
unfoldable pub b64_val : ℕ → Option ℕ
b64_val c =
    if between b'A' b'Z' c
    then some (c - b'A')
    else if between b'a' b'z' c
    then some (c - b'a' + 26)
    else if between b'0' b'9' c
    then some (c - b'0' + 52)
    else if c == b'+' || c == b'-'
    then some 62
    else if c == b'/' || c == b'_'
    then some 63
    else none

-- `=` and line ends.
unfoldable pub is_skipped : ℕ → Bool
is_skipped c = c == b'=' || c == 10 || c == 13

-- The accumulator after one digit: `acc << 6 | v` in 32 bits.
unfoldable pub shifted_in : ℕ → ℕ → ℕ
shifted_in acc v = bit_or (acc * 2 ^ 6 % 2 ^ 32) v

-- The loop over the bytes; `nbits` is below 8 at every round.
unfoldable pub b64_bytes : ℕ → ℕ → Bytes → Option Bytes
b64_bytes acc nbits [] = some []
b64_bytes acc nbits (c ∷ s) = elim (is_skipped c) [
  | true ↦ b64_bytes acc nbits s
  | false ↦ elim (b64_val c) [
    | none ↦ none
    | some v ↦ elim (leb 8 (nbits + 6)) [
      | true ↦
          Option.map (λ out. shifted_in acc v / 2 ^ (nbits + 6 - 8) % 2 ^ 8 ∷ out)
            (b64_bytes (shifted_in acc v) (nbits + 6 - 8) s)
      | false ↦ b64_bytes (shifted_in acc v) (nbits + 6) s
    ]
  ]
]

unfoldable pub b64_decode_any : Bytes → Option Bytes
unfolding b64_bytes b64_val is_skipped shifted_in
b64_decode_any s = b64_bytes 0 0 s
