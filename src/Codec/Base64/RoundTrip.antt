-- ===== src/Codec/Base64/RoundTrip.antt =====
-- Base64: the decoder and the two encoders.
use instance_lib.Prelude.{
  bit_or, AreBytes, ap₂, ap, ◌∙◌, refl, ◌∷◌, [], some, ◌^◌, arith, ◌+◌, ◌%◌, get_or, ◌*◌, ◌/◌, ◌≡◌,
  ◌<◌, Bytes, ℕ,
}
use instance_lib.Codec.Base64.{
  b64url_digits, b64_digits, word_of, sextet, b64url_nopad, b64_encode, b64_bytes, b64_decode_any,
  is_skipped,
}
use instance_lib.Codec.Base64.Laws.{
  url-IsAlphabet, standard-IsAlphabet, word_of_sum, two_digits, third_digit, fourth_digit,
  IsAlphabet,
}
use instance_lib.Prelude.Bits.{bit_or_field, bit_and_63}

-- The four digits of three bytes.
abbrev Sextets : ℕ → ℕ → ℕ → ℕ → Type 0
Sextets n a b c =
    (sextet n 18 ≡ a / 4)
    × (sextet n 12 ≡ a % 4 * 16 + b / 16)
    × (sextet n 6 ≡ b % 16 * 4 + c / 64)
    × (sextet n 0 ≡ c % 64)

Sextets-of_sum :
    (n a b c : ℕ) → a < 256 → b < 256 → c < 256 → n ≡ a * 65536 + b * 256 + c → Sextets n a b c
Sextets-of_sum n a b c h k l e = (
  omega (arith, bit_and_63 (n / 2 ^ 18)),
  omega (arith, bit_and_63 (n / 2 ^ 12)),
  omega (arith, bit_and_63 (n / 2 ^ 6)),
  omega (arith, bit_and_63 (n / 2 ^ 0)),
)

-- What a tail must decode to after one, two and three digits of a group.
module _ (alphabet : Bytes) (ok : IsAlphabet alphabet) (n a b c : ℕ) (h : a < 256) (k : b < 256)
    (l : c < 256) (sextets : Sextets n a b c) where
  abbrev digit_of : ℕ → ℕ
  digit_of shift = get_or alphabet (sextet n shift) 0

  one_byte :
      (acc : ℕ) (s : Bytes)
      → b ≡ 0
      → ((acc' : ℕ) → b64_bytes acc' 4 s ≡ some [])
      → b64_bytes acc 0 (digit_of 18 ∷ digit_of 12 ∷ s) ≡ some (a ∷ [])
  one_byte acc s e later =
      rw (sextets.0, sextets.1)
        (two_digits alphabet ok acc (a / 4) (a % 4 * 16 + b / 16) s [] (omega arith) (omega arith)
            (λ acc' _. later acc')
          ∙ ap (λ x. some (x ∷ [])) first)
    where
      first : a / 4 * 4 + (a % 4 * 16 + b / 16) / 16 ≡ a
      first = omega arith

  -- The three later digits, once the first is read.
  module _ (s : Bytes) (out : Bytes) (x : ℕ) (small : x < 64) where
    from_second :
        (acc : ℕ)
        → b % 16 * 4 + c / 64 ≡ x
        → ((acc' : ℕ) → acc' % 64 ≡ x → b64_bytes acc' 2 s ≡ some out)
        → b64_bytes acc 0 (digit_of 18 ∷ digit_of 12 ∷ get_or alphabet x 0 ∷ s) ≡ some (a ∷ b ∷ out)
    from_second acc e later =
        rw (sextets.0, sextets.1)
          (two_digits alphabet ok acc (a / 4) (a % 4 * 16 + b / 16) (get_or alphabet x 0 ∷ s)
              (((a % 4 * 16 + b / 16) % 16 * 16 + x / 4) ∷ out) (omega arith) (omega arith)
              (λ acc' k. third_digit alphabet ok acc' (a % 4 * 16 + b / 16) x s out k small later)
            ∙ ap₂ (λ y z. some (y ∷ z ∷ out)) first second)
      where
        first : a / 4 * 4 + (a % 4 * 16 + b / 16) / 16 ≡ a
        first = omega arith

        second : (a % 4 * 16 + b / 16) % 16 * 16 + x / 4 ≡ b
        second = omega arith

  two_bytes :
      (acc : ℕ) (s : Bytes)
      → ((acc' : ℕ) → b64_bytes acc' 2 s ≡ some [])
      → b64_bytes acc 0 (digit_of 18 ∷ digit_of 12 ∷ digit_of 6 ∷ s) ≡ some (a ∷ b ∷ [])
  two_bytes acc s later =
      from_second s [] (sextet n 6) (omega (arith, sextets.2)) acc (omega (arith, sextets.2))
        (λ acc' _. later acc')

  three_bytes :
      (acc : ℕ) (s out : Bytes)
      → ((acc' : ℕ) → b64_bytes acc' 0 s ≡ some out)
      → b64_bytes acc 0 (digit_of 18 ∷ digit_of 12 ∷ digit_of 6 ∷ digit_of 0 ∷ s)
        ≡ some (a ∷ b ∷ c ∷ out)
  three_bytes acc s out later =
      from_second (digit_of 0 ∷ s) (c ∷ out) (sextet n 6) (omega (arith, sextets.2)) acc
        (omega (arith, sextets.2))
        (λ acc' e.
          fourth_digit alphabet ok acc' (sextet n 6) (sextet n 0) s out e (omega (arith, sextets.3))
            later
          ∙ ap (λ x. some (x ∷ out)) (omega (arith, sextets.2, sextets.3)))

-- At the end of the text, and over padding, nothing more comes out.
ends : (acc nbits : ℕ) → b64_bytes acc nbits [] ≡ some []
unfolding b64_bytes
ends acc nbits = refl

padding_ends : (acc nbits : ℕ) (s : Bytes) → b64_bytes acc nbits (b'=' ∷ s) ≡ b64_bytes acc nbits s
unfolding b64_bytes is_skipped
padding_ends acc nbits s = refl

word_of-Sextets : (a b c : ℕ) → a < 256 → b < 256 → c < 256 → Sextets (word_of a b c) a b c
word_of-Sextets a b c h k l = Sextets-of_sum (word_of a b c) a b c h k l (word_of_sum a b c k l)

url_from : (acc : ℕ) (bs : Bytes) → AreBytes bs → b64_bytes acc 0 (b64url_nopad bs) ≡ some bs
unfolding b64url_nopad
url_from acc [] h = ends acc 0
url_from acc (a ∷ []) h =
    one_byte b64url_digits url-IsAlphabet (a * 2 ^ 16) a 0 0 h.0 (omega arith) (omega arith)
      (Sextets-of_sum (a * 2 ^ 16) a 0 0 h.0 (omega arith) (omega arith) (omega arith)) acc [] refl
      (λ acc'. ends acc' 4)
url_from acc (a ∷ b ∷ []) h =
    let n = bit_or (a * 2 ^ 16) (b * 2 ^ 8) in
    let sum : n ≡ a * 65536 + b * 256 + 0 =
      omega (arith, bit_or_field 16 a (b * 2 ^ 8) (omega arith)) in
    two_bytes b64url_digits url-IsAlphabet n a b 0 h.0 h.1.0 (omega arith)
      (Sextets-of_sum n a b 0 h.0 h.1.0 (omega arith) sum) acc [] (λ acc'. ends acc' 2)
url_from acc (a ∷ b ∷ c ∷ bs) h =
    three_bytes b64url_digits url-IsAlphabet (word_of a b c) a b c h.0 h.1.0 h.1.1.0
      (word_of-Sextets a b c h.0 h.1.0 h.1.1.0) acc (b64url_nopad bs) bs
      (λ acc'. url_from acc' bs h.1.1.1)

standard_from : (acc : ℕ) (bs : Bytes) → AreBytes bs → b64_bytes acc 0 (b64_encode bs) ≡ some bs
unfolding b64_encode
standard_from acc [] h = ends acc 0
standard_from acc (a ∷ []) h =
    one_byte b64_digits standard-IsAlphabet (word_of a 0 0) a 0 0 h.0 (omega arith) (omega arith)
      (word_of-Sextets a 0 0 h.0 (omega arith) (omega arith)) acc (b'=' ∷ b'=' ∷ []) refl
      (λ acc'. padding_ends acc' 4 (b'=' ∷ []) ∙ padding_ends acc' 4 [] ∙ ends acc' 4)
standard_from acc (a ∷ b ∷ []) h =
    two_bytes b64_digits standard-IsAlphabet (word_of a b 0) a b 0 h.0 h.1.0 (omega arith)
      (word_of-Sextets a b 0 h.0 h.1.0 (omega arith)) acc (b'=' ∷ [])
      (λ acc'. padding_ends acc' 2 [] ∙ ends acc' 2)
standard_from acc (a ∷ b ∷ c ∷ bs) h =
    three_bytes b64_digits standard-IsAlphabet (word_of a b c) a b c h.0 h.1.0 h.1.1.0
      (word_of-Sextets a b c h.0 h.1.0 h.1.1.0) acc (b64_encode bs) bs
      (λ acc'. standard_from acc' bs h.1.1.1)

-- The decoder gives back the bytes that either encoder wrote: the URL alphabet without padding, or
-- the standard one with it.
pub b64_decode_any-encoders :
    (bs : Bytes)
    → AreBytes bs
    → (b64_decode_any (b64url_nopad bs) ≡ some bs) × (b64_decode_any (b64_encode bs) ≡ some bs)
unfolding b64_decode_any
b64_decode_any-encoders bs h = (url_from 0 bs h, standard_from 0 bs h)
