-- ===== src/Codec/Base64/Lines.antt =====
-- Base64 text in lines, as PEM holds it.
use instance_lib.Prelude.{
  ◌-◌, ◌∙◌, ◌+◌, sym, leb, ℕ, Bytes, Bool, true, [], ◌∷◌, ◌≡◌, ◌≢◌, ◌<◌, ◌==◌, ◌||◌, ◌&&◌, not, ltb,
  All, if◌then◌else◌, refl, Bool-cases, Option-cases, inl, inr, get_or, every, every-at, arith, ap,
  some, AreBytes, ◌/◌, ◌^◌,
}
use instance_lib.Codec.Base64.{
  b64_digits, b64_encode, b64_bytes, b64_val, is_skipped, shifted_in, b64_decode_any, sextet,
  digit_at, word_of,
}
use instance_lib.Codec.Base64.RoundTrip.{b64_decode_any-encoders}
use instance_lib.Prelude.Bits.{bit_and_63}

abbrev pub is_line_end : ℕ → Bool
is_line_end c = c == 10 || c == 13

-- The text without its line ends.
unfoldable pub unwrapped : Bytes → Bytes
unwrapped [] = []
unwrapped (c ∷ s) = let rest = unwrapped s in if is_line_end c then rest else c ∷ rest

line_end_skipped : (c : ℕ) → is_line_end c ≡ true → is_skipped c ≡ true
unfolding is_skipped
line_end_skipped c h = ground arith

b64_bytes-unwrapped :
    (s : Bytes) (acc nbits : ℕ) → b64_bytes acc nbits (unwrapped s) ≡ b64_bytes acc nbits s
unfolding b64_bytes unwrapped
b64_bytes-unwrapped [] acc nbits = refl
b64_bytes-unwrapped (c ∷ s) acc nbits = elim (Bool-cases (is_line_end c)) [
  | inl skip ↦ rw (skip, b64_bytes, line_end_skipped c skip) (b64_bytes-unwrapped s acc nbits)
  | inr other ↦ rw (other) (elim (Bool-cases (is_skipped c)) [
    | inl skip ↦ rw (b64_bytes, skip) (b64_bytes-unwrapped s acc nbits)
    | inr digit ↦ elim (Option-cases (b64_val c)) [
      | inl bad ↦ rw (b64_bytes, digit, bad) refl
      | inr (v, e) ↦ elim (Bool-cases (leb 8 (nbits + 6))) [
        | inl whole ↦
            rw
              (b64_bytes, digit, e, whole, b64_bytes-unwrapped s (shifted_in acc v) (nbits + 6 - 8))
              refl
        | inr part ↦
            rw (b64_bytes, digit, e, part) (b64_bytes-unwrapped s (shifted_in acc v) (nbits + 6))
      ]
    ]
  ])
]

pub decode-unwrapped :
    (s der : Bytes) → AreBytes der → unwrapped s ≡ b64_encode der → b64_decode_any s ≡ some der
unfolding b64_decode_any
decode-unwrapped s der small e =
    sym (b64_bytes-unwrapped s 0 0) ∙ ap (b64_bytes 0 0) e ∙ (b64_decode_any-encoders der small).1

-- ASCII, and no dash.
abbrev pub IsPlain : ℕ → Type 0
IsPlain c = (c < 128) × (c ≢ b'-')

abbrev pub plain : ℕ → Bool
plain c = ltb c 128 && not (c == b'-')

pub plain-IsPlain : (c : ℕ) → plain c ≡ true → IsPlain c
plain-IsPlain c h = (ground arith, λ e. absurd (ground arith))

digits_plain : every 64 (λ v. plain (get_or b64_digits v 0)) ≡ true
unfolding every
digits_plain = refl

digit-IsPlain : (n shift : ℕ) → IsPlain (digit_at b64_digits n shift)
digit-IsPlain n shift = plain-IsPlain (digit_at b64_digits n shift) (
    every-at 64 (λ v. plain (get_or b64_digits v 0)) digits_plain (sextet n shift)
      (omega (arith, bit_and_63 (n / 2 ^ shift))))

padding-IsPlain : IsPlain b'='
padding-IsPlain = plain-IsPlain b'=' refl

pub b64_encode-IsPlain : (bs : Bytes) → All IsPlain (b64_encode bs)
unfolding b64_encode
b64_encode-IsPlain [] = tt
b64_encode-IsPlain (a ∷ []) = (
  digit-IsPlain (word_of a 0 0) 18,
  (digit-IsPlain (word_of a 0 0) 12, (padding-IsPlain, (padding-IsPlain, tt))),
)
b64_encode-IsPlain (a ∷ b ∷ []) = (
  digit-IsPlain (word_of a b 0) 18,
  (digit-IsPlain (word_of a b 0) 12, (digit-IsPlain (word_of a b 0) 6, (padding-IsPlain, tt))),
)
b64_encode-IsPlain (a ∷ b ∷ c ∷ bs) = (
  digit-IsPlain (word_of a b c) 18,
  (
    digit-IsPlain (word_of a b c) 12,
    (digit-IsPlain (word_of a b c) 6, (digit-IsPlain (word_of a b c) 0, b64_encode-IsPlain bs)),
  ),
)

pub unwrapped-IsPlain : (s : Bytes) → All IsPlain (unwrapped s) → All IsPlain s
unfolding unwrapped
unwrapped-IsPlain [] h = tt
unwrapped-IsPlain (c ∷ s) h = elim (Bool-cases (is_line_end c)) [
  | inl end ↦ (plain-IsPlain c (ground arith), unwrapped-IsPlain s (rw end at h))
  | inr other ↦ let (first, later) = (rw other at h) in (first, unwrapped-IsPlain s later)
]
