-- ===== src/Codec/Base64/Laws.antt =====
-- Base64: the decoder and the digits of the encoders.
use instance_lib.Prelude.{
  ap, leb, ◌-◌, ◌/◌, arith, bit_or, ◌^◌, refl, ◌+◌, false, ◌*◌, true, some, ◌∷◌, ◌%◌, get_or, ◌≤◌,
  ◌≡◌, gives, every-at, not, ◌<◌, gives→eq, every, Bytes, ℕ, Bool,
}
use mathlib.Core.Option
use instance_lib.Codec.Base64.{
  b64url_digits, b64_digits, word_of, b64_val, is_skipped, shifted_in, b64_bytes,
}
use instance_lib.Prelude.Bits.{bit_or_field}

-- The decoder reads each digit of the alphabet as its position.
pub record IsAlphabet (alphabet : Bytes) : Type 0 where
  pub value : (v : ℕ) → v < 64 → b64_val (get_or alphabet v 0) ≡ some v
  pub counted : (v : ℕ) → v < 64 → is_skipped (get_or alphabet v 0) ≡ false

url_values : every 64 (λ v. gives (b64_val (get_or b64url_digits v 0)) v) ≡ true
unfolding every b64_val
url_values = refl

url_counted : every 64 (λ v. not (is_skipped (get_or b64url_digits v 0))) ≡ true
unfolding every is_skipped
url_counted = refl

standard_values : every 64 (λ v. gives (b64_val (get_or b64_digits v 0)) v) ≡ true
unfolding every b64_val
standard_values = refl

standard_counted : every 64 (λ v. not (is_skipped (get_or b64_digits v 0))) ≡ true
unfolding every is_skipped
standard_counted = refl

not→false : (b : Bool) → not b ≡ true → b ≡ false
not→false true h = cc
not→false false h = refl

pub url-IsAlphabet : IsAlphabet b64url_digits
url-IsAlphabet = record {
  value = λ v h. gives→eq _ v (every-at 64 _ url_values v h);
  counted = λ v h.
      not→false _ (every-at 64 (λ v. not (is_skipped (get_or b64url_digits v 0))) url_counted v h);
}

pub standard-IsAlphabet : IsAlphabet b64_digits
standard-IsAlphabet = record {
  value = λ v h. gives→eq _ v (every-at 64 _ standard_values v h);
  counted = λ v h.
      not→false _
        (every-at 64 (λ v. not (is_skipped (get_or b64_digits v 0))) standard_counted v h);
}

pub word_of_sum : (a b c : ℕ) → b < 256 → c < 256 → word_of a b c ≡ a * 65536 + b * 256 + c
word_of_sum a b c h k =
    let pair : bit_or (a * 2 ^ 16) (b * 2 ^ 8) ≡ (a * 256 + b) * 2 ^ 8 =
      omega (arith, bit_or_field 16 a (b * 256) (omega arith)) in
    rw pair (omega (arith, bit_or_field 8 (a * 256 + b) c k))

shifted_in_sum : (acc v : ℕ) → v < 64 → shifted_in acc v ≡ acc % 2 ^ 26 * 64 + v
unfolding shifted_in
shifted_in_sum acc v h =
    let fits : acc * 2 ^ 6 % 2 ^ 32 ≡ acc % 2 ^ 26 * 2 ^ 6 = omega arith in
    rw fits (omega (arith, bit_or_field 6 (acc % 2 ^ 26) v h))

abbrev pub digit : Bytes → ℕ → ℕ
digit alphabet v = get_or alphabet v 0

module _ (alphabet : Bytes) (ok : IsAlphabet alphabet) where
  -- The first digit of a group only fills the accumulator.
  first_digit :
      (acc v : ℕ) (s : Bytes)
      → v < 64
      → b64_bytes acc 0 (get_or alphabet v 0 ∷ s) ≡ b64_bytes (acc % 2 ^ 26 * 64 + v) 6 s
  unfolding b64_bytes
  first_digit acc v s h =
      rw (ok.counted v h, b64_bytes, ok.value v h, b64_bytes, shifted_in_sum acc v h)

  -- Any later digit completes a byte.
  later_digit :
      (acc nbits v : ℕ) (s : Bytes)
      → v < 64
      → 2 ≤ nbits
      → b64_bytes acc nbits (get_or alphabet v 0 ∷ s)
        ≡ Option.map
            (λ out. (acc % 2 ^ 26 * 64 + v) / 2 ^ (nbits - 2) % 2 ^ 8 ∷ out)
            (b64_bytes (acc % 2 ^ 26 * 64 + v) (nbits - 2) s)
  unfolding b64_bytes
  later_digit acc nbits v s h k =
      let full : leb 8 (nbits + 6) ≡ true = ground arith in
      let left : nbits + 6 - 8 ≡ nbits - 2 = omega arith in
      rw (ok.counted v h, b64_bytes, ok.value v h, full, left, shifted_in_sum acc v h)

  -- Two digits give one byte, a third another, and a fourth the last of a group.
  pub two_digits :
      (acc v w : ℕ) (s out : Bytes)
      → v < 64
      → w < 64
      → ((acc' : ℕ) → acc' % 64 ≡ w → b64_bytes acc' 4 s ≡ some out)
      → b64_bytes acc 0 (digit alphabet v ∷ digit alphabet w ∷ s) ≡ some ((v * 4 + w / 16) ∷ out)
  two_digits acc v w s out h k later =
      let acc1 = acc % 2 ^ 26 * 64 + v in
      let byte : (acc1 % 2 ^ 26 * 64 + w) / 2 ^ 4 % 2 ^ 8 ≡ v * 4 + w / 16 = omega arith in
      rw
        (
          first_digit acc v (digit alphabet w ∷ s) h,
          later_digit acc1 6 w s k (omega arith),
          later (acc1 % 2 ^ 26 * 64 + w) (omega arith),
        )
        (ap (λ x. some (x ∷ out)) byte)

  pub third_digit :
      (acc w x : ℕ) (s out : Bytes)
      → acc % 64 ≡ w
      → x < 64
      → ((acc' : ℕ) → acc' % 64 ≡ x → b64_bytes acc' 2 s ≡ some out)
      → b64_bytes acc 4 (digit alphabet x ∷ s) ≡ some ((w % 16 * 16 + x / 4) ∷ out)
  third_digit acc w x s out e h later =
      let byte : (acc % 2 ^ 26 * 64 + x) / 2 ^ 2 % 2 ^ 8 ≡ w % 16 * 16 + x / 4 = omega arith in
      rw (later_digit acc 4 x s h (omega arith), later (acc % 2 ^ 26 * 64 + x) (omega arith))
        (ap (λ y. some (y ∷ out)) byte)

  pub fourth_digit :
      (acc x y : ℕ) (s out : Bytes)
      → acc % 64 ≡ x
      → y < 64
      → ((acc' : ℕ) → b64_bytes acc' 0 s ≡ some out)
      → b64_bytes acc 2 (digit alphabet y ∷ s) ≡ some ((x % 4 * 64 + y) ∷ out)
  fourth_digit acc x y s out e h later =
      let byte : (acc % 2 ^ 26 * 64 + y) / 2 ^ 0 % 2 ^ 8 ≡ x % 4 * 64 + y = omega arith in
      rw (later_digit acc 2 y s h (omega arith), later (acc % 2 ^ 26 * 64 + y))
        (ap (λ z. some (z ∷ out)) byte)
