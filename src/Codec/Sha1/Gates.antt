-- ===== src/Codec/Sha1/Gates.antt =====
-- The functions of the rounds, digit by digit.
use instance_lib.Prelude.{
  ◌∙◌, ◌≤◌, ℕ, zero, suc, ◌+◌, ◌-◌, ◌*◌, ◌/◌, ◌%◌, ◌^◌, ◌<◌, bit_and, bit_or, bit_xor, ◌≡◌, arith,
}
use instance_lib.Prelude.Bits.{bit_or_low, bit_and_low, bit_xor_low}
use Prim.Native.Nat.{min, bit_xor-bitwise, bit_and-bitwise, bit_or-bitwise}
use native.Mathlib.Nat.{pow-suc}

pub bit_xor_bound : (n a b : ℕ) → a < 2 ^ n → b < 2 ^ n → bit_xor a b < 2 ^ n
bit_xor_bound zero zero zero p q = omega (arith, bit_xor-bitwise 0 0)
bit_xor_bound zero zero (suc b) p q = absurd (omega arith)
bit_xor_bound zero (suc a) b p q = absurd (omega arith)
bit_xor_bound (suc n) a b p q = omega (
  arith,
  pow-suc 2 n,
  bit_xor_low a b,
  bit_xor_bound n (a / 2) (b / 2) (omega (arith, pow-suc 2 n)) (omega (arith, pow-suc 2 n)),
)

-- The halves of `x & y`.
bit_and_half : (x y : ℕ) → bit_and x y / 2 ≡ bit_and (x / 2) (y / 2)
bit_and_half x y = omega (arith, bit_and_low x y)

bit_xor_half : (x y : ℕ) → bit_xor x y / 2 ≡ bit_xor (x / 2) (y / 2)
bit_xor_half x y = omega (arith, bit_xor_low x y)

-- One digit more: where the digits above agree, and the lowest are not both 1.
or_step :
    (x y : ℕ)
    → bit_or (x / 2) (y / 2) ≡ bit_xor (x / 2) (y / 2)
    → x % 2 + y % 2 ≤ 1
    → bit_or x y ≡ bit_xor x y
or_step x y rest apart = omega (arith, bit_or_low x y, bit_xor_low x y)

bit_and_digit : (x y : ℕ) → bit_and x y % 2 ≡ min (x % 2) (y % 2)
bit_and_digit x y = omega (arith, bit_and_low x y)

bit_and-zero : (y : ℕ) → bit_and 0 y ≡ 0
bit_and-zero y = omega (arith, bit_and-bitwise 0 y)

pub choose_lem :
    (n b c d : ℕ)
    → b < 2 ^ n
    → bit_or (bit_and b c) (bit_and (2 ^ n - 1 - b) d)
      ≡ bit_xor (bit_and b c) (bit_and (2 ^ n - 1 - b) d)
choose_lem zero zero c d p =
    rw (bit_and-zero c, bit_and-zero d) (omega (arith, bit_or-bitwise 0 0, bit_xor-bitwise 0 0))
choose_lem zero (suc b) c d p = absurd (omega arith)
choose_lem (suc n) b c d p =
    let others = 2 ^ suc n - 1 - b in
    let flip : others / 2 ≡ 2 ^ n - 1 - b / 2 = omega (arith, pow-suc 2 n) in
    or_step (bit_and b c) (bit_and others d)
      (rw (bit_and_half b c, bit_and_half others d, flip)
        (choose_lem n (b / 2) (c / 2) (d / 2) (omega (arith, pow-suc 2 n))))
      (omega (arith, pow-suc 2 n, bit_and_digit b c, bit_and_digit others d))

bit_or_half : (x y : ℕ) → bit_or x y / 2 ≡ bit_or (x / 2) (y / 2)
bit_or_half x y = omega (arith, bit_or_low x y)

abbrev pub xor_majority : ℕ → ℕ → ℕ → ℕ
xor_majority b c d = bit_xor (bit_xor (bit_and b c) (bit_and b d)) (bit_and c d)

abbrev pub or_majority : ℕ → ℕ → ℕ → ℕ
or_majority b c d = bit_or (bit_or (bit_and b c) (bit_and b d)) (bit_and c d)

or_majority_low :
    (b c d : ℕ)
    → or_majority b c d ≡ or_majority (b / 2) (c / 2) (d / 2) * 2 + (b % 2 + c % 2 + d % 2) / 2
or_majority_low b c d =
    bit_or_low (bit_or (bit_and b c) (bit_and b d)) (bit_and c d)
    ∙ rw
        (
          bit_or_half (bit_and b c) (bit_and b d),
          bit_and_half b c,
          bit_and_half b d,
          bit_and_half c d,
        )
        (omega (
          arith,
          bit_or_low (bit_and b c) (bit_and b d),
          bit_and_digit b c,
          bit_and_digit b d,
          bit_and_digit c d,
        ))

xor_majority_low :
    (b c d : ℕ)
    → xor_majority b c d ≡ xor_majority (b / 2) (c / 2) (d / 2) * 2 + (b % 2 + c % 2 + d % 2) / 2
xor_majority_low b c d =
    bit_xor_low (bit_xor (bit_and b c) (bit_and b d)) (bit_and c d)
    ∙ rw
        (
          bit_xor_half (bit_and b c) (bit_and b d),
          bit_and_half b c,
          bit_and_half b d,
          bit_and_half c d,
        )
        (omega (
          arith,
          bit_xor_low (bit_and b c) (bit_and b d),
          bit_and_digit b c,
          bit_and_digit b d,
          bit_and_digit c d,
        ))

pub majority_lem :
    (n b c d : ℕ) → b < 2 ^ n → c < 2 ^ n → d < 2 ^ n → or_majority b c d ≡ xor_majority b c d
majority_lem zero b c d p q r =
    let b0 : b ≡ 0 = omega arith in
    let c0 : c ≡ 0 = omega arith in
    let d0 : d ≡ 0 = omega arith in
    rw (b0, c0, d0, bit_and-zero 0) (omega (arith, bit_or-bitwise 0 0, bit_xor-bitwise 0 0))
majority_lem (suc n) b c d p q r = omega (
  arith,
  or_majority_low b c d,
  xor_majority_low b c d,
  majority_lem n (b / 2) (c / 2) (d / 2) (omega (arith, pow-suc 2 n)) (omega (arith, pow-suc 2 n))
      (omega (arith, pow-suc 2 n)),
)
