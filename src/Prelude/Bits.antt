-- ===== src/Prelude/Bits.antt =====
-- `|` of disjoint fields and `&` with a low mask, as arithmetic.
use Prim.Native.Nat.{
  ℕ, zero, suc, ◌+◌, ◌*◌, ◌/◌, ◌%◌, ◌^◌, ◌≤◌, ◌<◌, min, max, digits, bitwise, bit_and, bit_or,
  bit_xor, bit_and-bitwise, bit_or-bitwise, bit_xor-bitwise, differ,
}
use mathlib.Core.Path.{◌≡◌, refl, ap}
use native.Mathlib.Nat.{pow-suc}
use native.Mathlib.Omega.{arith}

-- The count of digits to go may be any that is large enough.
module _ (tail : ℕ → ℕ) (digit : ℕ → ℕ → ℕ) where
  digits_count :
      (x y : ℕ) (i j : ℕ) → x ≤ i → x ≤ j → digits tail digit i x y ≡ digits tail digit j x y
  digits_count zero y zero zero low high = refl
  digits_count zero y (suc i) zero low high = refl
  digits_count zero y zero (suc j) low high = refl
  digits_count zero y (suc i) (suc j) low high = refl
  digits_count (suc x) y (suc i) (suc j) low high =
      ap (λ d. d * 2 + digit (suc x % 2) (y % 2))
        (digits_count (suc x / 2) (y / 2) i j (omega arith) (omega arith))
  digits_count (suc x) y zero j low high = absurd (omega arith)
  digits_count (suc x) y (suc i) zero low high = absurd (omega arith)

  bitwise-suc :
      (x y : ℕ)
      → bitwise tail digit (suc x) y
        ≡ bitwise tail digit (suc x / 2) (y / 2) * 2 + digit (suc x % 2) (y % 2)
  bitwise-suc x y =
      ap (λ d. d * 2 + digit (suc x % 2) (y % 2))
        (digits_count (suc x / 2) (y / 2) x (suc x / 2) (omega arith) (omega arith))

pub bit_or_low : (a b : ℕ) → bit_or a b ≡ bit_or (a / 2) (b / 2) * 2 + max (a % 2) (b % 2)
bit_or_low zero b = omega (arith, bit_or-bitwise 0 b, bit_or-bitwise 0 (b / 2))
bit_or_low (suc a) b = omega (
  arith,
  bit_or-bitwise (suc a) b,
  bit_or-bitwise (suc a / 2) (b / 2),
  bitwise-suc (λ b. b) max a b,
)

pub bit_and_low : (a b : ℕ) → bit_and a b ≡ bit_and (a / 2) (b / 2) * 2 + min (a % 2) (b % 2)
bit_and_low zero b = omega (arith, bit_and-bitwise 0 b, bit_and-bitwise 0 (b / 2))
bit_and_low (suc a) b = omega (
  arith,
  bit_and-bitwise (suc a) b,
  bit_and-bitwise (suc a / 2) (b / 2),
  bitwise-suc (λ b. zero) min a b,
)

differ-digit : (a b : ℕ) → a < 2 → b < 2 → differ a b ≡ (a + b) % 2
differ-digit zero b p q = omega arith
differ-digit (suc zero) zero p q = refl
differ-digit (suc zero) (suc zero) p q = refl
differ-digit (suc zero) (suc (suc b)) p q = absurd (omega arith)
differ-digit (suc (suc a)) b p q = absurd (omega arith)

pub bit_xor_low : (a b : ℕ) → bit_xor a b ≡ bit_xor (a / 2) (b / 2) * 2 + (a % 2 + b % 2) % 2
bit_xor_low zero b = omega (arith, bit_xor-bitwise 0 b, bit_xor-bitwise 0 (b / 2))
bit_xor_low (suc a) b = omega (
  arith,
  bit_xor-bitwise (suc a) b,
  bit_xor-bitwise (suc a / 2) (b / 2),
  bitwise-suc (λ b. b) differ a b,
  differ-digit (suc a % 2) (b % 2) (omega arith) (omega arith),
)

bit_or-zero_below : (n a : ℕ) → a ≤ n → bit_or a 0 ≡ a
bit_or-zero_below n zero h = omega (arith, bit_or-bitwise 0 0)
bit_or-zero_below zero (suc a) h = absurd (omega arith)
bit_or-zero_below (suc n) (suc a) h =
    omega (arith, bit_or_low (suc a) 0, bit_or-zero_below n (suc a / 2) (omega arith))

bit_and-zero_below : (n a : ℕ) → a ≤ n → bit_and a 0 ≡ 0
bit_and-zero_below n zero h = omega (arith, bit_and-bitwise 0 0)
bit_and-zero_below zero (suc a) h = absurd (omega arith)
bit_and-zero_below (suc n) (suc a) h =
    omega (arith, bit_and_low (suc a) 0, bit_and-zero_below n (suc a / 2) (omega arith))

-- `(q << k) | r` is a sum where `r` fits in `k` bits.
pub bit_or_field : (k q r : ℕ) → r < 2 ^ k → bit_or (q * 2 ^ k) r ≡ q * 2 ^ k + r
bit_or_field zero q r h = ground (arith, bit_or-zero_below q q)
bit_or_field (suc k) q r h =
    let shifted : q * 2 ^ suc k ≡ q * 2 ^ k * 2 =
      omega (arith, ap (λ (t : ℕ). q * t) (pow-suc 2 k)) in
    let half = bit_or_field k q (r / 2) (omega (arith, pow-suc 2 k)) in
    rw shifted (ground (arith, bit_or_low (q * 2 ^ k * 2) r, half))

pub bit_and_1 : (a : ℕ) → bit_and a 1 ≡ a % 2
bit_and_1 a = omega (arith, bit_and_low a 1, bit_and-zero_below (a / 2) (a / 2) (omega arith))

bit_and_3 : (a : ℕ) → bit_and a 3 ≡ a % 4
bit_and_3 a = omega (arith, bit_and_low a 3, bit_and_1 (a / 2))

bit_and_7 : (a : ℕ) → bit_and a 7 ≡ a % 8
bit_and_7 a = omega (arith, bit_and_low a 7, bit_and_3 (a / 2))

pub bit_and_15 : (a : ℕ) → bit_and a 0x0f ≡ a % 16
bit_and_15 a = omega (arith, bit_and_low a 15, bit_and_7 (a / 2))

bit_and_31 : (a : ℕ) → bit_and a 31 ≡ a % 32
bit_and_31 a = omega (arith, bit_and_low a 31, bit_and_15 (a / 2))

pub bit_and_63 : (a : ℕ) → bit_and a 63 ≡ a % 64
bit_and_63 a = omega (arith, bit_and_low a 63, bit_and_31 (a / 2))
