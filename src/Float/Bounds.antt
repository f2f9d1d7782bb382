-- ===== src/Float/Bounds.antt =====
-- How far a result of Float is rounded up.
use instance_lib.Prelude.{
  refl, ap, ℕ, zero, suc, ◌+◌, ◌-◌, ◌*◌, ◌/◌, ◌%◌, ◌^◌, ◌≡◌, ◌≤◌, ◌<◌, ◌⊎◌, inl, inr, leb, arith,
  Bool-cases,
}
use instance_lib.Float.{
  one, half_even, spacing, nearest, f64_of, f64_add, f64_sub, f64_mul, f64_div, as_secs_f64,
}

half_even-le : (n d : ℕ) → 0 < d → 2 * (half_even n d * d) ≤ 2 * n + d
unfolding half_even
half_even-le n d h = grind arith

spacing-le :
    (k s n d : ℕ)
    → (s ≡ 1) ⊎ (d * s * 2 ^ 52 ≤ n)
    → (spacing k s n d ≡ 1) ⊎ (d * spacing k s n d * 2 ^ 52 ≤ n)
unfolding spacing
spacing-le zero s n d h = h
spacing-le (suc k) s n d h = elim (Bool-cases (leb (d * (s * 2 ^ (2 ^ k)) * 2 ^ 52) n)) [
  | inl e ↦ rw (spacing, e) (spacing-le k (s * 2 ^ (2 ^ k)) n d (inr (ground arith)))
  | inr e ↦ rw (spacing, e) (spacing-le k s n d h)
]

rounded-le :
    (n d s : ℕ)
    → 0 < d
    → (s ≡ 1) ⊎ (d * s * 2 ^ 52 ≤ n)
    → half_even n (d * s) * s * d * 2 ^ 53 ≤ n * (2 ^ 53 + 1) + d * 2 ^ 52
rounded-le n d zero h fine = omega arith
rounded-le n d (suc s) h fine =
    let positive : 0 < d * suc s = grind arith in
    let half = half_even-le n (d * suc s) positive in
    let same : half_even n (d * suc s) * (d * suc s) ≡ half_even n (d * suc s) * suc s * d =
      grind arith in
    within fine half same
  where
    within :
        (suc s ≡ 1) ⊎ (d * suc s * 2 ^ 52 ≤ n)
        → 2 * (half_even n (d * suc s) * (d * suc s)) ≤ 2 * n + d * suc s
        → half_even n (d * suc s) * (d * suc s) ≡ half_even n (d * suc s) * suc s * d
        → half_even n (d * suc s) * suc s * d * 2 ^ 53 ≤ n * (2 ^ 53 + 1) + d * 2 ^ 52
    within (inl single) half same =
        let alone : d * suc s ≡ d = grind arith in omega (arith, half, same, alone)
    within (inr wide) half same = omega (arith, half, same, wide)

-- The number nearest to n / d is above it by at most one part in 2^53, or by half of the smallest
-- number.
pub nearest-le : (n d : ℕ) → 0 < d → nearest n d * d * 2 ^ 53 ≤ n * (2 ^ 53 + 1) + d * 2 ^ 52
unfolding nearest
nearest-le n d h = rounded-le n d (spacing 11 1 n d) h (spacing-le 11 1 n d (inl refl))

pub f64_of-le : (n : ℕ) → f64_of n * 2 ^ 53 ≤ n * one * (2 ^ 53 + 1) + 2 ^ 52
unfolding f64_of
f64_of-le n = omega (arith, nearest-le (n * one) 1 (omega arith))

pub f64_add-le : (a b : ℕ) → f64_add a b * 2 ^ 53 ≤ (a + b) * (2 ^ 53 + 1) + 2 ^ 52
unfolding f64_add
f64_add-le a b = omega (arith, nearest-le (a + b) 1 (omega arith))

billion : f64_of (10 ^ 9) ≡ 10 ^ 9 * one
unfolding f64_of
billion = refl

div_billion-le :
    (a : ℕ) → f64_div a (10 ^ 9 * one) * 10 ^ 9 * 2 ^ 53 ≤ a * (2 ^ 53 + 1) + 10 ^ 9 * 2 ^ 52
unfolding f64_div
div_billion-le a = omega (arith, nearest-le (a * one) (10 ^ 9 * one) (omega arith))

pub as_secs_f64-le :
    (ns : ℕ) → as_secs_f64 ns * 10 ^ 9 * 2 ^ 51 ≤ ns * one * (2 ^ 51 + 1) + 10 ^ 9 * 2 ^ 53
unfolding as_secs_f64
as_secs_f64-le ns =
    let secs = f64_of (ns / 10 ^ 9) in
    let part = f64_div (f64_of (ns % 10 ^ 9)) (10 ^ 9 * one) in
    let same : as_secs_f64 ns ≡ f64_add secs part =
      ap (λ b. f64_add secs (f64_div (f64_of (ns % 10 ^ 9)) b)) billion in
    omega (
      arith,
      same,
      f64_of-le (ns / 10 ^ 9),
      f64_of-le (ns % 10 ^ 9),
      div_billion-le (f64_of (ns % 10 ^ 9)),
      f64_add-le secs part,
    )

pub f64_mul-le : (a b : ℕ) → f64_mul a b * one * 2 ^ 53 ≤ a * b * (2 ^ 53 + 1) + one * 2 ^ 52
unfolding f64_mul
f64_mul-le a b = omega (arith, nearest-le (a * b) one (omega arith))

pub f64_sub-le : (a b : ℕ) → f64_sub a b * 2 ^ 53 ≤ (a - b) * (2 ^ 53 + 1) + 2 ^ 52
unfolding f64_sub
f64_sub-le a b = omega (arith, nearest-le (a - b) 1 (omega arith))
