-- ===== src/Float.antt =====
-- IEEE 754 arithmetic in 64 bits, rounded to nearest, ties to even, on numbers that are not negative,
-- as the rate limiter of src/state.rs uses it. A number is its count of 2^-1074, the smallest that
-- `f64` has, so that every finite one is a natural number; infinity and NaN have none.
pub mod Bounds
mod Tests
use instance_lib.Prelude.{ℕ, zero, suc, ◌+◌, ◌-◌, ◌*◌, ◌/◌, ◌%◌, ◌^◌, ◌==◌, leb, ltb, if◌then◌else◌}

-- 1.0.
abbrev pub one : ℕ
one = 2 ^ 1074

-- The quotient rounded to the nearest natural number, to the even one of two that are as near.
unfoldable pub half_even : ℕ → ℕ → ℕ
half_even n d =
    if ltb (2 * (n % d)) d
    then n / d
    else if ltb d (2 * (n % d))
    then n / d + 1
    else if n / d % 2 == 0
    then n / d
    else n / d + 1

-- The distance of neighbours about n / d: the greatest power of two that leaves 53 bits of the
-- quotient, found bit by bit of its exponent, or 1 for the numbers that have fewer.
unfoldable pub spacing : ℕ → ℕ → ℕ → ℕ → ℕ
spacing zero s n d = s
spacing (suc k) s n d =
    let wider = s * 2 ^ (2 ^ k) in spacing k (if leb (d * wider * 2 ^ 52) n then wider else s) n d

-- The number nearest to n / d.
unfoldable pub nearest : ℕ → ℕ → ℕ
unfolding half_even spacing
nearest n d = let s = spacing 11 1 n d in half_even n (d * s) * s

unfoldable pub f64_of : ℕ → ℕ
unfolding nearest
f64_of n = nearest (n * one) 1

unfoldable pub f64_add : ℕ → ℕ → ℕ
unfolding nearest
f64_add a b = nearest (a + b) 1

-- For a subtrahend that is not greater.
unfoldable pub f64_sub : ℕ → ℕ → ℕ
unfolding nearest
f64_sub a b = nearest (a - b) 1

unfoldable pub f64_mul : ℕ → ℕ → ℕ
unfolding nearest
f64_mul a b = nearest (a * b) one

unfoldable pub f64_div : ℕ → ℕ → ℕ
unfolding nearest
f64_div a b = nearest (a * one) b

-- `Duration::as_secs_f64`, of a count of nanoseconds.
unfoldable pub as_secs_f64 : ℕ → ℕ
unfolding f64_of f64_add f64_div
as_secs_f64 ns = f64_add (f64_of (ns / 10 ^ 9)) (f64_div (f64_of (ns % 10 ^ 9)) (f64_of (10 ^ 9)))
