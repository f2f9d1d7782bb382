-- ===== src/Float/Tests.antt =====
-- Sums and products of decimal fractions, as they are known to round.
use instance_lib.Prelude.{ℕ, ◌≡◌, ◌+◌, ◌*◌, ◌^◌, refl}
use instance_lib.Float.{one, nearest, f64_of, f64_add, f64_sub, f64_mul, as_secs_f64}

-- n tenths.
abbrev tenths : ℕ → ℕ
tenths n = nearest (n * one) 10

a_tenth : tenths 1 ≡ 3602879701896397 * 2 ^ 1019
unfolding nearest
a_tenth = refl

three_tenths : f64_add (tenths 1) (tenths 2) ≡ tenths 3 + 2 ^ 1020
unfolding nearest f64_add
three_tenths = refl

ten_seconds : f64_mul (as_secs_f64 (10 * 10 ^ 9)) (tenths 1) ≡ one
unfolding nearest f64_mul as_secs_f64
ten_seconds = refl

exact_difference : f64_sub (tenths 15) one ≡ tenths 5
unfolding nearest f64_sub
exact_difference = refl

-- 2^53 + 1 lies between two numbers, and goes to the even one.
tie : f64_of (2 ^ 53 + 1) ≡ 2 ^ 53 * one
unfolding f64_of
tie = refl
