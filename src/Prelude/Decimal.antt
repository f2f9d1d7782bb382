-- ===== src/Prelude/Decimal.antt =====
-- `{}` of an unsigned integer: its decimal digits.
use Prim.Native.Nat.{ℕ, zero, suc, ◌+◌, ◌*◌, ◌-◌, ◌/◌, ◌%◌, ◌<◌}
use mathlib.Core.Path.{◌≡◌, refl, ap, sym, ◌∙◌, subst}
use mathlib.Core.Logic.{inl, inr}
use mathlib.Core.List.{[], ◌∷◌, ◌++◌}
use native.Mathlib.Omega.{arith}
use instance_lib.Prelude.Tests.{ltb, Bool-cases, if◌then◌else◌}
use instance_lib.Prelude.Text.{Bytes}

-- The number halves at least, so that it is itself fuel enough.
unfoldable pub decimal_from : ℕ → ℕ → Bytes
decimal_from zero n = []
decimal_from (suc fuel) n =
    let rest = decimal_from fuel (n / 10) in
    if ltb n 10 then (b'0' + n) ∷ [] else rest ++ (b'0' + n % 10) ∷ []

unfoldable pub decimal : ℕ → Bytes
unfolding decimal_from
decimal n = decimal_from (suc n) n

-- The number that digits stand for.
unfoldable digits_value : ℕ → Bytes → ℕ
digits_value acc [] = acc
digits_value acc (c ∷ s) = digits_value (acc * 10 + (c - b'0')) s

digits_value-append :
    (acc : ℕ) (s : Bytes) (c : ℕ)
    → digits_value acc (s ++ c ∷ []) ≡ digits_value acc s * 10 + (c - b'0')
unfolding digits_value
digits_value-append acc [] c = refl
digits_value-append acc (d ∷ s) c = digits_value-append (acc * 10 + (d - b'0')) s c

-- A fact of the digits follows from that of one digit and of one digit more.
pub decimal_from-induct :
    (P : ℕ → Bytes → Type 0)
    → ((n : ℕ) → n < 10 → P n ((b'0' + n) ∷ []))
    → ((n d : ℕ) (s : Bytes) → d < 10 → P n s → P (n * 10 + d) (s ++ (b'0' + d) ∷ []))
    → (fuel n : ℕ) → n < fuel
    → P n (decimal_from fuel n)
unfolding decimal_from
decimal_from-induct P one more zero n h = absurd (omega arith)
decimal_from-induct P one more (suc fuel) n h = elim (Bool-cases (ltb n 10)) [
  | inl small ↦ rw (decimal_from, small) (one n (ground arith))
  | inr large ↦
      let parts : n / 10 * 10 + n % 10 ≡ n = omega arith in
      rw (decimal_from, large)
        (subst (λ m. P m (decimal_from fuel (n / 10) ++ (b'0' + n % 10) ∷ [])) parts
          (more (n / 10) (n % 10) _ (omega arith)
            (decimal_from-induct P one more fuel (n / 10) (ground arith))))
]

decimal-value : (n : ℕ) → digits_value 0 (decimal n) ≡ n
unfolding digits_value decimal
decimal-value n =
    decimal_from-induct (λ m s. digits_value 0 s ≡ m) (λ m h. omega arith)
      (λ m d s h e. digits_value-append 0 s (b'0' + d) ∙ omega (arith, e)) (suc n) n (omega arith)

pub decimal_injective : (n m : ℕ) → decimal n ≡ decimal m → n ≡ m
unfolding digits_value
decimal_injective n m e = sym (decimal-value n) ∙ ap (digits_value 0) e ∙ decimal-value m
