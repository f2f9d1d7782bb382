-- ===== src/Prelude/Text.antt =====
-- Byte strings. A Rust `&str` is the list of its UTF-8 bytes, so text and bytes are one type.
use Prim.Native.Nat.{ℕ, ◌<◌}
use Prim.Native.Char.{code}
use Prim.Native.String.{String}
use mathlib.Core.Path.{◌≡◌, refl, subst}
use mathlib.Core.Logic.{◌↔◌}
use mathlib.Core.Bool.{Bool, true, false, ◌&&◌}
use mathlib.Core.List.{List, [], ◌∷◌}
use native.Mathlib.Omega.{arith}
use instance_lib.Prelude.Tests.{◌==◌}
use instance_lib.Prelude.Lists.{All, In, any, any→In, In→any}

abbrev pub Bytes : Type 0
Bytes = List ℕ

-- An ASCII literal.
abbrev pub codes : String → Bytes
codes String.[] = []
codes (String.◌∷◌ c s) = code c ∷ codes s

-- Every entry is a `u8`.
abbrev pub AreBytes : Bytes → Type 0
AreBytes = All (λ b. b < 256)

unfoldable pub bytes_eq : Bytes → Bytes → Bool
bytes_eq [] [] = true
bytes_eq (a ∷ xs) (b ∷ ys) = a == b && bytes_eq xs ys
bytes_eq _ _ = false

pub bytes_eq_iff : (xs ys : Bytes) → (bytes_eq xs ys ≡ true) ↔ (xs ≡ ys)
unfolding bytes_eq
bytes_eq_iff [] [] = (λ _. refl, λ _. refl)
bytes_eq_iff [] (b ∷ bs) = (λ h. cc, λ h. cc)
bytes_eq_iff (a ∷ xs) [] = (λ h. cc, λ h. cc)
bytes_eq_iff (a ∷ xs) (b ∷ ys) = ground (arith, bytes_eq_iff xs ys)

pub bytes_eq_refl : (xs : Bytes) → bytes_eq xs xs ≡ true
bytes_eq_refl xs = (bytes_eq_iff xs xs).1 refl

-- The search for a byte string decides membership.
pub any_eq_iff_In : (t : Bytes) (ts : List Bytes) → (any (λ s. bytes_eq s t) ts ≡ true) ↔ In t ts
any_eq_iff_In t ts = (
  λ h.
      let (a, m, e) = any→In (λ s. bytes_eq s t) ts h in
      subst (λ s. In s ts) ((bytes_eq_iff a t).0 e) m,
  λ m. In→any (λ s. bytes_eq s t) ts m (bytes_eq_refl t),
)
