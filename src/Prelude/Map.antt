-- ===== src/Prelude/Map.antt =====
-- `HashMap` and `HashSet` with byte-string keys, as association lists. The order of the entries
-- is no part of what a lookup sees; where the program iterates, the order is a parameter.
use mathlib.Core.Path.{◌≡◌, refl}
use mathlib.Core.Logic.{inl, inr}
use mathlib.Core.List.{List, [], ◌∷◌}
use mathlib.Core.Option.{Option, none, some}
use native.Mathlib.Omega.{arith}
use instance_lib.Prelude.Tests.{if◌then◌else◌, Bool-cases}
use instance_lib.Prelude.Lists.{In}
use instance_lib.Prelude.Text.{Bytes, bytes_eq, bytes_eq_iff, bytes_eq_refl}

abbrev pub Map {ℓ} : Type ℓ → Type ℓ
Map V = List (Bytes × V)

module _ {ℓ} {V : Type ℓ} where
  unfoldable pub lookup : Bytes → Map V → Option V
  lookup k [] = none
  lookup k ((j, v) ∷ m) = if bytes_eq j k then some v else lookup k m

  -- `HashMap::insert`: a key that is there gets the new value.
  unfoldable pub insert : Bytes → V → Map V → Map V
  insert k v [] = (k, v) ∷ []
  insert k v ((j, w) ∷ m) = if bytes_eq j k then (k, v) ∷ m else (j, w) ∷ insert k v m

  -- `HashMap::remove`.
  unfoldable pub remove : Bytes → Map V → Map V
  remove k [] = []
  remove k ((j, w) ∷ m) = if bytes_eq j k then remove k m else (j, w) ∷ remove k m

  pub lookup-insert :
      (j k : Bytes) (v : V) (m : Map V)
      → lookup j (insert k v m) ≡ (if bytes_eq k j then some v else lookup j m)
  unfolding lookup insert
  lookup-insert j k v [] = refl
  lookup-insert j k v ((i, w) ∷ m) =
      ground (arith, bytes_eq_iff k j, bytes_eq_iff i k, bytes_eq_iff i j, lookup-insert j k v m)

  pub lookup-remove :
      (j k : Bytes) (m : Map V)
      → lookup j (remove k m) ≡ (if bytes_eq k j then none else lookup j m)
  unfolding lookup remove
  lookup-remove j k [] = ground arith
  lookup-remove j k ((i, w) ∷ m) =
      ground (arith, bytes_eq_iff k j, bytes_eq_iff i k, bytes_eq_iff i j, lookup-remove j k m)

  pub lookup-insert_self : (k : Bytes) (v : V) (m : Map V) → lookup k (insert k v m) ≡ some v
  lookup-insert_self k v m = rw (lookup-insert k k v m, bytes_eq_refl k)

-- Each key once, as in every `HashMap`.
module _ {V : Type 0} where
  abbrev pub Distinct : Map V → Type 0
  Distinct [] = Unit
  Distinct ((k, v) ∷ m) = (lookup k m ≡ none) × Distinct m

  pub insert-Distinct : (k : Bytes) (v : V) (m : Map V) → Distinct m → Distinct (insert k v m)
  unfolding insert lookup
  insert-Distinct k v [] d = (refl, tt)
  insert-Distinct k v ((j, w) ∷ m) d =
      ground (
        arith,
        bytes_eq_iff j k,
        bytes_eq_iff k j,
        lookup-insert j k v m,
        insert-Distinct k v m d.1,
      )

  pub remove-Distinct : (k : Bytes) (m : Map V) → Distinct m → Distinct (remove k m)
  unfolding remove
  remove-Distinct k [] d = tt
  remove-Distinct k ((j, w) ∷ m) d = ground (arith, lookup-remove j k m, remove-Distinct k m d.1)

  pub lookup→In : (k : Bytes) (v : V) (m : Map V) → lookup k m ≡ some v → In (k, v) m
  unfolding lookup
  lookup→In k v ((j, w) ∷ m) h = elim (Bool-cases (bytes_eq j k)) [
    | inl e ↦ let same = (bytes_eq_iff j k).0 e in inl (ground arith)
    | inr e ↦ inr (lookup→In k v m (rw e at h))
  ]
  lookup→In k v m h = absurd (cc)

  pub In→lookup : (k : Bytes) (v : V) (m : Map V) → Distinct m → In (k, v) m → lookup k m ≡ some v
  unfolding lookup
  In→lookup k v [] d h = absurd h
  In→lookup k v ((j, w) ∷ m) d (inl e) = ground (arith, bytes_eq_refl k)
  In→lookup k v ((j, w) ∷ m) d (inr h) = ground (arith, bytes_eq_iff j k, In→lookup k v m d.1 h)
