-- ===== src/State/Sessions.antt =====
-- The eviction loop of `MemberStore::insert`, and the removal of a list of bearers.
use Prim.Native.Nat.{min}
use instance_lib.Prelude.{
  ◌≤◌, ◌≡◌, refl, inl, inr, none, List, [], ◌∷◌, ◌++◌, any, arith, length, Bytes, bytes_eq,
  bytes_eq_iff, if◌then◌else◌, In,
}
use instance_lib.Prelude.Map.{Map, lookup, remove, lookup-remove}
use instance_lib.State.{device_cap, evict, remove_all}

-- The loop splits the sessions: the oldest go out, the newest stay.
pub evict-append : (ss : List Bytes) → (evict ss).0 ++ (evict ss).1 ≡ ss
unfolding evict
evict-append [] = refl
evict-append (s ∷ ss) = ground (arith, evict-append ss)

pub evict-length : (ss : List Bytes) → length (evict ss).1 ≡ min device_cap (length ss)
unfolding evict
evict-length [] = omega arith
evict-length (s ∷ ss) = ground (arith, evict-length ss)

-- Where the cap is not passed, nothing goes out.
pub evict_within : (ss : List Bytes) → length ss ≤ device_cap → (evict ss).0 ≡ []
unfolding evict
evict_within [] h = refl
evict_within (s ∷ ss) h = ground arith

-- A bearer that was just pushed stays.
pub evict-last : (ss : List Bytes) (t : Bytes) → In t (evict (ss ++ t ∷ [])).1
unfolding evict
evict-last [] t = inl refl
evict-last (s ∷ ss) t = ground (arith, evict-last ss t, keeps ss t)
  where
    keeps : (ss : List Bytes) (t : Bytes) → In t (ss ++ t ∷ [])
    keeps [] t = inl refl
    keeps (s ∷ ss) t = inr (keeps ss t)

pub lookup-remove_all {ℓ} :
    {V : Type ℓ} (j : Bytes) (ts : List Bytes) (m : Map V)
    → lookup j (remove_all ts m) ≡ (if any (λ t. bytes_eq t j) ts then none else lookup j m)
unfolding remove_all
lookup-remove_all j [] m = refl
lookup-remove_all j (t ∷ ts) m =
    ground (arith, lookup-remove_all j ts (remove t m), lookup-remove j t m)

pub lookup-remove_all-In :
    {V : Type 0} (j : Bytes) (ts : List Bytes) (m : Map V)
    → In j ts
    → lookup j (remove_all ts m) ≡ none
unfolding remove_all
lookup-remove_all-In j (t ∷ ts) m (inl e) =
    rw (lookup-remove_all j (t ∷ ts) m, (bytes_eq_iff t j).1 e)
lookup-remove_all-In j (t ∷ ts) m (inr h) = lookup-remove_all-In j ts (remove t m) h
lookup-remove_all-In j [] m h = absurd h

pub lookup-remove_all_apart :
    {V : Type 0} (j : Bytes) (ts : List Bytes) (m : Map V)
    → ¬ In j ts
    → lookup j (remove_all ts m) ≡ lookup j m
unfolding remove_all
lookup-remove_all_apart j [] m h = refl
lookup-remove_all_apart j (t ∷ ts) m h = ground (
  arith,
  lookup-remove_all_apart j ts (remove t m) (λ k. h (inr k)),
  lookup-remove j t m,
  bytes_eq_iff t j,
)
