-- ===== src/Prelude/Lists.antt =====
-- Lists measured and indexed by native numbers, under the library's names, and predicates on them.
use Prim.Native.Nat.{ℕ, zero, suc, ◌+◌, min}
use mathlib.Core.Path.{◌≡◌, refl, ap, sym}
use mathlib.Core.Logic.{◌⊎◌, inl, inr, ◌↔◌}
use mathlib.Core.Bool.{Bool, true, false, ◌&&◌, ◌||◌, false≢true}
use mathlib.Core.List.{List, [], ◌∷◌, ◌++◌, map}
use mathlib.Core.Option.{Option, none, some}
use native.Mathlib.Omega.{arith}

module _ {ℓ} {A : Type ℓ} where
  abbrev pub length : List A → ℕ
  length [] = 0
  length (x ∷ xs) = suc (length xs)

  abbrev pub get_elem? : List A → ℕ → Option A
  get_elem? [] i = none
  get_elem? (x ∷ xs) zero = some x
  get_elem? (x ∷ xs) (suc i) = get_elem? xs i

  abbrev pub get_or : List A → ℕ → A → A
  get_or [] i d = d
  get_or (x ∷ xs) zero d = x
  get_or (x ∷ xs) (suc i) d = get_or xs i d

  abbrev pub take : ℕ → List A → List A
  take zero xs = []
  take (suc n) [] = []
  take (suc n) (x ∷ xs) = x ∷ take n xs

  abbrev pub drop : ℕ → List A → List A
  drop zero xs = xs
  drop (suc n) [] = []
  drop (suc n) (x ∷ xs) = drop n xs

  abbrev pub replicate : ℕ → A → List A
  replicate zero a = []
  replicate (suc n) a = a ∷ replicate n a

  -- `iter().any` and `iter().all`.
  abbrev pub any : (A → Bool) → List A → Bool
  any p [] = false
  any p (x ∷ xs) = p x || any p xs

  abbrev pub all : (A → Bool) → List A → Bool
  all p [] = true
  all p (x ∷ xs) = p x && all p xs

  -- `collect::<Option<Vec<_>>>` of a mapped iterator: the first failure stops it.
  abbrev pub traverse {κ} : {B : Type κ} → (A → Option B) → List A → Option (List B)
  traverse f [] = some []
  traverse f (x ∷ xs) = elim (f x) [
    | none ↦ none
    | some b ↦ elim (traverse f xs) [ none ↦ none | some bs ↦ some (b ∷ bs) ]
  ]

  pub length-append : (xs ys : List A) → length (xs ++ ys) ≡ length xs + length ys
  length-append [] ys = omega arith
  length-append (x ∷ xs) ys = omega (arith, length-append xs ys)

  pub length-take : (n : ℕ) (xs : List A) → length (take n xs) ≡ min n (length xs)
  length-take zero xs = omega arith
  length-take (suc n) [] = omega arith
  length-take (suc n) (x ∷ xs) = omega (arith, length-take n xs)

pub append_cancel_left : {A : Type 0} (xs ys zs : List A) → xs ++ ys ≡ xs ++ zs → ys ≡ zs
append_cancel_left [] ys zs e = e
append_cancel_left (x ∷ xs) ys zs e = append_cancel_left xs ys zs (cc)

pub length-map {ℓ κ} :
    {A : Type ℓ} {B : Type κ} (xs : List A) (f : A → B) → length (map f xs) ≡ length xs
length-map [] f = refl
length-map (x ∷ xs) f = ap suc (length-map xs f)

-- Membership and absence of repeats, by recursion.
module _ {A : Type 0} where
  abbrev pub In : A → List A → Type 0
  In a [] = ⊥
  In a (x ∷ xs) = (x ≡ a) ⊎ In a xs

  abbrev pub Nodup : List A → Type 0
  Nodup [] = Unit
  Nodup (x ∷ xs) = ¬ In x xs × Nodup xs

  pub In-append_left : (a : A) (xs ys : List A) → In a xs → In a (xs ++ ys)
  In-append_left a [] ys h = absurd h
  In-append_left a (x ∷ xs) ys (inl e) = inl e
  In-append_left a (x ∷ xs) ys (inr h) = inr (In-append_left a xs ys h)

  pub In-append_right : (a : A) (xs ys : List A) → In a ys → In a (xs ++ ys)
  In-append_right a [] ys h = h
  In-append_right a (x ∷ xs) ys h = inr (In-append_right a xs ys h)

  pub In-append : (a : A) (xs ys : List A) → In a (xs ++ ys) → In a xs ⊎ In a ys
  In-append a [] ys h = inr h
  In-append a (x ∷ xs) ys (inl e) = inl (inl e)
  In-append a (x ∷ xs) ys (inr h) = elim (In-append a xs ys h) [
    | inl k ↦ inl (inr k)
    | inr k ↦ inr k
  ]

  pub Nodup-snoc : (a : A) (xs : List A) → Nodup xs → ¬ In a xs → Nodup (xs ++ a ∷ [])
  Nodup-snoc a [] n h = (λ k. k, tt)
  Nodup-snoc a (x ∷ xs) n h = (
    λ k. elim (In-append x xs (a ∷ []) k) [
      | inl k ↦ n.0 k
      | inr k ↦ elim k [ inl e ↦ h (inl (sym e)) | inr k ↦ k ]
    ],
    Nodup-snoc a xs n.1 (λ k. h (inr k)),
  )

  -- The two halves of a list without repeats share nothing.
  pub Nodup-apart : (a : A) (xs ys : List A) → Nodup (xs ++ ys) → In a xs → ¬ In a ys
  Nodup-apart a [] ys n h k = h
  Nodup-apart a (x ∷ xs) ys n (inl e) k = n.0 (In-append_right x xs ys (rw e k))
  Nodup-apart a (x ∷ xs) ys n (inr h) k = Nodup-apart a xs ys n.1 h k

  pub Nodup-append_right : (xs ys : List A) → Nodup (xs ++ ys) → Nodup ys
  Nodup-append_right [] ys n = n
  Nodup-append_right (x ∷ xs) ys n = Nodup-append_right xs ys n.1

module _ {ℓ κ} {A : Type ℓ} (P : A → Type κ) where
  abbrev pub All : List A → Type κ
  All [] = Unit
  All (x ∷ xs) = P x × All xs

  pub All-append : (xs ys : List A) → All xs → All ys → All (xs ++ ys)
  All-append [] ys h k = k
  All-append (x ∷ xs) ys h k = (h.0, All-append xs ys h.1 k)

  pub All-take : (n : ℕ) (xs : List A) → All xs → All (take n xs)
  All-take zero xs h = tt
  All-take (suc n) [] h = tt
  All-take (suc n) (x ∷ xs) h = (h.0, All-take n xs h.1)

  pub All-drop : (n : ℕ) (xs : List A) → All xs → All (drop n xs)
  All-drop zero xs h = h
  All-drop (suc n) [] h = tt
  All-drop (suc n) (x ∷ xs) h = All-drop n xs h.1

pub All-In : {A : Type 0} (P : A → Type 0) {a : A} (xs : List A) → All P xs → In a xs → P a
All-In P [] h m = absurd m
All-In P (x ∷ xs) h (inl e) = rw (← e) h.0
All-In P (x ∷ xs) h (inr m) = All-In P xs h.1 m

-- `any` finds an element, and `all` speaks of each.
module _ {A : Type 0} (p : A → Bool) where
  any-cons :
      (x : A) (xs : List A) (b : Bool)
      → p x ≡ b
      → any p (x ∷ xs) ≡ true
      → (any p xs ≡ true → (a : A) × In a xs × (p a ≡ true))
      → (a : A) × In a (x ∷ xs) × (p a ≡ true)
  any-cons x xs true e h later = (x, inl refl, e)
  any-cons x xs false e h later = let (a, m, k) = later (rw e at h) in (a, inr m, k)

  pub any→In : (xs : List A) → any p xs ≡ true → (a : A) × In a xs × (p a ≡ true)
  any→In [] h = absurd (false≢true h)
  any→In (x ∷ xs) h = any-cons x xs (p x) refl h (any→In xs)

  pub In→any : {a : A} (xs : List A) → In a xs → p a ≡ true → any p xs ≡ true
  In→any [] m e = absurd m
  In→any (x ∷ xs) (inl same) e = let e' : p x ≡ true = rw same e in rw e'
  In→any (x ∷ xs) (inr m) e = ground (arith, In→any xs m e)

  pub all_iff_All : (xs : List A) → (all p xs ≡ true) ↔ All (λ a. p a ≡ true) xs
  all_iff_All [] = (λ _. tt, λ _. refl)
  all_iff_All (x ∷ xs) = ground (arith, all_iff_All xs)

-- A traversal that succeeds keeps the length.
pub length-traverse {ℓ κ} :
    {A : Type ℓ} {B : Type κ} (f : A → Option B) (xs : List A) (ys : List B)
    → traverse f xs ≡ some ys
    → length ys ≡ length xs
length-traverse f [] [] e = refl
length-traverse f [] (y ∷ ys) e = absurd (cc)
length-traverse f (x ∷ xs) [] e = absurd (ground arith)
length-traverse f (x ∷ xs) (y ∷ ys) e = ap suc (length-traverse f xs ys (ground arith))

pub In-map :
    {A B : Type 0} (f : A → B) (b : B) (xs : List A)
    → In b (map f xs)
    → (a : A) × In a xs × (f a ≡ b)
In-map f b (x ∷ xs) (inl e) = (x, inl refl, e)
In-map f b (x ∷ xs) (inr h) = let (a, k, e) = In-map f b xs h in (a, inr k, e)
In-map f b [] h = absurd h
