-- ===== src/Attestation/Pem/Marks.antt =====
-- Where the marks of a PEM block are found.
use instance_lib.Prelude.{
  ℕ, Bytes, true, false, [], ◌∷◌, ◌++◌, ◌≡◌, ◌≢◌, ◌≤◌, ◌==◌, All, refl, Bool-cases, Option-cases,
  inl, inr, arith, ap, sym, ◌∙◌, some, none, Option, length,
}
use mathlib.Core.Option
use instance_lib.Attestation.Quote.{after_prefix, split_at}
use instance_lib.Attestation.Fuel.{split_at-length}

pub after_prefix_self : (mark s : Bytes) → after_prefix mark (mark ++ s) ≡ some s
unfolding after_prefix
after_prefix_self [] s = refl
after_prefix_self (p ∷ mark) s =
    let same : (p == p) ≡ true = ground arith in rw (same) (after_prefix_self mark s)

after_prefix-append :
    (mark s rest more : Bytes)
    → after_prefix mark s ≡ some rest
    → after_prefix mark (s ++ more) ≡ some (rest ++ more)
unfolding after_prefix
after_prefix-append [] s rest more e = ap (λ o. Option.map (λ r. r ++ more) o) e
after_prefix-append (p ∷ mark) [] rest more e = absurd (cc)
after_prefix-append (p ∷ mark) (c ∷ s) rest more e = elim (Bool-cases (p == c)) [
  | inl same ↦ rw (same) (after_prefix-append mark s rest more (rw same at e))
  | inr other ↦ absurd (cc (rw other at e))
]

-- A text that is long enough does not come to begin with the mark.
after_prefix-none :
    (mark s more : Bytes)
    → after_prefix mark s ≡ none
    → length mark ≤ length s
    → after_prefix mark (s ++ more) ≡ none
unfolding after_prefix
after_prefix-none [] s more e h = absurd (cc)
after_prefix-none (p ∷ mark) [] more e h = absurd (omega arith)
after_prefix-none (p ∷ mark) (c ∷ s) more e h = elim (Bool-cases (p == c)) [
  | inl same ↦ rw (same) (after_prefix-none mark s more (rw same at e) (omega arith))
  | inr other ↦ rw (other) refl
]

unfoldable later_by : ℕ → Option (Bytes × Bytes) → Option (Bytes × Bytes)
later_by c found = Option.map (λ (f : Bytes × Bytes). (c ∷ f.0, f.1)) found

unfoldable followed_by : Bytes → Option (Bytes × Bytes) → Option (Bytes × Bytes)
followed_by more found = Option.map (λ (f : Bytes × Bytes). (f.0, f.1 ++ more)) found

nothing_later : (c : ℕ) (before rest : Bytes) → ¬ (later_by c none ≡ some (before, rest))
unfolding later_by
nothing_later c before rest e = absurd (cc)

split_at-here :
    (mark : Bytes) (c : ℕ) (s rest : Bytes)
    → after_prefix mark (c ∷ s) ≡ some rest
    → split_at mark (c ∷ s) ≡ some ([], rest)
unfolding split_at
split_at-here mark c s rest e = rw (split_at, e) refl

split_at-later :
    (mark : Bytes) (c : ℕ) (s : Bytes)
    → after_prefix mark (c ∷ s) ≡ none
    → split_at mark (c ∷ s) ≡ later_by c (split_at mark s)
unfolding split_at later_by
split_at-later mark c s e = rw (split_at, e) refl

module _ (p : ℕ) (mark : Bytes) where
  after_prefix-other : (c : ℕ) (s : Bytes) → c ≢ p → after_prefix (p ∷ mark) (c ∷ s) ≡ none
  unfolding after_prefix
  after_prefix-other c s other = let differs : (p == c) ≡ false = ground arith in rw (differs) refl

  -- A mark that is found in a text is found there in every longer text.
  pub split_at-append :
      (s before rest more : Bytes)
      → split_at (p ∷ mark) s ≡ some (before, rest)
      → split_at (p ∷ mark) (s ++ more) ≡ some (before, rest ++ more)
  unfolding split_at after_prefix later_by followed_by
  split_at-append [] before rest more e = absurd (cc)
  split_at-append (c ∷ s) before rest more e =
      elim (Option-cases (after_prefix (p ∷ mark) (c ∷ s))) [
        | inr (r, there) ↦
            split_at-here (p ∷ mark) c (s ++ more) (r ++ more)
              (after_prefix-append (p ∷ mark) (c ∷ s) r more there)
            ∙ ap (followed_by more) (sym (split_at-here (p ∷ mark) c s r there) ∙ e)
        | inl missing ↦
            let step = split_at-later (p ∷ mark) c s missing in
            elim (Option-cases (split_at (p ∷ mark) s)) [
              | inl none_there ↦
                  absurd
                    (nothing_later c before rest (ap (later_by c) (sym none_there) ∙ sym step ∙ e))
              | inr ((b, r), there) ↦
                  let long = split_at-length (p ∷ mark) s b r there in
                  split_at-later (p ∷ mark) c (s ++ more)
                    (after_prefix-none (p ∷ mark) (c ∷ s) more missing (omega arith))
                  ∙ ap (later_by c) (split_at-append s b r more there)
                  ∙ ap (followed_by more) (ap (later_by c) (sym there) ∙ sym step ∙ e)
            ]
      ]

  -- A text without the mark's first character does not hold the mark.
  pub split_at-none : (s : Bytes) → All (λ c. c ≢ p) s → split_at (p ∷ mark) s ≡ none
  unfolding split_at after_prefix later_by
  split_at-none [] h = refl
  split_at-none (c ∷ s) (other, h) =
      split_at-later (p ∷ mark) c s (after_prefix-other c s other)
      ∙ ap (later_by c) (split_at-none s h)

  pub split_at-first :
      (s rest : Bytes)
      → All (λ c. c ≢ p) s
      → split_at (p ∷ mark) (s ++ (p ∷ mark ++ rest)) ≡ some (s, rest)
  unfolding later_by
  split_at-first [] rest h =
      split_at-here (p ∷ mark) p (mark ++ rest) rest (after_prefix_self (p ∷ mark) rest)
  split_at-first (c ∷ s) rest (other, h) =
      split_at-later (p ∷ mark) c (s ++ (p ∷ mark ++ rest)) (after_prefix-other c _ other)
      ∙ ap (later_by c) (split_at-first s rest h)
