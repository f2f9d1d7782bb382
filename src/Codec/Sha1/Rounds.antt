-- ===== src/Codec/Sha1/Rounds.antt =====
-- The rounds over a schedule.
use instance_lib.Prelude.{
  ap, List, ℕ, zero, suc, ◌+◌, ◌^◌, ◌<◌, ◌∷◌, [], ◌≡◌, ◌∙◌, refl, arith, get_or, length, Bool-cases,
  inl, inr, ltb,
}
use instance_lib.Codec.Sha1.{Digest, round, rounds, mixed}
use instance_lib.Codec.Sha1.Fips.{rotl, logical, constant, working}
use instance_lib.Codec.Sha1.Gates.{choose_lem, majority_lem}
use instance_lib.Codec.Sha1.Schedule.{rotate_left_5, rotate_left_30, Fills}

-- All words have 32 digits.
pub record IsWords (s : Digest) : Type 0 where
  pub a : s.a < 2 ^ 32
  pub b : s.b < 2 ^ 32
  pub c : s.c < 2 ^ 32
  pub d : s.d < 2 ^ 32
  pub e : s.e < 2 ^ 32

mixed_lem : (t : ℕ) (s : Digest) → IsWords s → mixed t s ≡ logical t s.b s.c s.d + constant t
mixed_lem t s i = elim (Bool-cases (ltb t 20)) [
  | inl e ↦ rw (e, choose_lem 32 s.b s.c s.d i.b) refl
  | inr e ↦ elim (Bool-cases (ltb t 40)) [
    | inl f ↦ rw (e, f) refl
    | inr f ↦ elim (Bool-cases (ltb t 60)) [
      | inl g ↦ rw (e, f, g, majority_lem 32 s.b s.c s.d i.b i.c i.d) refl
      | inr g ↦ rw (e, f, g) refl
    ]
  ]
]

summands : (p q r u v : ℕ) → p + (q + r) + u + v ≡ p + q + u + r + v
summands p q r u v = omega arith

module _ (w : ℕ → ℕ) (h : Digest) (i : IsWords h) where
  pub working-IsWords : (t : ℕ) → IsWords (working w h t)
  unfolding working
  working-IsWords zero = i
  working-IsWords (suc t) =
      let before = working-IsWords t in
      record {
        a = omega arith;
        b = before.a;
        c = omega (arith, before.b);
        d = before.c;
        e = before.d;
      }

  round_lem : (t x : ℕ) → x ≡ w t → round t x (working w h t) ≡ working w h (suc t)
  unfolding round working
  round_lem t x e =
      let s = working w h t in
      let before = working-IsWords t in
      rw (mixed_lem t s before, rotate_left_5 s.a before.a, rotate_left_30 s.b before.b, e)
        (rw (summands (rotl 5 s.a) (logical t s.b s.c s.d) (constant t) s.e (w t)) refl)

  rounds_lem :
      (t : ℕ) (ws : List ℕ)
      → ((j : ℕ) → j < length ws → get_or ws j 0 ≡ w (t + j))
      → rounds t ws (working w h t) ≡ working w h (t + length ws)
  unfolding rounds
  rounds_lem t [] fits = ap (working w h) (omega arith)
  rounds_lem t (x ∷ ws) fits =
      let first : x ≡ w t = fits 0 (omega arith) ∙ ap w (omega arith) in
      let count : t + 1 ≡ suc t = omega arith in
      rw (round_lem t x first, count)
        (rounds_lem (suc t) ws (λ j later. fits (suc j) (omega arith) ∙ ap w (omega arith))
          ∙ ap (working w h) (omega arith))

  pub rounds-Fills : (n : ℕ) (ws : List ℕ) → Fills ws w n → rounds 0 ws h ≡ working w h n
  unfolding working
  rounds-Fills n ws filled =
      rounds_lem 0 ws
        (λ j later. filled.at_index j (omega (arith, filled.size)) ∙ ap w (omega arith))
      ∙ ap (working w h) (omega (arith, filled.size))
