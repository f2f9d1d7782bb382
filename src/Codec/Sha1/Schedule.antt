-- ===== src/Codec/Sha1/Schedule.antt =====
-- The words of a block, and the schedule that is made from them.
use instance_lib.Prelude.{
  ◌≢◌, true, sym, ap, subst, ◌∙◌, Bytes, List, ℕ, zero, suc, ◌+◌, ◌-◌, ◌*◌, ◌/◌, ◌%◌, ◌^◌, ◌<◌,
  ◌==◌, ◌∷◌, ◌++◌, [], ◌≡◌, refl, arith, get_or, length, bit_xor, Bool-cases, inl, inr, ==_iff,
  length-append,
}
use instance_lib.Prelude.Bits.{bit_or_field}
use instance_lib.Codec.Sha1.{back, u32, rotate_left, words, next_word, schedule}
use instance_lib.Codec.Sha1.Fips.{rotl, word_at, expanded}
use instance_lib.Codec.Sha1.Gates.{bit_xor_bound}

pub rotate_left_1 : (x : ℕ) → x < 2 ^ 32 → rotate_left x 1 ≡ rotl 1 x
unfolding rotate_left
rotate_left_1 x h =
    let shifted : u32 (x * 2 ^ 1) ≡ x % 2 ^ 31 * 2 ^ 1 = omega arith in
    rw shifted (bit_or_field 1 (x % 2 ^ 31) (x / 2 ^ 31) (omega arith))

pub rotate_left_5 : (x : ℕ) → x < 2 ^ 32 → rotate_left x 5 ≡ rotl 5 x
unfolding rotate_left
rotate_left_5 x h =
    let shifted : u32 (x * 2 ^ 5) ≡ x % 2 ^ 27 * 2 ^ 5 = omega arith in
    rw shifted (bit_or_field 5 (x % 2 ^ 27) (x / 2 ^ 27) (omega arith))

pub rotate_left_30 : (x : ℕ) → x < 2 ^ 32 → rotate_left x 30 ≡ rotl 30 x
unfolding rotate_left
rotate_left_30 x h =
    let shifted : u32 (x * 2 ^ 30) ≡ x % 2 ^ 2 * 2 ^ 30 = omega arith in
    rw shifted (bit_or_field 30 (x % 2 ^ 2) (x / 2 ^ 2) (omega arith))

-- The list holds the first `n` values of the function.
pub record Fills (w : List ℕ) (f : ℕ → ℕ) (n : ℕ) : Type 0 where
  pub size : length w ≡ n
  pub at_index : (t : ℕ) → t < n → get_or w t 0 ≡ f t

get_or-append : (xs ys : List ℕ) (i : ℕ) → i < length xs → get_or (xs ++ ys) i 0 ≡ get_or xs i 0
get_or-append [] ys i h = absurd (omega arith)
get_or-append (x ∷ xs) ys zero h = refl
get_or-append (x ∷ xs) ys (suc i) h = get_or-append xs ys i (omega arith)

get_or-last : (xs : List ℕ) (y : ℕ) → get_or (xs ++ y ∷ []) (length xs) 0 ≡ y
get_or-last [] y = refl
get_or-last (x ∷ xs) y = get_or-last xs y

pub length-words : (n : ℕ) (block : Bytes) → length block ≡ 4 * n → length (words block) ≡ n
unfolding words
length-words zero [] e = refl
length-words zero (a ∷ block) e = absurd (omega arith)
length-words (suc n) [] e = absurd (omega arith)
length-words (suc n) (a ∷ []) e = absurd (omega arith)
length-words (suc n) (a ∷ b ∷ []) e = absurd (omega arith)
length-words (suc n) (a ∷ b ∷ c ∷ []) e = absurd (omega arith)
length-words (suc n) (a ∷ b ∷ c ∷ d ∷ block) e = omega (arith, length-words n block (omega arith))

pub words_at :
    (block : Bytes) (t : ℕ) → 4 * t + 3 < length block → get_or (words block) t 0 ≡ word_at block t
unfolding words
words_at [] t h = absurd (omega arith)
words_at (a ∷ []) t h = absurd (omega arith)
words_at (a ∷ b ∷ []) t h = absurd (omega arith)
words_at (a ∷ b ∷ c ∷ []) t h = absurd (omega arith)
words_at (a ∷ b ∷ c ∷ d ∷ block) zero h = refl
words_at (a ∷ b ∷ c ∷ d ∷ block) (suc t) h =
    let shifted : (i : ℕ) → suc (suc (suc (suc (4 * t)))) + i ≡ suc (suc (suc (suc (4 * t + i)))) =
      λ i. omega arith in
    let first : 4 * suc t ≡ suc (suc (suc (suc (4 * t)))) = omega arith in
    rw (first, shifted 1, shifted 2, shifted 3) (words_at block t (omega arith))

module _ (m : ℕ → ℕ) (small : (t : ℕ) → m t < 2 ^ 32) where
  -- The word that follows is made of the same four words.
  mixed_words : ℕ → ℕ
  mixed_words n =
      let w = expanded n m in bit_xor (bit_xor (bit_xor (w (13 + n)) (w (8 + n))) (w (2 + n))) (w n)

  mixed_words_bound : (n : ℕ) → ((t : ℕ) → expanded n m t < 2 ^ 32) → mixed_words n < 2 ^ 32
  unfolding mixed_words
  mixed_words_bound n known =
      let w = expanded n m in
      bit_xor_bound 32 _ (w n)
        (bit_xor_bound 32 _ (w (2 + n))
          (bit_xor_bound 32 (w (13 + n)) (w (8 + n)) (known (13 + n)) (known (8 + n)))
          (known (2 + n)))
        (known n)

  expanded_bound : (n t : ℕ) → expanded n m t < 2 ^ 32
  unfolding expanded mixed_words
  expanded_bound zero t = small t
  expanded_bound (suc n) t =
      let mixes = mixed_words_bound n (expanded_bound n) in
      elim (Bool-cases (t == 16 + n)) [
        | inl e ↦ rw e (omega arith)
        | inr e ↦ rw e (expanded_bound n t)
      ]

  expanded_next : (n : ℕ) → expanded (suc n) m (16 + n) ≡ rotl 1 (mixed_words n)
  unfolding expanded mixed_words
  expanded_next n =
      let same : (16 + n == 16 + n) ≡ true = (==_iff (16 + n) (16 + n)).1 refl in rw same refl

  module _ (n : ℕ) (w : List ℕ) (i : Fills w (expanded n m) (16 + n)) where
    back_lem : (k j : ℕ) → length w - k ≡ j → j < 16 + n → back w k ≡ expanded n m j
    back_lem k j e h = rw e (i.at_index j h)

    next_word_lem : next_word w ≡ expanded (suc n) m (16 + n)
    unfolding mixed_words
    next_word_lem =
        rw
          (
            back_lem 3 (13 + n) (omega (arith, i.size)) (omega arith),
            back_lem 8 (8 + n) (omega (arith, i.size)) (omega arith),
            back_lem 14 (2 + n) (omega (arith, i.size)) (omega arith),
            back_lem 16 n (omega (arith, i.size)) (omega arith),
            expanded_next n,
          )
          (rotate_left_1 _ (mixed_words_bound n (expanded_bound n)))

  schedule_step :
      (n : ℕ) (w : List ℕ)
      → Fills w (expanded n m) (16 + n)
      → Fills (w ++ next_word w ∷ []) (expanded (suc n) m) (16 + suc n)
  unfolding expanded
  schedule_step n w i = record {
    size = omega (arith, i.size, length-append w (next_word w ∷ []));
    at_index = λ t h. elim (Bool-cases (t == 16 + n)) [
      | inl e ↦
          let last : t ≡ length w = omega (arith, i.size, (==_iff t (16 + n)).0 e) in
          rw last (
            get_or-last w (next_word w)
            ∙ next_word_lem n w i
            ∙ ap (expanded (suc n) m) (sym i.size))
      | inr e ↦
          let other : t ≢ 16 + n = λ same. cc ((==_iff t (16 + n)).1 same) in
          let before : t < 16 + n = omega arith in
          rw e (get_or-append w (next_word w ∷ []) t (omega (arith, i.size)) ∙ i.at_index t before)
    ];
  }

  schedule_lem :
      (k n : ℕ) (w : List ℕ)
      → Fills w (expanded n m) (16 + n)
      → Fills (schedule k w) (expanded (k + n) m) (16 + (k + n))
  unfolding schedule
  schedule_lem zero n w i = subst (λ j. Fills w (expanded j m) (16 + j)) (omega arith) i
  schedule_lem (suc k) n w i =
      subst (λ j. Fills (schedule k (w ++ next_word w ∷ [])) (expanded j m) (16 + j)) (omega arith)
        (schedule_lem k (suc n) (w ++ next_word w ∷ []) (schedule_step n w i))

  -- From the words of a block.
  pub schedule-Fills :
      (k : ℕ) (w : List ℕ) → Fills w m 16 → Fills (schedule k w) (expanded k m) (16 + k)
  unfolding expanded
  schedule-Fills k w i =
      subst (λ j. Fills (schedule k w) (expanded j m) (16 + j)) (omega arith) (schedule_lem k 0 w i)
