-- ===== src/Attestation/Fuel.antt =====
-- The fuel of the loop of `pck_chain_from_quote`.
use instance_lib.Prelude.{
  refl, ◌++◌, zero, suc, [], ◌∷◌, ap, inr, inl, arith, Option, Option-cases, ◌+◌, some, ◌≤◌, length,
  ◌≡◌, ℕ, Bytes, none,
}
use instance_lib.Codec.Base64.{b64_decode_any}
use instance_lib.Attestation.Quote.{
  block_ders, after_prefix, split_at, begin_mark, end_mark, pem_blocks,
}

after_prefix-length :
    (mark s rest : Bytes) → after_prefix mark s ≡ some rest → length s ≡ length mark + length rest
unfolding after_prefix
after_prefix-length [] s rest e = omega (arith, ap (λ o. get_or_length o) e)
  where
    get_or_length : Option Bytes → ℕ
    get_or_length none = 0
    get_or_length (some r) = length r
after_prefix-length (p ∷ mark) [] rest e = absurd (cc)
after_prefix-length (p ∷ mark) (c ∷ s) rest e =
    omega (arith, after_prefix-length mark s rest (ground arith))

pub split_at-length :
    (mark s before rest : Bytes)
    → split_at mark s ≡ some (before, rest)
    → length s ≡ length before + length mark + length rest
unfolding split_at
split_at-length mark [] before rest e = elim (Option-cases (after_prefix mark [])) [
  | inl missing ↦ absurd (cc (rw missing at e))
  | inr (found, there) ↦ ground (arith, after_prefix-length mark [] found there)
]
split_at-length mark (c ∷ s) before rest e = elim (Option-cases (after_prefix mark (c ∷ s))) [
  | inr (found, there) ↦ ground (arith, after_prefix-length mark (c ∷ s) found there)
  | inl missing ↦ elim (Option-cases (split_at mark s)) [
    | inl none_there ↦ absurd (ground arith)
    | inr ((b, r), there) ↦ ground (arith, split_at-length mark s b r there)
  ]
]

-- The loop over the blocks of a text of any bytes ends within as many rounds as the text is long: any
-- two counts of rounds that are at least that give the same blocks.
pub pem_blocks_enough :
    (n m : ℕ) (text : Bytes)
    → length text ≤ n
    → length text ≤ m
    → pem_blocks n text ≡ pem_blocks m text
unfolding pem_blocks split_at after_prefix
pem_blocks_enough zero zero text h k = refl
pem_blocks_enough zero (suc m) [] h k = refl
pem_blocks_enough (suc n) zero [] h k = refl
pem_blocks_enough zero (suc m) (c ∷ text) h k = absurd (omega arith)
pem_blocks_enough (suc n) zero (c ∷ text) h k = absurd (omega arith)
pem_blocks_enough (suc n) (suc m) text h k = elim (Option-cases (split_at begin_mark text)) [
  | inl missing ↦ rw (missing, pem_blocks)
  | inr ((before, after), there) ↦ elim (Option-cases (split_at end_mark after)) [
    | inl missing ↦ rw (there, pem_blocks, missing)
    | inr ((block, rest), ends) ↦
        let begins : length begin_mark ≡ 27 = refl in
        let shorter = split_at-length begin_mark text before after there in
        let less = split_at-length end_mark after block rest ends in
        rw (there, pem_blocks, ends)
          (ap (λ ders. block_ders (b64_decode_any block) ++ ders)
            (pem_blocks_enough n m rest (omega arith) (omega arith)))
  ]
]
