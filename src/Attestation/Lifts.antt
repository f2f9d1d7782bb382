-- ===== src/Attestation/Lifts.antt =====
-- src/attestation.rs: the loop of `pck_chain_from_quote`, as a relation that counts no rounds.
use instance_lib.Prelude.{
  zero, suc, ℕ, Bytes, List, [], ◌∷◌, ◌++◌, ◌≡◌, ◌≢◌, ◌≤◌, ◌==◌, refl, ap, Option, none, some,
  Option-cases, Bool-cases, inl, inr, arith, length, codes,
}
use instance_lib.Codec.Base64.{b64_decode_any}
use instance_lib.Attestation.Quote.{
  begin_mark, end_mark, after_prefix, split_at, block_ders, pem_blocks, from_utf8_lossy,
  pck_chain_from_quote,
}
use instance_lib.Attestation.Fuel.{split_at-length}
use instance_lib.Attestation.Pem.Marks.{after_prefix_self}

-- The mark stands in the text after `before`, and nowhere earlier.
abbrev pub IsFirst : Bytes → Bytes → Bytes → Bytes → Type 0
IsFirst mark s before rest =
    (s ≡ before ++ (mark ++ rest))
    × ((b r : Bytes) → s ≡ b ++ (mark ++ r) → length before ≤ length b)

abbrev pub Lacks : Bytes → Bytes → Type 0
Lacks mark s = (b r : Bytes) → ¬ (s ≡ b ++ (mark ++ r))

-- The certificates that are lifted out of a text: a derivation is finite, one node for each round.
pub data Lifts : Bytes → List Bytes → Type 0 where
  no_begin : (text : Bytes) → Lacks (codes "-----BEGIN CERTIFICATE-----") text → Lifts text []
  no_end :
      (text before after : Bytes)
      → IsFirst (codes "-----BEGIN CERTIFICATE-----") text before after
      → Lacks (codes "-----END CERTIFICATE-----") after
      → Lifts text []
  undecoded :
      (text before after block rest : Bytes) (ders : List Bytes)
      → IsFirst (codes "-----BEGIN CERTIFICATE-----") text before after
      → IsFirst (codes "-----END CERTIFICATE-----") after block rest
      → b64_decode_any block ≡ none
      → Lifts rest ders
      → Lifts text ders
  empty_block :
      (text before after block rest : Bytes) (ders : List Bytes)
      → IsFirst (codes "-----BEGIN CERTIFICATE-----") text before after
      → IsFirst (codes "-----END CERTIFICATE-----") after block rest
      → b64_decode_any block ≡ some []
      → Lifts rest ders
      → Lifts text ders
  lifted :
      (text before after block rest der : Bytes) (ders : List Bytes)
      → IsFirst (codes "-----BEGIN CERTIFICATE-----") text before after
      → IsFirst (codes "-----END CERTIFICATE-----") after block rest
      → b64_decode_any block ≡ some der
      → der ≢ []
      → Lifts rest ders
      → Lifts text (der ∷ ders)

after_prefix-some : (mark s rest : Bytes) → after_prefix mark s ≡ some rest → s ≡ mark ++ rest
unfolding after_prefix
after_prefix-some [] s rest e = cc
after_prefix-some (p ∷ mark) [] rest e = absurd (cc)
after_prefix-some (p ∷ mark) (c ∷ s) rest e = elim (Bool-cases (p == c)) [
  | inl same ↦
      let tail = after_prefix-some mark s rest (rw same at e) in
      let head : p ≡ c = ground arith in cc
  | inr other ↦ absurd (cc (rw other at e))
]

split_at-some :
    (mark s before rest : Bytes)
    → split_at mark s ≡ some (before, rest)
    → s ≡ before ++ (mark ++ rest)
unfolding split_at
split_at-some mark [] before rest e = elim (Option-cases (after_prefix mark [])) [
  | inl missing ↦ absurd (cc (rw missing at e))
  | inr (found, there) ↦ let whole = after_prefix-some mark [] found there in cc (rw there at e)
]
split_at-some mark (c ∷ s) before rest e = elim (Option-cases (after_prefix mark (c ∷ s))) [
  | inr (found, there) ↦
      let whole = after_prefix-some mark (c ∷ s) found there in cc (rw (split_at, there) at e)
  | inl missing ↦ elim (Option-cases (split_at mark s)) [
    | inl none_there ↦ absurd (ground arith)
    | inr ((b, r), there) ↦
        let whole = split_at-some mark s b r there in cc (rw (split_at, missing, there) at e)
  ]
]

-- Where the mark stands somewhere, it is found, and not later.
split_at-early :
    (mark b r : Bytes)
    → (before : Bytes) × (rest : Bytes) × (split_at mark (b ++ (mark ++ r)) ≡ some (before, rest))
      × (length before ≤ length b)
unfolding split_at
split_at-early [] [] [] = ([], [], refl, omega arith)
split_at-early [] [] (c ∷ r) = ([], c ∷ r, refl, omega arith)
split_at-early (p ∷ mark) [] r =
    ([], r, rw (split_at, after_prefix_self (p ∷ mark) r) refl, omega arith)
split_at-early mark (c ∷ b) r = elim (Option-cases (after_prefix mark (c ∷ (b ++ (mark ++ r))))) [
  | inr (found, there) ↦ ([], found, rw (split_at, there) refl, omega arith)
  | inl missing ↦
      let (before, rest, there, early) = split_at-early mark b r in
      (c ∷ before, rest, rw (split_at, missing, there) refl, omega arith)
]

split_at-IsFirst :
    (mark s before rest : Bytes)
    → split_at mark s ≡ some (before, rest)
    → IsFirst mark s before rest
split_at-IsFirst mark s before rest e =
    (split_at-some mark s before rest e, λ b r whole. least b r whole (split_at-early mark b r))
  where
    least :
        (b r : Bytes)
        → s ≡ b ++ (mark ++ r)
        → ((x : Bytes) × (y : Bytes) × (split_at mark (b ++ (mark ++ r)) ≡ some (x, y))
            × (length x ≤ length b))
        → length before ≤ length b
    least b r whole (x, y, there, early) =
        let same : x ≡ before = cc in omega (arith, ap length same)

split_at-Lacks : (mark s : Bytes) → split_at mark s ≡ none → Lacks mark s
split_at-Lacks mark s e b r whole =
    let (x, y, there, early) = split_at-early mark b r in absurd (cc)

-- One round more.
round-Lifts :
    (text before after block rest : Bytes) (ders : List Bytes) (decoded : Option Bytes)
    → IsFirst begin_mark text before after
    → IsFirst end_mark after block rest
    → b64_decode_any block ≡ decoded
    → Lifts rest ders
    → Lifts text (block_ders decoded ++ ders)
round-Lifts text before after block rest ders none begins ends e l =
    undecoded text before after block rest ders begins ends e l
round-Lifts text before after block rest ders (some []) begins ends e l =
    empty_block text before after block rest ders begins ends e l
round-Lifts text before after block rest ders (some (b ∷ der)) begins ends e l =
    lifted text before after block rest (b ∷ der) ders begins ends e (λ h. absurd (cc)) l

pem_blocks-Lifts :
    (fuel : ℕ) (text : Bytes) → length text ≤ fuel → Lifts text (pem_blocks fuel text)
unfolding pem_blocks split_at after_prefix
pem_blocks-Lifts zero [] h = no_begin _ (split_at-Lacks begin_mark [] refl)
pem_blocks-Lifts zero (c ∷ text) h = absurd (omega arith)
pem_blocks-Lifts (suc fuel) text h = elim (Option-cases (split_at begin_mark text)) [
  | inl missing ↦ rw (pem_blocks, missing) (no_begin _ (split_at-Lacks begin_mark text missing))
  | inr ((before, after), there) ↦
      let begins = split_at-IsFirst begin_mark text before after there in
      elim (Option-cases (split_at end_mark after)) [
        | inl missing ↦
            rw (pem_blocks, there, missing)
              (no_end text before after begins (split_at-Lacks end_mark after missing))
        | inr ((block, rest), ends) ↦
            let size : length begin_mark ≡ 27 = refl in
            let shorter = split_at-length begin_mark text before after there in
            let less = split_at-length end_mark after block rest ends in
            rw (pem_blocks, there, ends)
              (round-Lifts text before after block rest (pem_blocks fuel rest)
                (b64_decode_any block) begins (split_at-IsFirst end_mark after block rest ends) refl
                (pem_blocks-Lifts fuel rest (omega arith)))
      ]
]

-- From any bytes of a quote the loop over the PEM blocks ends: there is a finite run of its rounds over
-- the text of the quote, each from the first begin mark to the first end mark after it and on to what
-- follows, whether or not the block between them decodes, and it ends where a mark is lacking; the
-- chain is what the blocks that decode to something decode to, in order.
pub pck_chain_from_quote-Lifts :
    (quote : Bytes) → Lifts (from_utf8_lossy quote) (pck_chain_from_quote quote)
unfolding pck_chain_from_quote
pck_chain_from_quote-Lifts quote =
    pem_blocks-Lifts (length (from_utf8_lossy quote)) (from_utf8_lossy quote) (omega arith)
