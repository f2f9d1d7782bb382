-- ===== src/Attestation/Pem.antt =====
-- src/attestation.rs: the PEM bundle in a quote, as its writer lays it out, and
-- `pck_chain_from_quote` on it.
pub mod Lossy
pub mod Marks
mod Tests
use instance_lib.Prelude.{
  drop, ℕ, Bytes, List, suc, zero, [], ◌∷◌, ◌++◌, ◌≡◌, ◌≢◌, ◌<◌, ◌≤◌, All, All-append, AreBytes,
  refl, sym, ap, ◌∙◌, some, none, map, append_assoc, append-nil, length, length-append, arith,
  subst,
}
use instance_lib.Codec.Base64.{b64_encode, b64_decode_any}
use instance_lib.Codec.Base64.Lines.{
  IsPlain, unwrapped, decode-unwrapped, b64_encode-IsPlain, unwrapped-IsPlain,
}
use instance_lib.Attestation.Quote.{
  begin_mark, end_mark, split_at, block_ders, pem_blocks, from_utf8_lossy, pck_chain_from_quote,
}
use instance_lib.Attestation.Fuel.{pem_blocks_enough}
use instance_lib.Attestation.Pem.Lossy.{from_utf8_lossy-append}
use instance_lib.Attestation.Pem.Marks.{split_at-append, split_at-none, split_at-first}

-- A certificate, the lines that hold it, and what stands after its end mark.
pub record Block : Type 0 where
  pub der : Bytes
  pub body : Bytes
  pub gap : Bytes

-- The lines are the certificate in base64, and no dash stands between two blocks.
pub record IsWritten (b : Block) : Type 0 where
  pub lines : unwrapped b.body ≡ b64_encode b.der
  pub small : AreBytes b.der
  pub filled : b.der ≢ []
  pub gap : All IsPlain b.gap

unfoldable pub pem : List Block → Bytes
pem [] = []
pem (b ∷ bs) = begin_mark ++ (b.body ++ (end_mark ++ (b.gap ++ pem bs)))

without_dash : (s : Bytes) → All IsPlain s → All (λ c. c ≢ b'-') s
without_dash [] h = tt
without_dash (c ∷ s) (here, h) = (here.1, without_dash s h)

ascii : (s : Bytes) → All IsPlain s → All (λ c. c < 128) s
ascii [] h = tt
ascii (c ∷ s) (here, h) = (here.0, ascii s h)

body-IsPlain : (b : Block) → IsWritten b → All IsPlain b.body
body-IsPlain b w =
    unwrapped-IsPlain b.body (subst (All IsPlain) (sym w.lines) (b64_encode-IsPlain b.der))

pem-ascii : (bs : List Block) → All IsWritten bs → All (λ c. c < 128) (pem bs)
unfolding pem
pem-ascii [] h = tt
pem-ascii (b ∷ bs) (w, h) = All-append _ begin_mark _ (omega arith) (
    All-append _ b.body _ (ascii b.body (body-IsPlain b w)) (
      All-append _ end_mark _ (omega arith)
        (All-append _ b.gap _ (ascii b.gap w.gap) (pem-ascii bs h))))

length-pem : (bs : List Block) → length bs ≤ length (pem bs)
unfolding pem
length-pem [] = omega arith
length-pem (b ∷ bs) = omega (
  arith,
  length-append b.body (end_mark ++ (b.gap ++ pem bs)),
  length-append b.gap (pem bs),
  length-pem bs,
)

one_der : (der : Bytes) → der ≢ [] → block_ders (some der) ≡ der ∷ []
one_der [] h = absurd (h refl)
one_der (b ∷ der) h = refl

-- One round of the loop.
round :
    (fuel : ℕ) (text before rest : Bytes) (b : Block)
    → IsWritten b
    → split_at begin_mark text ≡ some (before, b.body ++ (end_mark ++ rest))
    → pem_blocks (suc fuel) text ≡ b.der ∷ pem_blocks fuel rest
unfolding pem_blocks
round fuel text before rest b w begins =
    rw
      (
        pem_blocks,
        begins,
        split_at-first b'-' (drop 1 end_mark) b.body rest (without_dash b.body (body-IsPlain b w)),
        decode-unwrapped b.body b.der w.small w.lines,
      )
      (ap (λ ders. ders ++ pem_blocks fuel rest) (one_der b.der w.filled))

rounds :
    (bs : List Block) (fuel : ℕ) (gap : Bytes)
    → All IsPlain gap
    → All IsWritten bs
    → length bs < fuel
    → pem_blocks fuel (gap ++ pem bs) ≡ map (λ b. b.der) bs
unfolding pem_blocks pem
rounds [] zero gap clean h more = absurd (omega arith)
rounds [] (suc fuel) gap clean h more =
    rw
      (
        append-nil gap,
        pem_blocks,
        split_at-none b'-' (drop 1 begin_mark) gap (without_dash gap clean),
      )
      refl
rounds (b ∷ bs) zero gap clean h more = absurd (omega arith)
rounds (b ∷ bs) (suc fuel) gap clean (w, h) more =
    round fuel (gap ++ pem (b ∷ bs)) gap (b.gap ++ pem bs) b w
      (split_at-first b'-' (drop 1 begin_mark) gap _ (without_dash gap clean))
    ∙ ap (λ ders. b.der ∷ ders) (rounds bs fuel b.gap w.gap h (omega arith))

-- A quote that is any bytes followed by a PEM bundle, where the decoded bytes hold no begin mark
-- before the bundle's first: the chain is the bundle's certificates in order, each as it was
-- encoded, whatever lines its base64 was cut into.
pub pck_chain_from_quote-pem :
    (head : Bytes) (b : Block) (bs : List Block)
    → IsWritten b
    → All IsWritten bs
    → split_at begin_mark (from_utf8_lossy head ++ begin_mark) ≡ some (from_utf8_lossy head, [])
    → pck_chain_from_quote (head ++ pem (b ∷ bs)) ≡ b.der ∷ map (λ b'. b'.der) bs
unfolding pck_chain_from_quote pem
pck_chain_from_quote-pem head b bs w h first =
    let text = from_utf8_lossy head ++ pem (b ∷ bs) in
    let after = b.body ++ (end_mark ++ (b.gap ++ pem bs)) in
    ap (λ t. pem_blocks (length t) t)
      (from_utf8_lossy-append head b'-' _ (pem-ascii (b ∷ bs) (w, h)))
    ∙ pem_blocks_enough (length text) (suc (length text)) text (omega arith) (omega arith)
    ∙ round (length text) text (from_utf8_lossy head) (b.gap ++ pem bs) b w (
        ap (split_at begin_mark) (sym (append_assoc (from_utf8_lossy head) begin_mark after))
        ∙ split_at-append b'-' (drop 1 begin_mark) (from_utf8_lossy head ++ begin_mark)
            (from_utf8_lossy head) [] after first)
    ∙ ap (λ ders. b.der ∷ ders)
        (rounds bs (length text) b.gap w.gap h
          (omega (arith, length-append (from_utf8_lossy head) (pem (b ∷ bs)), length-pem (b ∷ bs))))
