-- ===== src/Attestation/Pem/Tests.antt =====
-- A quote with two certificates, the first over two lines.
use instance_lib.Prelude.{[], ◌∷◌, ◌++◌, ◌≡◌, refl, codes, arith, map}
use instance_lib.Codec.Base64.{b64_encode}
use instance_lib.Codec.Base64.Lines.{unwrapped}
use instance_lib.Attestation.Quote.{begin_mark, split_at, from_utf8_lossy, pck_chain_from_quote}
use instance_lib.Attestation.Pem.{Block, IsWritten, pem, pck_chain_from_quote-pem}

abbrev leaf : Block
leaf = record { der = 0x30 ∷ 0x82 ∷ 1 ∷ 0xff ∷ []; body = codes "\nMIIB\n/w==\n"; gap = codes "\n" }

abbrev root : Block
root = record { der = 0x42 ∷ []; body = codes "\nQg==\n"; gap = 10 ∷ 0 ∷ [] }

leaf-IsWritten : IsWritten leaf
unfolding unwrapped b64_encode
leaf-IsWritten = record {
  lines = refl;
  small = omega arith;
  filled = λ e. absurd (cc);
  gap = ((omega arith, λ e. absurd (omega arith)), tt);
}

root-IsWritten : IsWritten root
unfolding unwrapped b64_encode
root-IsWritten = record {
  lines = refl;
  small = omega arith;
  filled = λ e. absurd (cc);
  gap = ((omega arith, λ e. absurd (omega arith)), ((omega arith, λ e. absurd (omega arith)), tt));
}

pck_chain_from_quote-pem_example :
    pck_chain_from_quote ((4 ∷ 0xc3 ∷ codes "quote-") ++ pem (leaf ∷ root ∷ []))
    ≡ leaf.der ∷ map (λ b. b.der) (root ∷ [])
unfolding split_at from_utf8_lossy
pck_chain_from_quote-pem_example =
    pck_chain_from_quote-pem (4 ∷ 0xc3 ∷ codes "quote-") leaf (root ∷ []) leaf-IsWritten
      (root-IsWritten, tt) refl

-- Where the bytes before the bundle hold a begin mark, the first certificate is lost.
marked_head : pck_chain_from_quote ((4 ∷ begin_mark) ++ pem (leaf ∷ root ∷ [])) ≡ root.der ∷ []
unfolding pck_chain_from_quote from_utf8_lossy instance_lib.Attestation.Quote.pem_blocks
    instance_lib.Codec.Base64.b64_decode_any pem
marked_head = refl
