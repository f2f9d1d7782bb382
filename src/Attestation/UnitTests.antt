-- ===== src/Attestation/UnitTests.antt =====
-- The own tests of the certificate chain in src/attestation.rs, and their outcomes.
use instance_lib.Prelude.{
  Bytes, List, Bool, true, false, ◌&&◌, [], ◌∷◌, codes, bytes_eq, replicate, ◌≡◌, refl,
}
use instance_lib.Attestation.Quote.{pck_chain_from_quote}

abbrev same_chain : List Bytes → List Bytes → Bool
same_chain [] [] = true
same_chain (a ∷ as') (b ∷ bs) = bytes_eq a b && same_chain as' bs
same_chain _ _ = false

-- Two certificates of one byte, wrapped as PEM inside a blob that is shaped like a quote.
abbrev wrapped : Bytes
wrapped =
    0
    ∷ 1
    ∷ codes
        "binary-prefix-----BEGIN CERTIFICATE-----\nQQ==\n-----END CERTIFICATE-----\n-----BEGIN CERTIFICATE-----\nQg==\n-----END CERTIFICATE-----\n"

abbrev pck_chain_lifts_pem_blocks_leaf_first : Bool
pck_chain_lifts_pem_blocks_leaf_first =
    same_chain (pck_chain_from_quote wrapped) ((0x41 ∷ []) ∷ (0x42 ∷ []) ∷ [])

leaf_first : pck_chain_lifts_pem_blocks_leaf_first ≡ true
unfolding pck_chain_from_quote instance_lib.Codec.Base64.b64_decode_any bytes_eq
leaf_first = refl

abbrev pck_chain_of_a_quote_without_pem_is_empty : Bool
pck_chain_of_a_quote_without_pem_is_empty = same_chain (pck_chain_from_quote (replicate 128 0)) []

no_pem : pck_chain_of_a_quote_without_pem_is_empty ≡ true
unfolding pck_chain_from_quote
no_pem = refl
