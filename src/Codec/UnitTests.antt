-- ===== src/Codec/UnitTests.antt =====
-- The own tests of src/lib.rs and those of the encoder of src/attestation.rs, and their outcomes.
use instance_lib.Prelude.{
  Bytes, Bool, true, false, ◌&&◌, [], ◌∷◌, codes, bytes_eq, Option, some, ◌≡◌, refl,
}
use instance_lib.Codec.Hex.{hex_encode}
use instance_lib.Codec.Base64.{b64_encode, b64_decode_any}
use instance_lib.Codec.Sha1.{sha1}
use instance_lib.Codec.Uuid.{uuid_v5, uuid_eq}

abbrev sha1_fips_vectors : Bool
sha1_fips_vectors =
    bytes_eq (hex_encode (sha1 (codes "abc"))) (codes "a9993e364706816aba3e25717850c26c9cd0d89d")
    && bytes_eq (hex_encode (sha1 [])) (codes "da39a3ee5e6b4b0d3255bfef95601890afd80709")

sha1_fips : sha1_fips_vectors ≡ true
unfolding bytes_eq hex_encode sha1
sha1_fips = refl

abbrev namespace : Bytes
namespace =
    0xda ∷ 0xfb ∷ 0x6e ∷ 0x23 ∷ 0x9c ∷ 0x4d ∷ 0x5d ∷ 0x27 ∷ 0xaa ∷ 0x05 ∷ 0x3f ∷ 0x6c ∷ 0x2e ∷ 0x9e
    ∷ 0x7b ∷ 0x14 ∷ []

abbrev uuid_v5_matches_orchestrator_golden : Bool
uuid_v5_matches_orchestrator_golden =
    bytes_eq (uuid_v5 namespace (codes "test-sub-000"))
      (codes "0dd14662-856c-5f35-9ae5-34cea39f5d13")

golden : uuid_v5_matches_orchestrator_golden ≡ true
unfolding bytes_eq uuid_v5 hex_encode sha1
golden = refl

-- `unwrap` of two results, which are then compared.
abbrev decoded_alike : Option Bytes → Option Bytes → Bool
decoded_alike (some a) (some b) = bytes_eq a b
decoded_alike _ _ = false

abbrev b64_decode_both_alphabets : Bool
b64_decode_both_alphabets =
    decoded_alike (b64_decode_any (codes "SGVsbG8=")) (some (codes "Hello"))
    && decoded_alike (b64_decode_any (codes "SGVsbG8")) (some (codes "Hello"))
    && decoded_alike (b64_decode_any (codes "_--_")) (b64_decode_any (codes "/++/"))

both_alphabets : b64_decode_both_alphabets ≡ true
unfolding b64_decode_any bytes_eq
both_alphabets = refl

-- The case table beyond ASCII is not asked.
abbrev uuid_eq_ignores_case_and_hyphens : Bool
uuid_eq_ignores_case_and_hyphens =
    uuid_eq (λ c. c ∷ []) (codes "0DD14662-856C-5F35-9AE5-34CEA39F5D13")
      (codes "0dd14662856c5f359ae534cea39f5d13")

mixed_case : uuid_eq_ignores_case_and_hyphens ≡ true
unfolding uuid_eq
mixed_case = refl

abbrev b64_encode_matches_rfc4648_vectors : Bool
b64_encode_matches_rfc4648_vectors =
    bytes_eq (b64_encode []) []
    && bytes_eq (b64_encode (codes "f")) (codes "Zg==")
    && bytes_eq (b64_encode (codes "fo")) (codes "Zm8=")
    && bytes_eq (b64_encode (codes "foo")) (codes "Zm9v")
    && bytes_eq (b64_encode (codes "foob")) (codes "Zm9vYg==")
    && bytes_eq (b64_encode (codes "fooba")) (codes "Zm9vYmE=")
    && bytes_eq (b64_encode (codes "foobar")) (codes "Zm9vYmFy")

rfc4648 : b64_encode_matches_rfc4648_vectors ≡ true
unfolding bytes_eq b64_encode
rfc4648 = refl
