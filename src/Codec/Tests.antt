-- ===== src/Codec/Tests.antt =====
-- Inputs that meet the theorems' hypotheses.
use instance_lib.Codec.Uuid.Compare.{uuid_eq-uuid_v5_iff, octets, without_hyphens}
use instance_lib.Codec.Base64.Errors.{b64_decode_any-none_iff, HasFlaw}
use instance_lib.Codec.Sha1.Fips.{digest}
use instance_lib.Codec.Sha1.Equivalence.{sha1-digest}
use instance_lib.Codec.Uuid.Shape.{uuid_v5_lem, fields_text}
use instance_lib.Codec.Base64.{b64_encode, b64url_nopad, b64_decode_any}
use instance_lib.Prelude.{none, arith, length, ◌↔◌, some, true, [], ◌≡◌, ◌∷◌, codes}
use instance_lib.Codec.Hex.{hex_decode}
use instance_lib.Codec.Base64.RoundTrip.{b64_decode_any-encoders}
use instance_lib.Fixtures.{namespace}
use instance_lib.Codec.Sha1.{sha1}
use instance_lib.Codec.Uuid.{uuid_eq, uuid_v5}

codec_example :
    (b64_decode_any (b64url_nopad (0xfb ∷ 0xff ∷ 3 ∷ 0 ∷ [])) ≡ some (0xfb ∷ 0xff ∷ 3 ∷ 0 ∷ []))
    × (b64_decode_any (b64_encode (0xfb ∷ 0xff ∷ 3 ∷ 0 ∷ [])) ≡ some (0xfb ∷ 0xff ∷ 3 ∷ 0 ∷ []))
codec_example = b64_decode_any-encoders (0xfb ∷ 0xff ∷ 3 ∷ 0 ∷ []) (omega arith)

uuid_eq-uuid_v5_example :
    (uuid_eq
        (λ c. c ∷ [])
        (uuid_v5 namespace (codes "test-sub-000"))
        (codes "0DD14662-856C-5F35-9AE5-34CEA39F5D13")
      ≡ true)
    ↔ (hex_decode (without_hyphens (codes "0DD14662-856C-5F35-9AE5-34CEA39F5D13"))
        ≡ some (octets namespace (codes "test-sub-000")))
uuid_eq-uuid_v5_example =
    uuid_eq-uuid_v5_iff (λ c. c ∷ []) namespace (codes "test-sub-000")
      (codes "0DD14662-856C-5F35-9AE5-34CEA39F5D13") (omega arith)

b64_decode_any-none_example : (b64_decode_any (codes "QU I=") ≡ none) ↔ HasFlaw (codes "QU I=")
b64_decode_any-none_example = b64_decode_any-none_iff (codes "QU I=")

uuid_v5_lem_example :
    (uuid_v5 (1 ∷ []) (codes "sub") ≡ fields_text (digest (1 ∷ codes "sub")))
    × (length (uuid_v5 (1 ∷ []) (codes "sub")) ≡ 36)
uuid_v5_lem_example = uuid_v5_lem (1 ∷ []) (codes "sub") (omega arith) (omega arith)

sha1-digest_example : sha1 (codes "abc") ≡ digest (codes "abc")
sha1-digest_example = sha1-digest (codes "abc") (omega arith)
