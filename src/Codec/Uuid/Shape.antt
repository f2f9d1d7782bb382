-- ===== src/Codec/Uuid/Shape.antt =====
-- The text of a UUIDv5, by the fields of RFC 4122.
use instance_lib.Prelude.{
  ap, ◌<◌, All-append, AreBytes, ◌/◌, ℕ, Bytes, ◌≡◌, ◌∷◌, [], ◌++◌, ◌+◌, ◌%◌, ◌==◌, ==_iff, every,
  every-at, bit_and, bit_or, get_or, length, refl, arith, drop, take, true,
}
use instance_lib.Prelude.Bits.{bit_and_15, bit_and_63}
use instance_lib.Codec.Hex.{hex_encode}
use instance_lib.Codec.Sha1.{initial, blocks, padded, Digest, output, sha1, to_be_bytes}
use instance_lib.Codec.Sha1.Fips.{digest}
use instance_lib.Codec.Sha1.Equivalence.{sha1-digest}
use instance_lib.Codec.Uuid.{stamped, hyphenated, uuid_v5}

-- The five fields, of 4, 2, 2, 2 and 6 octets: the digest, but the version 5 and the variant 10.
abbrev pub fields_text : Bytes → Bytes
fields_text d =
    hex_encode (take 4 d)
    ++ (b'-' ∷ hex_encode (take 2 (drop 4 d))
        ++ (b'-' ∷ hex_encode ((0x50 + get_or d 6 0 % 16) ∷ get_or d 7 0 ∷ [])
            ++ (b'-' ∷ hex_encode ((0x80 + get_or d 8 0 % 64) ∷ get_or d 9 0 ∷ [])
                ++ (b'-' ∷ hex_encode (take 6 (drop 10 d))))))

version_table : every 16 (λ r. bit_or r 0x50 == 0x50 + r) ≡ true
unfolding every
version_table = refl

pub version_lem : (a : ℕ) → bit_or (bit_and a 0x0f) 0x50 ≡ 0x50 + a % 16
version_lem a =
    rw (bit_and_15 a) ((==_iff _ _).0 (every-at 16 _ version_table (a % 16) (omega arith)))

variant_table : every 64 (λ r. bit_or r 0x80 == 0x80 + r) ≡ true
unfolding every
variant_table = refl

pub variant_lem : (a : ℕ) → bit_or (bit_and a 0x3f) 0x80 ≡ 0x80 + a % 64
variant_lem a =
    rw (bit_and_63 a) ((==_iff _ _).0 (every-at 64 _ variant_table (a % 64) (omega arith)))

output_fields :
    (h : Digest)
    → (hyphenated (hex_encode (stamped (take 16 (output h)))) ≡ fields_text (output h))
      × (length (fields_text (output h)) ≡ 36)
unfolding hyphenated hex_encode stamped to_be_bytes
output_fields h =
    (rw (version_lem (h.b / 256 % 256), variant_lem (h.c / 16777216 % 256)) refl, refl)

pub sha1-output : (data' : Bytes) → (h : Digest) × (sha1 data' ≡ output h)
unfolding sha1
sha1-output data' = let msg = padded data' in (blocks (length msg / 64) msg initial, refl)

-- Of bytes, a UUIDv5 is the text of 36 characters that RFC 4122 asks for: the first 16 octets of the
-- SHA-1 of FIPS 180-4 of the namespace and the name in five fields of lower hex, with a hyphen
-- between them, the version 5 in the upper half of octet 6 and the bits 10 at the top of octet 8.
pub uuid_v5_lem :
    (namespace name : Bytes)
    → AreBytes namespace
    → AreBytes name
    → (uuid_v5 namespace name ≡ fields_text (digest (namespace ++ name)))
      × (length (uuid_v5 namespace name) ≡ 36)
unfolding uuid_v5
uuid_v5_lem namespace name h k =
    let (d, e) = sha1-output (namespace ++ name) in
    let (same, size) = output_fields d in
    let standard = sha1-digest (namespace ++ name) (All-append (λ b. b < 256) namespace name h k) in
    (rw (e, same, ← e) (ap fields_text standard), rw (e, same) size)
