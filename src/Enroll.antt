-- ===== src/Enroll.antt =====
-- src/enroll.rs: the check of a StoreKit transaction and the `/enroll` handler.
pub mod Chain
pub mod StoreKit
pub mod Handler
pub mod Account
pub mod Entitled
mod Tests
use instance_lib.Prelude.{
  ◌++◌, codes, if◌then◌else◌, any, traverse, ◌-◌, ◌||◌, not, none, leb, length, ◌+◌, guard, ◌==◌,
  some, ◌∷◌, ◌>>=◌, bytes_eq, ◌>>◌, true, ◌&&◌, ltb, [], false, Bool, Option, Bytes, List, ℕ,
}
use instance_lib.Prelude.Map.{Map}
use instance_lib.Codec.Hex.{hex_encode, eq_ignore_ascii_case}
use instance_lib.Codec.Base64.{b64url_nopad, b64_decode_any}
use instance_lib.Codec.Uuid.{uuid_v5, uuid_eq}
use instance_lib.Http.{Response, json, err, unauthorized, forbidden, too_many_requests}
use instance_lib.Jwt.{
  Jwt, Algorithm, rs256, es256, other, Header, Validation, AppleClaims, StoreKitPayload,
}
use instance_lib.X509.{X509, BasicConstraints}
use instance_lib.Manifest.{Manifest, ManifestMember}
use instance_lib.State.{Inner, MemberEntry, Pubkey, insert}
use instance_lib.App.{AppState, Anchors}
use instance_lib.AppleJwks.{verify_apple_jwt}

-- The SHA-256 of Apple Root CA - G3.
abbrev pub apple_root_ca_g3_sha256 : Bytes
apple_root_ca_g3_sha256 =
    0x63 ∷ 0x34 ∷ 0x3a ∷ 0xbf ∷ 0xb8 ∷ 0x9a ∷ 0x6a ∷ 0x03 ∷ 0xeb ∷ 0xb5 ∷ 0x7e ∷ 0x9b ∷ 0x3f ∷ 0x5f
    ∷ 0xa7 ∷ 0xbe ∷ 0x7c ∷ 0x4f ∷ 0x5c ∷ 0x75 ∷ 0x6f ∷ 0x30 ∷ 0x17 ∷ 0xb3 ∷ 0xa8 ∷ 0xc4 ∷ 0x88
    ∷ 0xc3 ∷ 0x65 ∷ 0x3e ∷ 0x91 ∷ 0x79 ∷ []

pub record EnrollRequest : Type 0 where
  pub apple_identity_jwt : Bytes
  pub storekit_jws : Bytes

abbrev pub is_es256 : Algorithm → Bool
is_es256 rs256 = false
is_es256 es256 = true
is_es256 (other n) = false

-- `ders.last().unwrap()`; the chain is not empty there.
abbrev pub last_of : List Bytes → Bytes
last_of [] = []
last_of (der ∷ []) = der
last_of (der ∷ next ∷ ders) = last_of (next ∷ ders)

module _ (x : X509) where
  open x use {Cert, from_der, public_key, signed_by, is_valid, basic_constraints, key_cert_sign}

  -- Each certificate is signed by the next.
  unfoldable pub links : List Cert → Bool
  links [] = true
  links (cert ∷ []) = true
  links (cert ∷ issuer ∷ certs) = signed_by cert issuer && links (issuer ∷ certs)

  -- The path length constraint, where there is one: the leaf does not count.
  abbrev pub within_path : ℕ → Option ℕ → Bool
  within_path depth none = true
  within_path depth (some longest) = leb (depth - 1) longest

  -- basicConstraints must be there, well formed, and those of a CA.
  abbrev pub is_ca : ℕ → Option (Option BasicConstraints) → Bool
  is_ca depth none = false
  is_ca depth (some none) = false
  is_ca depth (some (some bc)) = bc.ca && within_path depth bc.path_len_constraint

  -- keyUsage counts only where it is there and well formed.
  abbrev pub may_sign : Option (Option Bool) → Bool
  may_sign none = true
  may_sign (some none) = true
  may_sign (some (some permitted)) = permitted

  -- The body of the loop over `parsed.iter().enumerate()`.
  unfoldable pub is_permitted : ℕ → Cert → Bool
  is_permitted depth cert =
      is_valid cert
      && (depth == 0 || is_ca depth (basic_constraints cert) && may_sign (key_cert_sign cert))

  unfoldable pub all_permitted : ℕ → List Cert → Bool
  unfolding is_permitted
  all_permitted depth [] = true
  all_permitted depth (cert ∷ certs) = is_permitted depth cert && all_permitted (depth + 1) certs

  abbrev pub leaf_key : List Cert → Bytes
  leaf_key [] = []
  leaf_key (leaf ∷ certs) = public_key leaf

module _ (x : X509) (jwt : Jwt) (sha256 : Bytes → Bytes) where
  -- From the `x5c` texts to the parsed chain; every failure is `Err(())`.
  unfoldable pub verify_chain : List Bytes → Bytes → Option (List x.Cert)
  unfolding links all_permitted
  verify_chain x5c root_sha256 = do
    guard (not (ltb (length x5c) 2 || ltb 5 (length x5c)))
    ders ← traverse b64_decode_any x5c
    guard (bytes_eq (sha256 (last_of ders)) root_sha256)
    parsed ← traverse x.from_der ders
    guard (links x parsed)
    guard (all_permitted x 0 parsed)
    some parsed

  abbrev pub storekit_validation : Validation
  storekit_validation = record (jwt.new_validation es256) {
    required_spec_claims = [];
    validate_exp = false;
    validate_aud = false;
  }

  abbrev pub is_present : Bytes → Bool
  is_present s = ltb 0 (length s)

  unfoldable pub accept_payload : Bytes → StoreKitPayload → Bool
  accept_payload expected_bundle_id payload =
      bytes_eq payload.bundle_id expected_bundle_id
      && (is_present payload.original_transaction_id
          && (is_present payload.transaction_id && is_present payload.product_id))

  unfoldable pub verify_storekit_jws : Bytes → Bytes → Bytes → Option StoreKitPayload
  unfolding verify_chain accept_payload
  verify_storekit_jws jws root_sha256 expected_bundle_id = do
    header ← jwt.decode_header jws
    guard (is_es256 header.alg)
    x5c ← header.x5c
    parsed ← verify_chain x5c root_sha256
    payload ← jwt.decode_storekit jws (jwt.from_ec_der (leaf_key x parsed)) storekit_validation
    guard (accept_payload expected_bundle_id payload)
    some payload

  -- `appAccountToken` must be there and name the authenticated subject.
  unfoldable pub names_account : (ℕ → List ℕ) → Bytes → Option Bytes → Bool
  names_account lowercase expected none = false
  names_account lowercase expected (some got) = uuid_eq lowercase expected got

  abbrev pub hash_member : Bytes → StoreKitPayload → Bytes
  hash_member sub tx = sha256 (sub ++ tx.original_transaction_id)

  unfoldable pub in_manifest : Manifest → Pubkey → Bytes → Bool
  in_manifest manifest client_pubkey member_hash =
      let pk_hex = hex_encode client_pubkey in
      let mh_hex = hex_encode member_hash in
      any
        (λ (m : ManifestMember).
          eq_ignore_ascii_case m.pubkey pk_hex && eq_ignore_ascii_case m.hash mh_hex)
        manifest.members

  -- `client` is the pubkey of the connection, `random` the 32 random bytes of this request, and
  -- `lowercase` the Unicode table beyond ASCII. The answer's body is the session token.
  module _ {Verifier : Type 0} (lowercase : ℕ → List ℕ) (state : AppState jwt.Key Verifier) where
    abbrev pub refuse : ℕ → Bytes → Inner × Response Bytes
    refuse code msg = (state.members, err code msg)

    -- The bearer is minted and put into the store.
    unfoldable pub mint : Bytes → Pubkey → Bytes → StoreKitPayload → Inner × Response Bytes
    mint random client_pubkey sub tx =
        let session_token = b64url_nopad random in
        let (members, inserted) =
          insert
            (record {
              client_pubkey = client_pubkey;
              member_hash = hash_member sub tx;
              session_token = session_token;
              original_tx_id = tx.original_transaction_id;
            })
            state.members in
        if not inserted
        then (members, err too_many_requests (codes "device cap reached"))
        else (members, json session_token)

    -- The policy checks, on verified credentials.
    unfoldable pub admit : Bytes → Pubkey → Bytes → StoreKitPayload → Inner × Response Bytes
    unfolding mint names_account in_manifest
    admit random client_pubkey sub tx =
        if not (
          names_account lowercase (uuid_v5 state.anchors.appaccount_namespace sub)
            tx.app_account_token)
        then refuse forbidden (codes "appAccountToken mismatch")
        else if not (in_manifest state.manifest client_pubkey (hash_member sub tx))
        then refuse forbidden (codes "not in cohort manifest")
        else mint random client_pubkey sub tx

    abbrev pub check_jwt : EnrollRequest → Option (AppleClaims jwt.Value)
    check_jwt req =
        verify_apple_jwt jwt req.apple_identity_jwt state.anchors.apple_jwt_keys
          state.anchors.apple_issuer state.anchors.apple_audience

    abbrev pub check_jws : EnrollRequest → Option StoreKitPayload
    check_jws req =
        verify_storekit_jws req.storekit_jws state.anchors.storekit_root_sha256
          state.anchors.storekit_bundle_id

    unfoldable pub handler : Bytes → Option Pubkey → EnrollRequest → Inner × Response Bytes
    unfolding admit
    handler random none req = refuse forbidden (codes "no client certificate")
    handler random (some client_pubkey) req = elim (check_jwt req) [
      | none ↦ refuse unauthorized (codes "apple jwt invalid")
      | some claims ↦ elim (check_jws req) [
        | none ↦ refuse unauthorized (codes "storekit jws invalid")
        | some tx ↦ admit random client_pubkey claims.sub tx
      ]
    ]
