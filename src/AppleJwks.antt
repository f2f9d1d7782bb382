-- ===== src/AppleJwks.antt =====
-- src/apple_jwks.rs: the pinned key set and the check of an Apple identity token.
pub mod Laws
pub mod Keys
mod Tests
use instance_lib.Prelude.{
  leb, length, ltb, guard, any, ◌&&◌, if◌then◌else◌, not, ◌>>◌, none, ◌∷◌, [], codes, false, true,
  ◌>>=◌, bytes_eq, some, Option, List, Bytes, Bool,
}
use instance_lib.Prelude.Map.{Map, lookup, insert}
use instance_lib.Jwt.{
  Jwt, Algorithm, rs256, es256, other, Header, Validation, AppleClaims, Shape, text, array, another,
}

-- One key of the JSON document.
pub record Jwk : Type 0 where
  pub kid : Bytes
  pub n : Bytes
  pub e : Bytes
  pub kty : Option Bytes
  pub use_field : Option Bytes

pub record Jwks : Type 0 where
  pub keys : List Jwk

abbrev pub apple_issuer : Bytes
apple_issuer = codes "https://appleid.apple.com"

abbrev pub apple_audience : Bytes
apple_audience = codes "com.rayeeev.IronServer"

-- `opt.as_deref() == Some(text)`.
unfoldable pub is_some_text : Bytes → Option Bytes → Bool
is_some_text wanted none = false
is_some_text wanted (some s) = bytes_eq s wanted

-- A key for other than signatures.
unfoldable pub is_other_use : Option Bytes → Bool
is_other_use none = false
is_other_use (some u) = not (bytes_eq u (codes "sig"))

-- The tests of the loop on one key.
unfoldable pub is_usable : Jwk → Bool
unfolding is_some_text is_other_use
is_usable k = is_some_text (codes "RSA") k.kty && not (is_other_use k.use_field)

abbrev pub is_rs256 : Algorithm → Bool
is_rs256 rs256 = true
is_rs256 es256 = false
is_rs256 (other n) = false

module _ (jwt : Jwt) where
  open jwt use {Key, Value, shape, decode_header, new_validation, from_rsa_components, decode_apple}

  abbrev pub put_key : Jwk → Option Key → Map Key → Map Key
  put_key k none out = out
  put_key k (some dk) out = insert k.kid dk out

  -- The loop over the document's keys.
  unfoldable pub load_from : List Jwk → Map Key → Map Key
  load_from [] out = out
  load_from (k ∷ ks) out =
      load_from ks (if is_usable k then put_key k (from_rsa_components k.n k.e) out else out)

  -- The keys of the document that `parse_jwks` makes of the text; one that does not parse panics.
  unfoldable pub load_apple_jwt_keys : (Bytes → Option Jwks) → Bytes → Option (Map Key)
  unfolding load_from
  load_apple_jwt_keys parse_jwks jwks_json = do
    doc ← parse_jwks jwks_json
    some (load_from doc.keys [])

  -- `v.as_str() == Some(needle)`.
  unfoldable pub is_text : Bytes → Value → Bool
  is_text needle v = elim (shape v) [
    | text s ↦ bytes_eq s needle
    | array items ↦ false
    | another ↦ false
  ]

  unfoldable pub aud_contains : Value → Bytes → Bool
  unfolding is_text
  aud_contains aud needle = elim (shape aud) [
    | text s ↦ bytes_eq s needle
    | array items ↦ any (is_text needle) items
    | another ↦ false
  ]

  abbrev pub apple_validation : Bytes → Bytes → Validation
  apple_validation issuer audience = record (new_validation rs256) {
    iss = some (issuer ∷ []);
    aud = some (audience ∷ []);
    required_spec_claims = codes "iss" ∷ codes "aud" ∷ codes "exp" ∷ codes "iat" ∷ codes "sub" ∷ [];
    leeway = 60;
  }

  -- The checks on the decoded claims.
  unfoldable pub accept_claims : Bytes → Bytes → AppleClaims Value → Bool
  accept_claims issuer audience claims =
      bytes_eq claims.iss issuer
      && aud_contains claims.aud audience
      && (ltb 0 (length claims.sub) && leb (length claims.sub) 255)

  unfoldable pub verify_apple_jwt : Bytes → Map Key → Bytes → Bytes → Option (AppleClaims Value)
  verify_apple_jwt token keys issuer audience = do
    header ← decode_header token
    guard (is_rs256 header.alg)
    kid ← header.kid
    key ← lookup kid keys
    claims ← decode_apple token key (apple_validation issuer audience)
    guard (accept_claims issuer audience claims)
    some claims
