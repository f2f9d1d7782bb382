-- ===== src/AppleJwks/Laws.antt =====
-- What an accepted token has been checked for.
use instance_lib.Prelude.{
  ◌↔◌, ltb, leb, arith, guard-eq-some, bytes_eq_iff, subst, refl, length, ◌≤◌, guard, true,
  >>=-eq-some, some, ◌≡◌, Bytes,
}
use instance_lib.Prelude.Map.{Map, lookup}
use instance_lib.Jwt.{Jwt, Algorithm, rs256, es256, other, Header, AppleClaims}
use instance_lib.AppleJwks.{
  is_rs256, aud_contains, apple_validation, accept_claims, verify_apple_jwt,
}

rs256_of : (a : Algorithm) → is_rs256 a ≡ true → a ≡ rs256
rs256_of rs256 h = refl
rs256_of es256 h = cc
rs256_of (other n) h = cc

module _ (jwt : Jwt) where
  -- All that an accepted token went through.
  pub record IsVerified (token : Bytes) (keys : Map jwt.Key) (issuer audience : Bytes)
      (claims : AppleClaims jwt.Value) : Type 0 where
    pub header : Header
    pub parsed : jwt.decode_header token ≡ some header
    pub algorithm : header.alg ≡ rs256
    pub kid : Bytes
    pub named : header.kid ≡ some kid
    pub key : jwt.Key
    pub pinned : lookup kid keys ≡ some key
    pub decoded : jwt.decode_apple token key (apple_validation jwt issuer audience) ≡ some claims
    pub issued : claims.iss ≡ issuer
    pub addressed : aud_contains jwt claims.aud audience ≡ true
    pub sub_length : (1 ≤ length claims.sub) × (length claims.sub ≤ 255)

  IsVerified-intro :
      (token : Bytes) (keys : Map jwt.Key) (issuer audience : Bytes)
      (claims : AppleClaims jwt.Value) (header : Header) (kid : Bytes) (key : jwt.Key)
      → jwt.decode_header token ≡ some header
      → is_rs256 header.alg ≡ true
      → header.kid ≡ some kid
      → lookup kid keys ≡ some key
      → jwt.decode_apple token key (apple_validation jwt issuer audience) ≡ some claims
      → accept_claims jwt issuer audience claims ≡ true
      → IsVerified token keys issuer audience claims
  unfolding accept_claims
  IsVerified-intro token keys issuer audience claims header kid key parsed alg named pinned decoded
        ok =
      record {
        header = header;
        parsed = parsed;
        algorithm = rs256_of header.alg alg;
        kid = kid;
        named = named;
        key = key;
        pinned = pinned;
        decoded = decoded;
        issued = (bytes_eq_iff claims.iss issuer).0 (ground arith);
        addressed = ground arith;
        sub_length = ground arith;
      }

  verify_apple_jwt-IsVerified :
      (token : Bytes) (keys : Map jwt.Key) (issuer audience : Bytes)
      (claims : AppleClaims jwt.Value)
      → verify_apple_jwt jwt token keys issuer audience ≡ some claims
      → IsVerified token keys issuer audience claims
  unfolding verify_apple_jwt
  verify_apple_jwt-IsVerified token keys issuer audience claims e =
      let (header, e1, k1) = >>=-eq-some (jwt.decode_header token) _ e in
      let (u, e2, k2) = >>=-eq-some (guard (is_rs256 header.alg)) _ k1 in
      let (kid, e3, k3) = >>=-eq-some header.kid _ k2 in
      let (key, e4, k4) = >>=-eq-some (lookup kid keys) _ k3 in
      let (found, e5, k5) = >>=-eq-some (jwt.decode_apple token key _) _ k4 in
      let (v, e6, k6) = >>=-eq-some (guard (accept_claims jwt issuer audience found)) _ k5 in
      let same : found ≡ claims = cc k6 in
      subst (IsVerified token keys issuer audience) same (
        IsVerified-intro token keys issuer audience found header kid key e1
          (guard-eq-some (is_rs256 header.alg) e2) e3 e4 e5
          (guard-eq-some (accept_claims jwt issuer audience found) e6))

  IsVerified-verify_apple_jwt :
      (token : Bytes) (keys : Map jwt.Key) (issuer audience : Bytes)
      (claims : AppleClaims jwt.Value)
      → IsVerified token keys issuer audience claims
      → verify_apple_jwt jwt token keys issuer audience ≡ some claims
  unfolding verify_apple_jwt accept_claims
  IsVerified-verify_apple_jwt token keys issuer audience claims v =
      let issued = (bytes_eq_iff claims.iss issuer).1 v.issued in
      let (some_sub, short_sub) = v.sub_length in
      let filled : ltb 0 (length claims.sub) ≡ true = ground arith in
      let fits : leb (length claims.sub) 255 ≡ true = ground arith in
      rw (v.parsed, v.algorithm, v.named, v.pinned, v.decoded, issued, v.addressed, filled, fits)
        refl

  -- A token is accepted exactly where a key of the pinned set, named by the token's header, decodes
  -- it under RS256 to these claims, which have the given issuer, the audience among their audiences,
  -- and a subject of 1 to 255 bytes.
  pub verify_apple_jwt_iff :
      (token : Bytes) (keys : Map jwt.Key) (issuer audience : Bytes)
      (claims : AppleClaims jwt.Value)
      → (verify_apple_jwt jwt token keys issuer audience ≡ some claims)
        ↔ IsVerified token keys issuer audience claims
  verify_apple_jwt_iff token keys issuer audience claims = (
    verify_apple_jwt-IsVerified token keys issuer audience claims,
    IsVerified-verify_apple_jwt token keys issuer audience claims,
  )
