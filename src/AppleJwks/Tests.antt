-- ===== src/AppleJwks/Tests.antt =====
-- src/apple_jwks.rs: an accepted token.
use instance_lib.Prelude.Map.{lookup}
use instance_lib.Prelude.{some, ◌↔◌, ◌≡◌, bytes_eq, refl, codes}
use instance_lib.AppleJwks.{aud_contains, accept_claims, verify_apple_jwt}
use instance_lib.AppleJwks.Laws.{IsVerified, verify_apple_jwt_iff}
use instance_lib.Fixtures.{plain_jwt, anchors, identity}

verify_apple_jwt_example :
    (verify_apple_jwt plain_jwt
        (codes "apple")
        anchors.apple_jwt_keys
        anchors.apple_issuer
        anchors.apple_audience
      ≡ some identity)
    ↔ IsVerified plain_jwt
        (codes "apple")
        anchors.apple_jwt_keys
        anchors.apple_issuer
        anchors.apple_audience
        identity
verify_apple_jwt_example =
    verify_apple_jwt_iff plain_jwt (codes "apple") anchors.apple_jwt_keys anchors.apple_issuer
      anchors.apple_audience identity

-- That token is accepted.
accepted :
    verify_apple_jwt plain_jwt
      (codes "apple")
      anchors.apple_jwt_keys
      anchors.apple_issuer
      anchors.apple_audience
    ≡ some identity
unfolding verify_apple_jwt accept_claims aud_contains lookup bytes_eq
accepted = refl
