-- ===== src/Enroll/Tests.antt =====
-- src/enroll.rs: a chain, a transaction and an enrolment that are accepted.
use instance_lib.Enroll.Account.{purchase_binds}
use instance_lib.Codec.Uuid.Compare.{octets}
use instance_lib.Jwt.{AppleClaims}
use instance_lib.Http.{json}
use instance_lib.Codec.Base64.{b64_decode_any}
use instance_lib.State.{empty_store, Pubkey}
use instance_lib.Prelude.{◌↔◌, [], ◌∷◌, ◌≡◌, ◌⊎◌, some, refl, codes}
use instance_lib.Enroll.{
  check_jwt, is_permitted, all_permitted, links, verify_chain, verify_storekit_jws, handler,
}
use instance_lib.Enroll.Chain.{IsPinnedChain}
use instance_lib.Enroll.Chain.Complete.{verify_chain_iff}
use instance_lib.Enroll.StoreKit.{IsGenuine, verify_storekit_jws_iff}
use instance_lib.Enroll.Handler.{IsRefused, IsGranted, handler_lem}
use instance_lib.Fixtures.{
  namespace, plain_x509, plain_jwt, digest, lower_other, state, request, point, x5c_texts,
  transaction,
}

verify_chain_example :
    (verify_chain plain_x509 plain_jwt digest x5c_texts (2 ∷ [])
      ≡ some (codes "AB" ∷ codes "BC" ∷ []))
    ↔ IsPinnedChain plain_x509 plain_jwt digest x5c_texts (2 ∷ []) (codes "AB" ∷ codes "BC" ∷ [])
verify_chain_example =
    verify_chain_iff plain_x509 plain_jwt digest x5c_texts (2 ∷ []) (codes "AB" ∷ codes "BC" ∷ [])

verify_storekit_jws_example :
    (verify_storekit_jws plain_x509 plain_jwt digest
        (codes "jws")
        (2 ∷ [])
        (codes "com.rayeeev.IronServer")
      ≡ some transaction)
    ↔ IsGenuine plain_x509 plain_jwt digest
        (codes "jws")
        (2 ∷ [])
        (codes "com.rayeeev.IronServer")
        transaction
verify_storekit_jws_example =
    verify_storekit_jws_iff plain_x509 plain_jwt digest (codes "jws") (2 ∷ [])
      (codes "com.rayeeev.IronServer") transaction

handler_example :
    let r =
      handler plain_x509 plain_jwt digest lower_other state
        (codes "random")
        (some (point 9))
        request in
    IsRefused plain_x509 plain_jwt digest lower_other state r
    ⊎ ((pk : Pubkey) × (some (point 9) ≡ some pk)
        × IsGranted plain_x509 plain_jwt digest lower_other state (codes "random") pk request r)
handler_example =
    handler_lem plain_x509 plain_jwt digest lower_other state (codes "random") (some (point 9))
      request

-- That enrolment is granted.
granted_example :
    (handler plain_x509 plain_jwt digest lower_other state
      (codes "random")
      (some (point 9))
      request).1
    ≡ json (codes "cmFuZG9t")
unfolding handler verify_storekit_jws verify_chain links all_permitted is_permitted b64_decode_any
    instance_lib.AppleJwks.verify_apple_jwt instance_lib.Prelude.bytes_eq
    instance_lib.Prelude.Map.lookup instance_lib.AppleJwks.accept_claims
    instance_lib.AppleJwks.aud_contains instance_lib.Codec.Uuid.uuid_eq
    instance_lib.Codec.Uuid.uuid_v5 instance_lib.Codec.Hex.hex_encode instance_lib.Codec.Sha1.sha1
    instance_lib.Codec.Hex.eq_ignore_ascii_case instance_lib.State.insert
    instance_lib.Codec.Base64.b64url_nopad
granted_example = refl

-- The same enrolment over an empty store, and over the one that it leaves.
purchase_binds_example :
    (claims claims' : AppleClaims plain_jwt.Value) × (check_jwt plain_x509 plain_jwt digest
        lower_other state request
      ≡ some claims)
    × (check_jwt plain_x509 plain_jwt digest lower_other state request ≡ some claims')
    × (octets namespace claims.sub ≡ octets namespace claims'.sub)
unfolding handler verify_storekit_jws verify_chain links all_permitted is_permitted b64_decode_any
    instance_lib.AppleJwks.verify_apple_jwt instance_lib.Prelude.bytes_eq
    instance_lib.Prelude.Map.lookup instance_lib.AppleJwks.accept_claims
    instance_lib.AppleJwks.aud_contains instance_lib.Codec.Uuid.uuid_eq
    instance_lib.Codec.Uuid.uuid_v5 instance_lib.Codec.Hex.hex_encode instance_lib.Codec.Sha1.sha1
    instance_lib.Codec.Hex.eq_ignore_ascii_case instance_lib.State.insert
    instance_lib.Codec.Base64.b64url_nopad
purchase_binds_example =
    purchase_binds plain_x509 plain_jwt digest lower_other state state.members empty_store
      (codes "random") (codes "later") (some (point 9)) (some (point 9)) request request
      (codes "cmFuZG9t") (codes "bGF0ZXI") refl refl refl
