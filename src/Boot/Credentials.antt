-- ===== src/Boot/Credentials.antt =====
-- What a service that booted on its pinned anchors asks of who enrols.
use instance_lib.Prelude.{
  subst, ◌≡◌, some, true, refl, Bytes, List, ℕ, Option, some-injective, >>=-elim,
}
use instance_lib.Http.{json}
use instance_lib.X509.{X509}
use instance_lib.Jwt.{Jwt, Header, rs256, AppleClaims, StoreKitPayload}
use instance_lib.State.{Inner, Pubkey}
use instance_lib.App.{Anchors}
use instance_lib.AppleJwks.{
  Jwks, apple_issuer, apple_audience, apple_validation, load_apple_jwt_keys,
}
use instance_lib.AppleJwks.Keys.{IsLast, load_apple_jwt_keys_iff}
use instance_lib.AppleJwks.Laws.{verify_apple_jwt_iff}
use instance_lib.Codec.Uuid.{uuid_v5}
use instance_lib.Enroll
use instance_lib.Enroll.{EnrollRequest, apple_root_ca_g3_sha256, names_account}
use instance_lib.Enroll.Account.{granted-IsEnrolled}
use instance_lib.Enroll.StoreKit.{IsGenuine, verify_storekit_jws_iff}
use instance_lib.Mtls.Rustls.{Rustls}
use instance_lib.Boot.{Host, Booted, main, pinned_anchors, appaccount_namespace}
use instance_lib.Boot.Laws.{main-IsStarted}

module _ (x : X509) (jwt : Jwt) (sha256 : Bytes → Bytes) {Verifier : Type 0} (r : Rustls)
    (host : Host Verifier r.PrivateKey) where
  record IsPinned (a : Anchors jwt.Key Verifier) : Type 0 where
    pub keys :
        load_apple_jwt_keys jwt host.parse_jwks host.sign_in_with_apple_jwks ≡ some a.apple_jwt_keys
    pub issuer : a.apple_issuer ≡ apple_issuer
    pub audience : a.apple_audience ≡ apple_audience
    pub bundle : a.storekit_bundle_id ≡ apple_audience
    pub root : a.storekit_root_sha256 ≡ apple_root_ca_g3_sha256
    pub namespace : a.appaccount_namespace ≡ appaccount_namespace

  pinned_anchors-IsPinned :
      (a : Anchors jwt.Key Verifier) → pinned_anchors x jwt sha256 r host ≡ some a → IsPinned a
  unfolding pinned_anchors
  pinned_anchors-IsPinned a e =
      >>=-elim (load_apple_jwt_keys jwt host.parse_jwks host.sign_in_with_apple_jwks) _ e
        (λ keys loaded e. >>=-elim (host.from_sec1_bytes _) _ e (λ orch formed e.
          subst IsPinned (some-injective _ _ e) (record {
            keys = loaded;
            issuer = refl;
            audience = refl;
            bundle = refl;
            root = refl;
            namespace = refl;
          })))

  -- A token that Apple signed for this app, with a key of the pinned document.
  pub record IsIdentity (token : Bytes) (claims : AppleClaims jwt.Value) : Type 0 where
    pub doc : Jwks
    pub parsed : host.parse_jwks host.sign_in_with_apple_jwks ≡ some doc
    pub header : Header
    pub read : jwt.decode_header token ≡ some header
    pub algorithm : header.alg ≡ rs256
    pub kid : Bytes
    pub named : header.kid ≡ some kid
    pub key : jwt.Key
    pub pinned : IsLast jwt doc.keys kid key
    pub decoded :
        jwt.decode_apple token key (apple_validation jwt apple_issuer apple_audience) ≡ some claims
    pub issued : claims.iss ≡ apple_issuer

  module _ (lowercase : ℕ → List ℕ) (b : Booted jwt.Key Verifier r.Config)
      (booted : main x jwt sha256 r host ≡ some b) where
    pinned : IsPinned b.state.anchors
    pinned =
        pinned_anchors-IsPinned b.state.anchors
          (main-IsStarted x jwt sha256 r host b booted).anchored

    verified-IsIdentity :
        (token : Bytes) (claims : AppleClaims jwt.Value)
        → instance_lib.AppleJwks.verify_apple_jwt jwt token b.state.anchors.apple_jwt_keys
            b.state.anchors.apple_issuer b.state.anchors.apple_audience
          ≡ some claims
        → IsIdentity token claims
    verified-IsIdentity token claims e =
        let v =
          (verify_apple_jwt_iff jwt token b.state.anchors.apple_jwt_keys _ _ claims).0
            (rw (pinned.issuer, pinned.audience) at e) in
        let (doc, parsed, exact) =
          load_apple_jwt_keys_iff jwt host.parse_jwks host.sign_in_with_apple_jwks
            b.state.anchors.apple_jwt_keys pinned.keys in
        record {
          doc = doc;
          parsed = parsed;
          header = v.header;
          read = v.parsed;
          algorithm = v.algorithm;
          kid = v.kid;
          named = v.named;
          key = v.key;
          pinned = (exact v.kid v.key).0 v.pinned;
          decoded = v.decoded;
          issued = v.issued;
        }

    -- On a service that booted, whatever its store holds: a request to enrol that gets a bearer showed
    -- a token of Apple, decoded under RS256 by the key that the pinned document last has for the
    -- token's `kid`, with the issuer and for the app that are fixed in the code; and a transaction that
    -- a chain to Apple's root G3 signed, for this app, which names the UUIDv5 of the token's subject
    -- under the fixed namespace.
    pub main_credentials :
        (members : Inner) (random : Bytes) (client : Option Pubkey) (req : EnrollRequest)
        (token : Bytes)
        → (instance_lib.Enroll.handler x jwt sha256 lowercase
            (record b.state { members = members })
            random
            client
            req).1
          ≡ json token
        → (claims : AppleClaims jwt.Value) × (tx : StoreKitPayload) × IsIdentity
            req.apple_identity_jwt claims
          × IsGenuine x jwt sha256 req.storekit_jws apple_root_ca_g3_sha256 apple_audience tx
          × (names_account x jwt sha256 lowercase
                (uuid_v5 appaccount_namespace claims.sub)
                tx.app_account_token
              ≡ true)
    main_credentials members random client req token said =
        let (pk, e) =
          granted-IsEnrolled x jwt sha256 lowercase (record b.state { members = members }) random
            client req token said in
        (
          e.claims,
          e.tx,
          verified-IsIdentity req.apple_identity_jwt e.claims e.apple,
          rw (← pinned.root, ← pinned.bundle)
              ((verify_storekit_jws_iff x jwt sha256 req.storekit_jws _ _ e.tx).0 e.storekit),
          rw (← pinned.namespace) e.account,
        )
