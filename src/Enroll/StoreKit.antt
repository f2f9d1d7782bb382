-- ===== src/Enroll/StoreKit.antt =====
-- What an accepted StoreKit transaction has been checked for.
use instance_lib.Prelude.{
  ◌↔◌, guard-eq-some, subst, length, guard, arith, ◌≤◌, >>=-eq-some, bytes_eq_iff, refl, List, true,
  some, Bytes, ◌≡◌,
}
use instance_lib.X509.{X509}
use instance_lib.Jwt.{Jwt, Algorithm, rs256, es256, other, Header, StoreKitPayload}
use instance_lib.Enroll.{
  List, is_es256, leaf_key, verify_chain, storekit_validation, accept_payload, is_present,
  verify_storekit_jws,
}
use instance_lib.Enroll.Chain.{IsPinnedChain, verify_chain-IsPinnedChain}
use instance_lib.Enroll.Chain.Complete.{verify_chain_iff}

es256_of : (a : Algorithm) → is_es256 a ≡ true → a ≡ es256
es256_of rs256 h = cc
es256_of es256 h = refl
es256_of (other n) h = cc

module _ (x : X509) (jwt : Jwt) (sha256 : Bytes → Bytes) where
  -- All that an accepted transaction went through.
  pub record IsGenuine (jws root_sha256 bundle_id : Bytes) (payload : StoreKitPayload)
      : Type 0 where
    pub header : Header
    pub read : jwt.decode_header jws ≡ some header
    pub algorithm : header.alg ≡ es256
    pub x5c : List Bytes
    pub carried : header.x5c ≡ some x5c
    pub certs : List x.Cert
    pub chain : IsPinnedChain x jwt sha256 x5c root_sha256 certs
    pub decoded :
        jwt.decode_storekit jws
          (jwt.from_ec_der (leaf_key x certs))
          (storekit_validation x jwt sha256)
        ≡ some payload
    pub bundle : payload.bundle_id ≡ bundle_id
    pub identified :
        (1 ≤ length payload.original_transaction_id)
        × (1 ≤ length payload.transaction_id)
        × (1 ≤ length payload.product_id)

  IsGenuine-intro :
      (jws root_sha256 bundle_id : Bytes) (payload : StoreKitPayload) (header : Header)
      (x5c : List Bytes) (certs : List x.Cert)
      → jwt.decode_header jws ≡ some header
      → is_es256 header.alg ≡ true
      → header.x5c ≡ some x5c
      → verify_chain x jwt sha256 x5c root_sha256 ≡ some certs
      → jwt.decode_storekit jws
          (jwt.from_ec_der (leaf_key x certs))
          (storekit_validation x jwt sha256)
        ≡ some payload
      → accept_payload x jwt sha256 bundle_id payload ≡ true
      → IsGenuine jws root_sha256 bundle_id payload
  unfolding accept_payload
  IsGenuine-intro jws root bundle payload header x5c certs read alg carried chain decoded ok =
      record {
        header = header;
        read = read;
        algorithm = es256_of header.alg alg;
        x5c = x5c;
        carried = carried;
        certs = certs;
        chain = verify_chain-IsPinnedChain x jwt sha256 x5c root certs chain;
        decoded = decoded;
        bundle = (bytes_eq_iff payload.bundle_id bundle).0 (ground arith);
        identified = ground arith;
      }

  verify_storekit_jws-IsGenuine :
      (jws root_sha256 bundle_id : Bytes) (payload : StoreKitPayload)
      → verify_storekit_jws x jwt sha256 jws root_sha256 bundle_id ≡ some payload
      → IsGenuine jws root_sha256 bundle_id payload
  unfolding verify_storekit_jws
  verify_storekit_jws-IsGenuine jws root bundle payload e =
      let (header, e1, k1) = >>=-eq-some (jwt.decode_header jws) _ e in
      let (u, e2, k2) = >>=-eq-some (guard (is_es256 header.alg)) _ k1 in
      let (x5c, e3, k3) = >>=-eq-some header.x5c _ k2 in
      let (certs, e4, k4) = >>=-eq-some (verify_chain x jwt sha256 x5c root) _ k3 in
      let (found, e5, k5) = >>=-eq-some (jwt.decode_storekit jws _ _) _ k4 in
      let (v, e6, k6) = >>=-eq-some (guard (accept_payload x jwt sha256 bundle found)) _ k5 in
      let same : found ≡ payload = cc k6 in
      subst (IsGenuine jws root bundle) same (
        IsGenuine-intro jws root bundle found header x5c certs e1 (guard-eq-some _ e2) e3 e4 e5
          (guard-eq-some _ e6))

  present : (s : Bytes) → 1 ≤ length s → is_present x jwt sha256 s ≡ true
  present s h = ground arith

  IsGenuine-verify_storekit_jws :
      (jws root_sha256 bundle_id : Bytes) (payload : StoreKitPayload)
      → IsGenuine jws root_sha256 bundle_id payload
      → verify_storekit_jws x jwt sha256 jws root_sha256 bundle_id ≡ some payload
  unfolding verify_storekit_jws accept_payload
  IsGenuine-verify_storekit_jws jws root bundle payload g =
      let walked = (verify_chain_iff x jwt sha256 g.x5c root g.certs).1 g.chain in
      let bundled = (bytes_eq_iff payload.bundle_id bundle).1 g.bundle in
      let (original, transaction, product) = g.identified in
      rw
        (
          g.read,
          g.algorithm,
          g.carried,
          walked,
          g.decoded,
          bundled,
          present payload.original_transaction_id original,
          present payload.transaction_id transaction,
          present payload.product_id product,
        )
        refl

  -- A transaction is accepted exactly where it is ES256, with a chain of 2 to 5 certificates that ends
  -- in the pinned root and is trusted link by link, and the key of the chain's leaf decodes it to a
  -- payload of the expected bundle whose three ids are not empty.
  pub verify_storekit_jws_iff :
      (jws root_sha256 bundle_id : Bytes) (payload : StoreKitPayload)
      → (verify_storekit_jws x jwt sha256 jws root_sha256 bundle_id ≡ some payload)
        ↔ IsGenuine jws root_sha256 bundle_id payload
  verify_storekit_jws_iff jws root bundle payload = (
    verify_storekit_jws-IsGenuine jws root bundle payload,
    IsGenuine-verify_storekit_jws jws root bundle payload,
  )
