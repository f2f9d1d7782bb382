-- ===== src/Enroll/Chain/Complete.antt =====
-- A trusted chain passes the walk of `verify_storekit_jws`.
use instance_lib.Prelude.{
  ℕ, Bytes, List, Bool, true, false, [], ◌∷◌, ◌≡◌, ◌≢◌, ◌≤◌, ◌+◌, ◌||◌, not, ltb, Option, some,
  none, refl, get_elem?, zero, suc, arith, length, bytes_eq_iff, length-traverse, ◌↔◌,
}
use instance_lib.Codec.Base64.{b64_decode_any}
use instance_lib.X509.{X509}
use instance_lib.Jwt.{Jwt}
use instance_lib.Enroll.{
  last_of, links, is_permitted, may_sign, within_path, all_permitted, verify_chain,
}
use instance_lib.Enroll.Chain.{IsIssuer, IsTrusted, IsPinnedChain, verify_chain-IsPinnedChain}

module _ (x : X509) where
  linked-links :
      (certs : List x.Cert)
      → ((i : ℕ) (cert issuer : x.Cert)
          → get_elem? certs i ≡ some cert
          → get_elem? certs (suc i) ≡ some issuer
          → x.signed_by cert issuer ≡ true)
      → links x certs ≡ true
  unfolding links
  linked-links [] h = refl
  linked-links (c ∷ []) h = refl
  linked-links (c ∷ d ∷ cs) h =
      let first = h 0 c d refl refl in
      let later = linked-links (d ∷ cs) (λ i cert issuer e f. h (suc i) cert issuer e f) in
      rw (first) later

  may_sign-true :
      (usage : Option (Option Bool)) → usage ≢ some (some false) → may_sign x usage ≡ true
  may_sign-true none h = refl
  may_sign-true (some none) h = refl
  may_sign-true (some (some true)) h = refl
  may_sign-true (some (some false)) h = absurd (h refl)

  within_path-true :
      (below : ℕ) (limit : Option ℕ)
      → ((longest : ℕ) → limit ≡ some longest → below ≤ longest)
      → within_path x (suc below) limit ≡ true
  within_path-true below none h = refl
  within_path-true below (some longest) h = let fits = h longest refl in ground arith

  issuer_permitted :
      (below : ℕ) (cert : x.Cert)
      → x.is_valid cert ≡ true
      → IsIssuer x below cert
      → is_permitted x (suc below) cert ≡ true
  unfolding is_permitted
  issuer_permitted below cert valid i =
      let path = within_path-true below i.constraints.path_len_constraint i.path in
      let usage = may_sign-true (x.key_cert_sign cert) i.usage in
      rw (valid, i.present, i.authority, path, usage) (ground arith)

  leaf_permitted : (cert : x.Cert) → x.is_valid cert ≡ true → is_permitted x 0 cert ≡ true
  unfolding is_permitted
  leaf_permitted cert valid = rw (valid) refl

  permitted-all :
      (certs : List x.Cert) (depth : ℕ)
      → ((i : ℕ) (cert : x.Cert)
          → get_elem? certs i ≡ some cert
          → is_permitted x (depth + i) cert ≡ true)
      → all_permitted x depth certs ≡ true
  unfolding all_permitted
  permitted-all [] depth h = refl
  permitted-all (c ∷ cs) depth h =
      let here : depth + 0 ≡ depth = omega arith in
      let first : is_permitted x depth c ≡ true = rw here at (h 0 c refl) in
      let later = permitted-all cs (depth + 1) (λ i cert e.
        let same : depth + 1 + i ≡ depth + suc i = omega arith in rw same (h (suc i) cert e)) in
      rw (first) later

  trusted_permitted :
      (certs : List x.Cert)
      → IsTrusted x certs
      → (i : ℕ) (cert : x.Cert) → get_elem? certs i ≡ some cert
      → is_permitted x i cert ≡ true
  trusted_permitted certs t zero cert e = leaf_permitted cert (t.current 0 cert e)
  trusted_permitted certs t (suc i) cert e =
      issuer_permitted i cert (t.current (suc i) cert e) (t.issuers i cert e)

module _ (x : X509) (jwt : Jwt) (sha256 : Bytes → Bytes) where
  IsPinnedChain-verify_chain :
      (x5c : List Bytes) (root_sha256 : Bytes) (certs : List x.Cert)
      → IsPinnedChain x jwt sha256 x5c root_sha256 certs
      → verify_chain x jwt sha256 x5c root_sha256 ≡ some certs
  unfolding verify_chain
  IsPinnedChain-verify_chain x5c root certs c =
      let t = c.trusted in
      let size : not (ltb (length x5c) 2 || ltb 5 (length x5c)) ≡ true = ground (
        arith,
        t.size,
        length-traverse b64_decode_any x5c c.ders c.decoded,
        length-traverse x.from_der c.ders certs c.parsed,
      ) in
      let pinned = (bytes_eq_iff (sha256 (last_of c.ders)) root).1 c.pinned in
      let linked = linked-links x certs t.linked in
      let permitted = permitted-all x certs 0 (λ i cert e.
        let same : 0 + i ≡ i = omega arith in rw same (trusted_permitted x certs t i cert e)) in
      rw (size, c.decoded, pinned, c.parsed, linked, permitted) refl

  -- The walk accepts a chain exactly where it has 2 to 5 certificates, decoded from its texts, the
  -- pinned digest is that of the last, each certificate is signed by the next, each is within its
  -- validity, and each but the leaf is a CA whose path length allows the certificates below it and
  -- whose key usage, where it has one, permits to sign certificates.
  pub verify_chain_iff :
      (x5c : List Bytes) (root_sha256 : Bytes) (certs : List x.Cert)
      → (verify_chain x jwt sha256 x5c root_sha256 ≡ some certs)
        ↔ IsPinnedChain x jwt sha256 x5c root_sha256 certs
  verify_chain_iff x5c root certs = (
    verify_chain-IsPinnedChain x jwt sha256 x5c root certs,
    IsPinnedChain-verify_chain x5c root certs,
  )
