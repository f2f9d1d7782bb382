-- ===== src/Enroll/Chain.antt =====
-- The certificate walk of `verify_storekit_jws`, against a reading of it by position.
pub mod Complete
use instance_lib.Prelude.{
  length-traverse, guard-eq-some, subst, bytes_eq_iff, bytes_eq, ◌||◌, ltb, guard, traverse, not,
  >>=-eq-some, Bytes, zero, ap, ◌∙◌, [], ◌∷◌, inr, ◌+◌, inl, false, ◌≢◌, get_elem?, Option-cases,
  arith, some, length, true, ◌≡◌, ◌≤◌, suc, ℕ, List,
}
use instance_lib.Codec.Base64.{b64_decode_any}
use instance_lib.X509.{X509, BasicConstraints}
use instance_lib.Jwt.{Jwt}
use instance_lib.Enroll.{ℕ, List, last_of, links, is_permitted, all_permitted, verify_chain}

module _ (x : X509) where
  -- A certificate that may issue others, with `below` intermediates between it and the leaf.
  pub record IsIssuer (below : ℕ) (cert : x.Cert) : Type 0 where
    pub constraints : BasicConstraints
    pub present : x.basic_constraints cert ≡ some (some constraints)
    pub authority : constraints.ca ≡ true
    pub path : (longest : ℕ) → constraints.path_len_constraint ≡ some longest → below ≤ longest
    pub usage : x.key_cert_sign cert ≢ some (some false)

  -- What the walk checks of the certificates, leaf first.
  pub record IsTrusted (certs : List x.Cert) : Type 0 where
    pub size : (2 ≤ length certs) × (length certs ≤ 5)
    pub current : (i : ℕ) (cert : x.Cert) → get_elem? certs i ≡ some cert → x.is_valid cert ≡ true
    pub linked :
        (i : ℕ) (cert issuer : x.Cert)
        → get_elem? certs i ≡ some cert
        → get_elem? certs (suc i) ≡ some issuer
        → x.signed_by cert issuer ≡ true
    pub issuers : (i : ℕ) (cert : x.Cert) → get_elem? certs (suc i) ≡ some cert → IsIssuer i cert

  links-linked :
      (certs : List x.Cert) (i : ℕ) (cert issuer : x.Cert)
      → links x certs ≡ true
      → get_elem? certs i ≡ some cert
      → get_elem? certs (suc i) ≡ some issuer
      → x.signed_by cert issuer ≡ true
  unfolding links
  links-linked (c ∷ d ∷ cs) (suc i) cert issuer h e f =
      links-linked (d ∷ cs) i cert issuer (ground arith) e f
  links-linked (c ∷ d ∷ cs) zero cert issuer h e f = ground arith
  links-linked [] i cert issuer h e f = absurd (cc)
  links-linked (c ∷ []) zero cert issuer h e f = absurd (cc)
  links-linked (c ∷ []) (suc i) cert issuer h e f = absurd (cc)

  all_permitted-at :
      (certs : List x.Cert) (depth i : ℕ) (cert : x.Cert)
      → all_permitted x depth certs ≡ true
      → get_elem? certs i ≡ some cert
      → is_permitted x (depth + i) cert ≡ true
  unfolding all_permitted
  all_permitted-at [] depth i cert h e = absurd (cc)
  all_permitted-at (c ∷ cs) depth zero cert h e =
      let same : depth + 0 ≡ depth = omega arith in rw same (ground arith)
  all_permitted-at (c ∷ cs) depth (suc i) cert h e =
      let same : depth + suc i ≡ depth + 1 + i = omega arith in
      rw same (all_permitted-at cs (depth + 1) i cert (ground arith) e)

  is_permitted-valid :
      (depth : ℕ) (cert : x.Cert) → is_permitted x depth cert ≡ true → x.is_valid cert ≡ true
  unfolding is_permitted
  is_permitted-valid depth cert h = ground arith

  is_permitted-IsIssuer :
      (below : ℕ) (cert : x.Cert) → is_permitted x (suc below) cert ≡ true → IsIssuer below cert
  unfolding is_permitted
  is_permitted-IsIssuer below cert h = elim (Option-cases (x.basic_constraints cert)) [
    | inl e ↦ absurd (ground arith)
    | inr (found, e) ↦ elim (Option-cases found) [
      | inl f ↦ absurd (ground arith)
      | inr (bc, f) ↦ record {
        constraints = bc;
        present = e ∙ ap some f;
        authority = ground arith;
        path = λ longest p. ground arith;
        usage = λ p. ground arith;
      }
    ]
  ]

module _ (x : X509) (jwt : Jwt) (sha256 : Bytes → Bytes) where
  -- The chain that a verified transaction came with: its texts decode to certificates, the last
  -- of which has the pinned digest, and the chain is trusted.
  pub record IsPinnedChain (x5c : List Bytes) (root_sha256 : Bytes) (certs : List x.Cert)
      : Type 0 where
    pub ders : List Bytes
    pub decoded : traverse b64_decode_any x5c ≡ some ders
    pub pinned : sha256 (last_of ders) ≡ root_sha256
    pub parsed : traverse x.from_der ders ≡ some certs
    pub trusted : IsTrusted x certs

  IsPinnedChain-intro :
      (x5c : List Bytes) (root_sha256 : Bytes) (ders : List Bytes) (certs : List x.Cert)
      → not (ltb (length x5c) 2 || ltb 5 (length x5c)) ≡ true
      → traverse b64_decode_any x5c ≡ some ders
      → bytes_eq (sha256 (last_of ders)) root_sha256 ≡ true
      → traverse x.from_der ders ≡ some certs
      → links x certs ≡ true
      → all_permitted x 0 certs ≡ true
      → IsPinnedChain x5c root_sha256 certs
  IsPinnedChain-intro x5c root ders certs size decoded pinned parsed linked permitted = record {
    ders = ders;
    decoded = decoded;
    pinned = (bytes_eq_iff _ _).0 pinned;
    parsed = parsed;
    trusted = record {
      size = ground (
        arith,
        length-traverse b64_decode_any x5c ders decoded,
        length-traverse x.from_der ders certs parsed,
      );
      current = λ i cert e.
          is_permitted-valid x (0 + i) cert (all_permitted-at x certs 0 i cert permitted e);
      linked = λ i cert issuer e f. links-linked x certs i cert issuer linked e f;
      issuers = λ i cert e. is_permitted-IsIssuer x i cert (
          let at_i = all_permitted-at x certs 0 (suc i) cert permitted e in
          let same : 0 + suc i ≡ suc i = omega arith in rw same at at_i);
    };
  }

  -- A chain that is accepted has 2 to 5 certificates, decoded from its texts, and the pinned
  -- digest is that of the last. Each certificate is signed by the next, each is within its validity,
  -- and each but the leaf is a CA whose path length allows the certificates below it and whose key
  -- usage, where it has one, permits to sign certificates.
  pub verify_chain-IsPinnedChain :
      (x5c : List Bytes) (root_sha256 : Bytes) (certs : List x.Cert)
      → verify_chain x jwt sha256 x5c root_sha256 ≡ some certs
      → IsPinnedChain x5c root_sha256 certs
  unfolding verify_chain
  verify_chain-IsPinnedChain x5c root certs e =
      let (u, e1, k1) = >>=-eq-some (guard (not (ltb (length x5c) 2 || ltb 5 (length x5c)))) _ e in
      let (ders, e2, k2) = >>=-eq-some (traverse b64_decode_any x5c) _ k1 in
      let (v, e3, k3) = >>=-eq-some (guard (bytes_eq (sha256 (last_of ders)) root)) _ k2 in
      let (found, e4, k4) = >>=-eq-some (traverse x.from_der ders) _ k3 in
      let (w, e5, k5) = >>=-eq-some (guard (links x found)) _ k4 in
      let (z, e6, k6) = >>=-eq-some (guard (all_permitted x 0 found)) _ k5 in
      let same : found ≡ certs = cc k6 in
      subst (IsPinnedChain x5c root) same (
        IsPinnedChain-intro x5c root ders found (guard-eq-some _ e1) e2 (guard-eq-some _ e3) e4
          (guard-eq-some _ e5) (guard-eq-some _ e6))
