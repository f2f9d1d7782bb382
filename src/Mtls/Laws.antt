-- ===== src/Mtls/Laws.antt =====
-- The verifier: which leaves it accepts, and the shape of their points.
use instance_lib.Prelude.{
  subst, AreBytes, inr, arith, >>=-eq-some, inl, Option-cases, get_or, length, true, ◌↔◌, some, ◌≡◌,
  Bytes,
}
use instance_lib.State.{Pubkey}
use instance_lib.Manifest.{Manifest, contains_pubkey}
use instance_lib.X509.{X509}
use instance_lib.Mtls.{assertion, client_point_from_cert, verify_client_cert}

module _ (x : X509) where
  -- A point that is read from a certificate has the X9.63 shape.
  pub client_point_shape :
      (der : Bytes) (point : Pubkey)
      → client_point_from_cert x der ≡ some point
      → (length point ≡ 65) × (get_or point 0 0 ≡ 0x04)
  unfolding client_point_from_cert
  client_point_shape der point e =
      let (cert, parsed, e') = >>=-eq-some (x.from_der der) _ e in (ground arith, ground arith)

  pub client_point_octets :
      ((cert : x.Cert) → AreBytes (x.public_key cert))
      → (der : Bytes) (point : Pubkey) → client_point_from_cert x der ≡ some point
      → AreBytes point
  unfolding client_point_from_cert
  client_point_octets octets der point e =
      let (cert, parsed, e') = >>=-eq-some (x.from_der der) _ e in
      subst AreBytes (ground arith) (octets cert)

  -- The verifier accepts a leaf exactly where it has a point and the manifest contains the point.
  pub verify_client_cert_iff :
      (manifest : Manifest) (leaf : Bytes)
      → (verify_client_cert x manifest leaf ≡ assertion) ↔ (
          (point : Pubkey) × (client_point_from_cert x leaf ≡ some point)
          × (contains_pubkey point manifest ≡ true))
  unfolding verify_client_cert
  verify_client_cert_iff manifest leaf = elim (Option-cases (client_point_from_cert x leaf)) [
    | inl e ↦ (λ h. absurd (cc (rw (e, verify_client_cert) at h)), λ (point, k, h). absurd (cc))
    | inr (point, e) ↦ (λ h. (point, e, ground arith), λ (p, k, h). ground arith)
  ]
