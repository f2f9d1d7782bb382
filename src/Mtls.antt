-- ===== src/Mtls.antt =====
-- src/mtls.rs: which client certificates complete the handshake, and the public point that every
-- request of a connection carries. rustls runs the handshake: it calls the verifier on the leaf.
pub mod Laws
pub mod Rustls
pub mod Server
pub mod Gate
mod Tests
use instance_lib.Prelude.{
  get_or, ◌||◌, ◌==◌, length, not, if◌then◌else◌, [], ◌>>◌, ◌∷◌, codes, none, List, ◌>>=◌, some,
  Option, Bytes,
}
use instance_lib.State.{Pubkey}
use instance_lib.Manifest.{Manifest, contains_pubkey}
use instance_lib.X509.{X509}

-- `Result<ClientCertVerified, TlsError>`.
pub data Verdict : Type 0 where
  assertion : Verdict
  general : Bytes → Verdict

-- `self.pubkey` goes into the request's extensions, over what may stand there.
unfoldable pub call : Option Pubkey → Option Pubkey → Option Pubkey
call none present = present
call (some pk) present = some pk

module _ (x : X509) where
  open x use {from_der, public_key}

  unfoldable pub client_point_from_cert : Bytes → Option Pubkey
  client_point_from_cert der = do
    cert ← from_der der
    if not (length (public_key cert) == 65) || not (get_or (public_key cert) 0 0 == 0x04)
        then none
        else some (public_key cert)

  -- The intermediates and the time are ignored.
  unfoldable pub verify_client_cert : Manifest → Bytes → Verdict
  verify_client_cert manifest end_entity = elim (client_point_from_cert end_entity) [
    | none ↦ general (codes "client leaf is not a P-256 X9.63 key")
    | some point ↦
        if not (contains_pubkey point manifest)
        then general (codes "client pubkey not in cohort manifest")
        else assertion
  ]

  -- `MtlsAcceptor::accept`: the point of the first of the peer's certificates.
  unfoldable pub accept : Option (List Bytes) → Option Pubkey
  accept none = none
  accept (some []) = none
  accept (some (leaf ∷ chain)) = client_point_from_cert leaf
