-- ===== src/Mtls/Server.antt =====
-- src/mtls.rs: the verifier as rustls calls it, the server's configuration and the acceptor.
use instance_lib.Prelude.{Option, Bytes, some, [], ◌∷◌, ◌>>=◌}
use instance_lib.State.{Pubkey}
use instance_lib.Manifest.{Manifest}
use instance_lib.X509.{X509}
use instance_lib.Mtls.{verify_client_cert, accept}
use instance_lib.Mtls.Rustls.{Rustls, ClientCertVerifier, tls13}

module _ (x : X509) (r : Rustls) where
  -- The two fields of `ManifestClientVerifier`, and what its methods make of them.
  abbrev pub manifest_verifier : Manifest → r.Provider → ClientCertVerifier r.Signed r.Scheme
  manifest_verifier manifest provider = record {
    root_hint_subjects = [];
    verify_client_cert = λ end_entity intermediates now. verify_client_cert x manifest end_entity;
    verify_tls12_signature =
        λ message cert dss. r.verify_tls12 message cert dss (r.algorithms provider);
    verify_tls13_signature =
        λ message cert dss. r.verify_tls13 message cert dss (r.algorithms provider);
    supported_verify_schemes = r.supported_schemes (r.algorithms provider);
  }

  unfoldable pub server_config : Manifest → Bytes → r.PrivateKey → Option r.Config
  server_config manifest cert_der key_der = do
    let provider = r.default_provider
    wants ← r.with_protocol_versions (tls13 ∷ []) (r.builder_with_provider provider)
    r.with_single_cert (cert_der ∷ []) key_der
        (r.with_client_cert_verifier (manifest_verifier manifest provider) wants)

  -- `MtlsAcceptor`: a connection is the stream and the pubkey of `AddClientPubkey`.
  unfoldable pub accept_stream : r.Config → r.Stream → Option (r.Tls × Option Pubkey)
  accept_stream config stream = do
    tls ← r.handshake config stream
    some (tls, accept x (r.peer_certificates tls))
