-- ===== src/Mtls/Rustls.antt =====
-- What src/mtls.rs asks of rustls and axum-server, as operations that the model takes as arguments.
use instance_lib.Prelude.{ℕ, Option, List, Bytes, Bool, ◌≡◌, some, true, In, ◌∷◌}
use instance_lib.Mtls.{Verdict, assertion}

pub data Version : Type 0 where
  tls12 tls13 : Version

-- The trait `ClientCertVerifier`. A signature is verified over a message, by a certificate.
pub record ClientCertVerifier (Signed Scheme : Type 0) : Type 0 where
  pub root_hint_subjects : List Bytes
  pub verify_client_cert : Bytes → List Bytes → ℕ → Verdict
  pub verify_tls12_signature : Bytes → Bytes → Signed → Bool
  pub verify_tls13_signature : Bytes → Bytes → Signed → Bool
  pub supported_verify_schemes : List Scheme

-- The stages of `ServerConfig::builder`, and what axum-server's acceptor makes of a connection.
pub record Rustls : Type 1 where
  pub Provider : Type 0
  pub Algorithms : Type 0
  pub Signed : Type 0
  pub Scheme : Type 0
  pub PrivateKey : Type 0
  pub WantsVersions : Type 0
  pub WantsVerifier : Type 0
  pub WantsCert : Type 0
  pub Config : Type 0
  pub Stream : Type 0
  pub Tls : Type 0
  -- `ring::default_provider` and its `signature_verification_algorithms`.
  pub default_provider : Provider
  pub algorithms : Provider → Algorithms
  pub supported_schemes : Algorithms → List Scheme
  pub verify_tls12 : Bytes → Bytes → Signed → Algorithms → Bool
  pub verify_tls13 : Bytes → Bytes → Signed → Algorithms → Bool
  pub builder_with_provider : Provider → WantsVersions
  pub with_protocol_versions : List Version → WantsVersions → Option WantsVerifier
  pub with_client_cert_verifier : ClientCertVerifier Signed Scheme → WantsVerifier → WantsCert
  pub with_single_cert : List Bytes → PrivateKey → WantsCert → Option Config
  -- `RustlsAcceptor::accept`, and `peer_certificates` of the connection that it makes.
  pub handshake : Config → Stream → Option Tls
  pub peer_certificates : Tls → Option (List Bytes)

-- By which of the verifier's two tests a signature counts.
abbrev pub verify_by :
    {Signed Scheme : Type 0}
    → Version
    → ClientCertVerifier Signed Scheme
    → Bytes
    → Bytes
    → Signed
    → Bool
verify_by tls12 v = v.verify_tls12_signature
verify_by tls13 v = v.verify_tls13_signature

-- What rustls documents of a server with a client verifier, whose authentication is mandatory: a
-- handshake completes only in one of the configured versions, with a leaf that the verifier accepts
-- at some time, and after a message of the handshake that the verifier takes for signed by that leaf.
-- `peer_certificates` is the chain that was presented.
pub record IsChecked (r : Rustls) (versions : List Version)
    (verifier : ClientCertVerifier r.Signed r.Scheme) (tls : r.Tls) : Type 0 where
  pub leaf : Bytes
  pub chain : List Bytes
  pub now : ℕ
  pub version : Version
  pub message : Bytes
  pub signature : r.Signed
  pub presented : r.peer_certificates tls ≡ some (leaf ∷ chain)
  pub accepted : verifier.verify_client_cert leaf chain now ≡ assertion
  pub configured : In version versions
  pub signed : verify_by version verifier message leaf signature ≡ true

abbrev pub Documented : Rustls → Type 0
Documented r =
    (provider : r.Provider) (versions : List Version)
    (verifier : ClientCertVerifier r.Signed r.Scheme) (certs : List Bytes) (key : r.PrivateKey)
    (wants : r.WantsVerifier) (config : r.Config)
    → r.with_protocol_versions versions (r.builder_with_provider provider) ≡ some wants
    → r.with_single_cert certs key (r.with_client_cert_verifier verifier wants) ≡ some config
    → (stream : r.Stream) (tls : r.Tls) → r.handshake config stream ≡ some tls
    → IsChecked r versions verifier tls
