-- ===== src/Fixtures/Tls.antt =====
-- A stand-in for rustls: a stream presents a leaf and a signature, which is good where it is the leaf.
use instance_lib.Prelude.{
  if◌then◌else◌, Bytes, List, Option, some, none, false, [], ◌∷◌, bytes_eq, codes, ◌≡◌, refl, ap,
  ◌∙◌, subst, some-injective, inl, inr, Bool-cases,
}
use instance_lib.Mtls.{Verdict, assertion, general}
use instance_lib.Mtls.Rustls.{Rustls, Version, ClientCertVerifier, verify_by, IsChecked, Documented}

abbrev Settings : Type 0
Settings = List Version × ClientCertVerifier Bytes Bytes

abbrev Presented : Type 0
Presented = Bytes × Bytes

abbrev completed : Version → ClientCertVerifier Bytes Bytes → Presented → Verdict → Option Presented
completed version verifier stream (general msg) = none
completed version verifier stream assertion =
    if verify_by version verifier (codes "hello") stream.0 stream.1 then some stream else none

abbrev shake : Settings → Presented → Option Presented
shake ([], verifier) stream = none
shake (version ∷ more, verifier) stream =
    completed version verifier stream (verifier.verify_client_cert stream.0 [] 0)

abbrev pub plain_rustls : Rustls
plain_rustls = record {
  Provider = Bytes;
  Algorithms = Bytes;
  Signed = Bytes;
  Scheme = Bytes;
  PrivateKey = Bytes;
  WantsVersions = Bytes;
  WantsVerifier = List Version;
  WantsCert = Settings;
  Config = Settings;
  Stream = Presented;
  Tls = Presented;
  default_provider = [];
  algorithms = λ provider. provider;
  supported_schemes = λ algorithms. [];
  verify_tls12 = λ message cert signature algorithms. false;
  verify_tls13 = λ message cert signature algorithms. bytes_eq cert signature;
  builder_with_provider = λ provider. provider;
  with_protocol_versions = λ versions builder. some versions;
  with_client_cert_verifier = λ verifier versions. (versions, verifier);
  with_single_cert = λ certs key settings. some settings;
  handshake = shake;
  peer_certificates = λ tls. some (tls.0 ∷ []);
}

completed-IsChecked :
    (version : Version) (more : List Version) (verifier : ClientCertVerifier Bytes Bytes)
    (stream tls : Presented) (verdict : Verdict)
    → verifier.verify_client_cert stream.0 [] 0 ≡ verdict
    → completed version verifier stream verdict ≡ some tls
    → IsChecked plain_rustls (version ∷ more) verifier tls
completed-IsChecked version more verifier stream tls (general msg) e h = absurd (cc)
completed-IsChecked version more verifier stream tls assertion e h =
    elim (Bool-cases (verify_by version verifier (codes "hello") stream.0 stream.1)) [
      | inr bad ↦ absurd (cc (rw bad at h))
      | inl good ↦
          subst (IsChecked plain_rustls (version ∷ more) verifier)
            (some-injective _ _ (rw good at h))
            (record {
              leaf = stream.0;
              chain = [];
              now = 0;
              version = version;
              message = codes "hello";
              signature = stream.1;
              presented = refl;
              accepted = e;
              configured = inl refl;
              signed = good;
            })
    ]

shake-IsChecked :
    (versions : List Version) (verifier : ClientCertVerifier Bytes Bytes) (stream tls : Presented)
    → shake (versions, verifier) stream ≡ some tls
    → IsChecked plain_rustls versions verifier tls
shake-IsChecked [] verifier stream tls h = absurd (cc)
shake-IsChecked (version ∷ more) verifier stream tls h =
    completed-IsChecked version more verifier stream tls _ refl h

pub plain_rustls-Documented : Documented plain_rustls
plain_rustls-Documented provider versions verifier certs key wants config e e' =
    subst
      (λ c.
        (stream tls : Presented)
        → shake c stream ≡ some tls
        → IsChecked plain_rustls versions verifier tls)
      (ap (λ w. (w, verifier)) (some-injective _ _ e) ∙ some-injective _ _ e')
      (shake-IsChecked versions verifier)
