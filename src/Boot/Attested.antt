-- ===== src/Boot/Attested.antt =====
-- What the attestation of a service that booted says of its TLS key.
use instance_lib.Prelude.{ℕ, Bytes, Option, some, ◌≡◌}
use instance_lib.Http.{json}
use instance_lib.X509.{X509}
use instance_lib.Jwt.{Jwt}
use instance_lib.State.{Inner, Pubkey}
use instance_lib.Attestation
use instance_lib.Attestation.{Envelope, Evidence, envelope_of, gpu_nonces}
use instance_lib.Attestation.Quote.{Kernel, Tsm}
use instance_lib.Attestation.Gpus.{Helper}
use instance_lib.Attestation.Laws.{IsAttested, handler_iff}
use instance_lib.Mtls.Rustls.{Rustls}
use instance_lib.Mtls.Server.{server_config}
use instance_lib.Boot.{Host, Booted, main, to_hex}
use instance_lib.Boot.Laws.{main-IsStarted}

module _ (x : X509) (jwt : Jwt) (sha256 : Bytes → Bytes) {Verifier : Type 0} (r : Rustls)
    (host : Host Verifier r.PrivateKey) (kernel : Kernel) (helper : Helper) where
  -- The evidence is over the client's nonce and the key pair whose certificate TLS presents.
  pub record IsBound (b : Booted jwt.Key Verifier r.Config) (given : Option Bytes)
      (tsm : Tsm kernel) (env : Envelope) : Type 0 where
    pub key_pair : host.KeyPair
    pub generated : host.generate ≡ some key_pair
    pub params : host.Params
    pub cert_der : Bytes
    pub self_signed : host.self_signed params key_pair ≡ some cert_der
    pub presented :
        server_config x r b.state.manifest cert_der (host.pkcs8_key key_pair) ≡ some b.config
    pub printed : b.printed ≡ to_hex (sha256 (host.subject_public_key_info key_pair))
    pub attested :
        IsAttested sha256 kernel helper
          (sha256 (host.subject_public_key_info key_pair))
          given
          tsm
          env

  -- On a service that booted, whoever asks and whatever the store holds, an envelope holds the base64 of
  -- a quote that the kernel gave over the client's nonce of 32 bytes followed by the digest of the public
  -- key of the key pair that the boot generated, whose self-signed certificate is the one of the TLS
  -- configuration, and the base64 of the eight reports that the helper gave when asked for one on each of
  -- the digests of the same nonce, key digest and one byte 0 to 7, in this order; and this key digest is
  -- the one that the boot printed.
  pub main_attests :
      (b : Booted jwt.Key Verifier r.Config)
      → main x jwt sha256 r host ≡ some b
      → (client : Option Pubkey) (now : ℕ) (given : Option Bytes) (members : Inner)
        (tsm : Tsm kernel) (env : Envelope)
      → (instance_lib.Attestation.handler sha256 kernel helper client now b.state.boot.spki_sha256
          given members tsm).1.1
        ≡ json env
      → IsBound b given tsm env
  main_attests b booted client now given members tsm env answered =
      let started = main-IsStarted x jwt sha256 r host b booted in
      let (within, i) =
        (handler_iff sha256 kernel helper client now b.state.boot.spki_sha256 given members tsm
            env).0
          answered in
      record {
        key_pair = started.key_pair;
        generated = started.generated;
        params = started.params;
        cert_der = started.cert_der;
        self_signed = started.self_signed;
        presented = started.configured;
        printed = rw (← started.spki) started.printed;
        attested = rw (← started.spki) i;
      }
