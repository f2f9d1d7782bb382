-- ===== src/Fixtures/Hosts.antt =====
-- A stand-in for the environment of the boot: with a manifest file, and without one.
use instance_lib.Prelude.{
  ◌∷◌, ℕ, Bytes, List, Option, some, none, codes, [], bytes_eq, if◌then◌else◌, ◌≡◌, refl,
}
use instance_lib.State.{empty_store}
use instance_lib.Boot.{Host, Booted, main, appaccount_namespace, orch_manage_pubkey_sec1}
use instance_lib.AppleJwks.{apple_issuer, apple_audience}
use instance_lib.Enroll.{apple_root_ca_g3_sha256}
use instance_lib.Mtls.Server.{server_config, manifest_verifier}
use instance_lib.Mtls.Rustls.{tls13}
use instance_lib.Manifest.{Manifest, default}
use instance_lib.Fixtures.{manifest, byte_x509, plain_jwt, digest}
use instance_lib.Fixtures.Tls.{plain_rustls}

abbrev pub host_with : (Bytes → Option Bytes) → Host Bytes Bytes
host_with var = record {
  KeyPair = Bytes;
  Params = List Bytes;
  generate = some (codes "key");
  subject_public_key_info = λ key_pair. key_pair;
  certificate_params = λ names. some names;
  self_signed = λ params key_pair. some key_pair;
  pkcs8_key = λ key_pair. key_pair;
  var = var;
  read = λ path. some path;
  manifest_from_bytes = λ bytes. some manifest;
  sign_in_with_apple_jwks = [];
  parse_jwks = λ bytes. some (record { keys = [] });
  from_sec1_bytes = λ bytes. some bytes;
}

-- Both settings, by their names.
abbrev pub dev_host : Host Bytes Bytes
dev_host = host_with (λ name.
    if bytes_eq name (codes "IRON_MANIFEST_PATH")
    then some (codes "m.json")
    else some (codes "8443"))

abbrev pub bare_host : Host Bytes Bytes
bare_host = host_with (λ name. none)

abbrev pub booted_with : Manifest → ℕ → Booted Bytes Bytes plain_rustls.Config
booted_with manifest' port = record {
  state = record {
    boot = record { spki_sha256 = 3 ∷ [] };
    members = empty_store;
    manifest = manifest';
    anchors = record {
      apple_jwt_keys = [];
      apple_issuer = apple_issuer;
      apple_audience = apple_audience;
      storekit_bundle_id = apple_audience;
      storekit_root_sha256 = apple_root_ca_g3_sha256;
      appaccount_namespace = appaccount_namespace;
      orch_manage_pubkey = orch_manage_pubkey_sec1;
    };
  };
  config = (tls13 ∷ [], manifest_verifier byte_x509 plain_rustls manifest' []);
  port = port;
  printed = codes "03";
}

pub dev_host-main :
    main byte_x509 plain_jwt digest plain_rustls dev_host ≡ some (booted_with manifest 8443)
unfolding main server_config bytes_eq instance_lib.AppleJwks.load_apple_jwt_keys
dev_host-main = refl

pub bare_host-main :
    main byte_x509 plain_jwt digest plain_rustls bare_host ≡ some (booted_with default 443)
unfolding main server_config instance_lib.AppleJwks.load_apple_jwt_keys
bare_host-main = refl
