-- ===== src/Boot/CredentialTests.antt =====
-- A boot with one pinned key, and a device that enrols on it.
use instance_lib.Prelude.{Bytes, ◌∷◌, [], ◌≡◌, some, none, true, codes, refl, bytes_eq}
use instance_lib.Prelude.Map.{lookup}
use instance_lib.Http.{json}
use instance_lib.Jwt.{AppleClaims, StoreKitPayload}
use instance_lib.Manifest.{Manifest}
use instance_lib.AppleJwks.{Jwk, apple_audience}
use instance_lib.Codec.Base64.{b64url_nopad}
use instance_lib.Codec.Hex.{hex_encode}
use instance_lib.Codec.Uuid.{uuid_v5}
use instance_lib.State.{empty_store}
use instance_lib.Enroll
use instance_lib.Enroll.{apple_root_ca_g3_sha256, names_account}
use instance_lib.Enroll.StoreKit.{IsGenuine}
use instance_lib.Boot.{Host, Booted, main, to_hex, appaccount_namespace}
use instance_lib.Boot.Credentials.{IsIdentity, main_credentials}
use instance_lib.Mtls.Server.{server_config, manifest_verifier}
use instance_lib.Mtls.Rustls.{tls13}
use instance_lib.Fixtures.{plain_x509, plain_jwt, lower_other, point, request}
use instance_lib.Fixtures.Tls.{plain_rustls}
use instance_lib.Fixtures.Hosts.{dev_host, booted_with}

abbrev root_digest : Bytes → Bytes
root_digest data' = apple_root_ca_g3_sha256

abbrev cohort : Manifest
cohort = record {
  cohort_id = codes "c1";
  members =
      record { pubkey = hex_encode (point 9); hash = hex_encode apple_root_ca_g3_sha256 } ∷ [];
}

abbrev pinned_key : Jwk
pinned_key = record {
  kid = codes "k1";
  n = codes "n";
  e = codes "AQAB";
  kty = some (codes "RSA");
  use_field = some (codes "sig");
}

abbrev pinned_host : Host Bytes Bytes
pinned_host = record dev_host {
  manifest_from_bytes = λ bytes. some cohort;
  parse_jwks = λ bytes. some (record { keys = pinned_key ∷ [] });
}

abbrev pinned_boot : Booted Bytes Bytes plain_rustls.Config
pinned_boot =
    let b = booted_with cohort 8443 in
    record b {
      state = record b.state {
        boot = record { spki_sha256 = apple_root_ca_g3_sha256 };
        anchors = record b.state.anchors { apple_jwt_keys = (codes "k1", codes "n") ∷ [] };
      };
      config = (tls13 ∷ [], manifest_verifier plain_x509 plain_rustls cohort []);
      printed = to_hex apple_root_ca_g3_sha256;
    }

pinned_host-main : main plain_x509 plain_jwt root_digest plain_rustls pinned_host ≡ some pinned_boot
unfolding main server_config bytes_eq to_hex instance_lib.AppleJwks.load_apple_jwt_keys
    instance_lib.AppleJwks.is_usable instance_lib.Prelude.Map.insert
pinned_host-main = refl

pinned_host-enrols :
    (instance_lib.Enroll.handler plain_x509 plain_jwt root_digest lower_other
      (record pinned_boot.state { members = empty_store })
      (codes "random")
      (some (point 9))
      request).1
    ≡ json (b64url_nopad (codes "random"))
unfolding instance_lib.Enroll.handler instance_lib.AppleJwks.verify_apple_jwt bytes_eq lookup
    instance_lib.AppleJwks.accept_claims instance_lib.AppleJwks.aud_contains
    instance_lib.Enroll.verify_storekit_jws instance_lib.Codec.Base64.b64_decode_any b64url_nopad
    instance_lib.Codec.Hex.hex_decode hex_encode instance_lib.Codec.Hex.eq_ignore_ascii_case
    instance_lib.Codec.Sha1.sha1 instance_lib.Codec.Uuid.uuid_eq uuid_v5 instance_lib.Enroll.mint
    instance_lib.State.insert
pinned_host-enrols = refl

main_credentials_example :
    (claims : AppleClaims Bytes) × (tx : StoreKitPayload) × IsIdentity plain_x509 plain_jwt
      root_digest plain_rustls pinned_host
      (codes "apple")
      claims
    × IsGenuine plain_x509 plain_jwt root_digest
        (codes "jws")
        apple_root_ca_g3_sha256
        apple_audience
        tx
    × (names_account plain_x509 plain_jwt root_digest lower_other
          (uuid_v5 appaccount_namespace claims.sub)
          tx.app_account_token
        ≡ true)
main_credentials_example =
    main_credentials plain_x509 plain_jwt root_digest plain_rustls pinned_host lower_other
      pinned_boot pinned_host-main empty_store (codes "random") (some (point 9)) request
      (b64url_nopad (codes "random")) pinned_host-enrols
