-- ===== src/Boot.antt =====
-- src/main.rs: what the boot makes of the environment and the pinned data, up to the listener. rcgen,
-- serde_json, p256, the files and the environment are arguments of the model.
pub mod Laws
pub mod Port
pub mod Credentials
pub mod Attested
mod CredentialTests
mod Tests
use instance_lib.Prelude.{
  false, true, ◌*◌, leb, ◌%◌, ◌-◌, ◌/◌, ◌+◌, ◌&&◌, codes, ◌==◌, ◌++◌, ltb, [], between,
  if◌then◌else◌, none, ◌∷◌, ◌>>=◌, some, Option, List, Bytes, ℕ,
}
use instance_lib.X509.{X509}
use instance_lib.Jwt.{Jwt}
use instance_lib.Manifest.{Manifest, default}
use instance_lib.AppleJwks.{Jwks, load_apple_jwt_keys, apple_issuer, apple_audience}
use instance_lib.Enroll.{apple_root_ca_g3_sha256}
use instance_lib.State.{empty_store}
use instance_lib.App.{AppState, Anchors, BootContext}
use instance_lib.Mtls.Rustls.{Rustls}
use instance_lib.Mtls.Server.{server_config}

abbrev pub appaccount_namespace : Bytes
appaccount_namespace =
    0xda ∷ 0xfb ∷ 0x6e ∷ 0x23 ∷ 0x9c ∷ 0x4d ∷ 0x5d ∷ 0x27 ∷ 0xaa ∷ 0x05 ∷ 0x3f ∷ 0x6c ∷ 0x2e ∷ 0x9e
    ∷ 0x7b ∷ 0x14 ∷ []

-- The bytes of pinned/orchestrator_manage_pubkey.sec1.
abbrev pub orch_manage_pubkey_sec1 : Bytes
orch_manage_pubkey_sec1 =
    0x04 ∷ 0x6e ∷ 0x07 ∷ 0x35 ∷ 0x29 ∷ 0x6e ∷ 0x83 ∷ 0xb2 ∷ 0x89 ∷ 0xaa ∷ 0xa0 ∷ 0x9d ∷ 0xc6 ∷ 0xc0
    ∷ 0x8d ∷ 0x2c ∷ 0x43 ∷ 0xfe ∷ 0x0e ∷ 0x8a ∷ 0x7e ∷ 0xe0 ∷ 0x1a ∷ 0x5e ∷ 0x14 ∷ 0x0c ∷ 0x90
    ∷ 0x6f ∷ 0xa1 ∷ 0x25 ∷ 0x13 ∷ 0xb1 ∷ 0x55 ∷ 0xef ∷ 0xee ∷ 0xf3 ∷ 0x87 ∷ 0x9a ∷ 0x1d ∷ 0x06
    ∷ 0xd1 ∷ 0x07 ∷ 0xe1 ∷ 0x44 ∷ 0x57 ∷ 0x9a ∷ 0x89 ∷ 0xd1 ∷ 0xa2 ∷ 0xe9 ∷ 0x43 ∷ 0x25 ∷ 0x94
    ∷ 0x66 ∷ 0x32 ∷ 0x98 ∷ 0x0b ∷ 0x1c ∷ 0xae ∷ 0x14 ∷ 0xaa ∷ 0xd4 ∷ 0xba ∷ 0x4d ∷ 0xac ∷ []

-- The digits of `str::parse` for u16: each step is checked for overflow.
unfoldable pub u16_digits : ℕ → Bytes → Option ℕ
u16_digits acc [] = some acc
u16_digits acc (c ∷ s) = elim (between b'0' b'9' c && leb (acc * 10 + (c - b'0')) 65535) [
  | true ↦ u16_digits (acc * 10 + (c - b'0')) s
  | false ↦ none
]

-- `s.parse::<u16>().ok()`: one `+` may lead the digits, of which there is one at least.
unfoldable pub parse_u16 : Bytes → Option ℕ
unfolding u16_digits
parse_u16 [] = none
parse_u16 (c ∷ []) = u16_digits 0 (c ∷ [])
parse_u16 (c ∷ d ∷ s) = if c == b'+' then u16_digits 0 (d ∷ s) else u16_digits 0 (c ∷ d ∷ s)

-- IRON_INSTANCE_PORT, or 443 where there is none that parses.
unfoldable pub port_of : Option Bytes → ℕ
unfolding parse_u16
port_of setting = elim (setting >>= parse_u16) [ none ↦ 443 | some port ↦ port ]

-- A digit of `{:x}`.
abbrev pub hex_digit : ℕ → ℕ
hex_digit d = if ltb d 10 then b'0' + d else b'a' + (d - 10)

-- `{b:02x}`: no leading zeros, then filled up to two places.
abbrev pub padded_hex : ℕ → Bytes
padded_hex b =
    if ltb b 16 then b'0' ∷ hex_digit b ∷ [] else hex_digit (b / 16) ∷ hex_digit (b % 16) ∷ []

unfoldable pub to_hex : Bytes → Bytes
to_hex [] = []
to_hex (b ∷ bytes) = padded_hex b ++ to_hex bytes

-- What the boot asks of the crates and the system. `var` is `std::env::var(…).ok()`.
pub record Host (Verifier PrivateKey : Type 0) : Type 1 where
  pub KeyPair : Type 0
  pub Params : Type 0
  pub generate : Option KeyPair
  pub subject_public_key_info : KeyPair → Bytes
  pub certificate_params : List Bytes → Option Params
  pub self_signed : Params → KeyPair → Option Bytes
  pub pkcs8_key : KeyPair → PrivateKey
  pub var : Bytes → Option Bytes
  pub read : Bytes → Option Bytes
  pub manifest_from_bytes : Bytes → Option Manifest
  pub sign_in_with_apple_jwks : Bytes
  pub parse_jwks : Bytes → Option Jwks
  pub from_sec1_bytes : Bytes → Option Verifier

-- What listens: the state of the routes, the TLS configuration, the port, and the printed digest.
pub record Booted (Key Verifier Config : Type 0) : Type 0 where
  pub state : AppState Key Verifier
  pub config : Config
  pub port : ℕ
  pub printed : Bytes

module _ (x : X509) (jwt : Jwt) (sha256 : Bytes → Bytes) {Verifier : Type 0} (r : Rustls)
    (host : Host Verifier r.PrivateKey) where
  unfoldable pub load_manifest : Option Bytes → Option Manifest
  load_manifest none = some default
  load_manifest (some path) = do bytes ← host.read path; host.manifest_from_bytes bytes

  unfoldable pub pinned_anchors : Option (Anchors jwt.Key Verifier)
  unfolding load_apple_jwt_keys
  pinned_anchors = do
    keys ← load_apple_jwt_keys jwt host.parse_jwks host.sign_in_with_apple_jwks
    orch ← host.from_sec1_bytes orch_manage_pubkey_sec1
    some (record {
      apple_jwt_keys = keys;
      apple_issuer = apple_issuer;
      apple_audience = apple_audience;
      storekit_bundle_id = apple_audience;
      storekit_root_sha256 = apple_root_ca_g3_sha256;
      appaccount_namespace = appaccount_namespace;
      orch_manage_pubkey = orch;
    })

  -- `none` where an `expect` panics.
  unfoldable pub main : Option (Booted jwt.Key Verifier r.Config)
  unfolding load_manifest pinned_anchors to_hex port_of
  main = do
    key_pair ← host.generate
    let spki_sha256 = sha256 (host.subject_public_key_info key_pair)
    params ← host.certificate_params (codes "ironserver-instance" ∷ [])
    cert_der ← host.self_signed params key_pair
    let key_der = host.pkcs8_key key_pair
    manifest ← load_manifest (host.var (codes "IRON_MANIFEST_PATH"))
    anchors ← pinned_anchors
    tls ← server_config x r manifest cert_der key_der
    some (record {
      state = record {
        boot = record { spki_sha256 = spki_sha256 };
        members = empty_store;
        manifest = manifest;
        anchors = anchors;
      };
      config = tls;
      port = port_of (host.var (codes "IRON_INSTANCE_PORT"));
      printed = to_hex spki_sha256;
    })
