-- ===== src/Fixtures.antt =====
-- The data of the tests: two devices, a store that holds them, and small stand-ins for the crates.
pub mod Tls
pub mod Hosts
use instance_lib.Prelude.{
  ℕ, true, some, none, List, [], ◌∷◌, ◌%◌, length, replicate, codes, Bytes, bytes_eq, if◌then◌else◌,
  refl, AreBytes, arith,
}
use instance_lib.Prelude.Map.{lookup}
use instance_lib.Codec.Hex.{hex_encode}
use instance_lib.Attestation.Quote.{Kernel}
use instance_lib.Attestation.Gpus.{Helper, Gpu}
use instance_lib.X509.{X509}
use instance_lib.Jwt.{Jwt, rs256, es256, Header, text, AppleClaims, StoreKitPayload}
use instance_lib.Manifest.{Manifest}
use instance_lib.State.{Inner, MemberEntry, Pubkey, empty_store, insert}
use instance_lib.State.Invariant.{IsConsistent, insert-IsConsistent, empty_store-IsConsistent}
use instance_lib.App.{AppState, Anchors, BootContext}
use instance_lib.Enroll.{EnrollRequest}
use instance_lib.Manage.{ManageDeps, ManageAction, ManageEnvelope}
use instance_lib.Chat.{Backend, Upstream, Turn, chunk}

-- A P-256 point, by the byte that fills it.
abbrev pub point : ℕ → Pubkey
point n = 0x04 ∷ replicate 64 n

abbrev pub sub : Bytes
sub = codes "test-sub-000"

abbrev pub identity : AppleClaims Bytes
identity = record {
  iss = codes "https://appleid.apple.com";
  sub = sub;
  aud = codes "com.rayeeev.IronServer";
  exp = 2;
  iat = 1;
}

abbrev pub transaction : StoreKitPayload
transaction = record {
  bundle_id = codes "com.rayeeev.IronServer";
  original_transaction_id = codes "tx-1";
  transaction_id = codes "tx-2";
  product_id = codes "seat";
  app_account_token = some (codes "0dd14662-856c-5f35-9ae5-34cea39f5d13");
}

-- A digest of one byte: the length.
abbrev pub digest : Bytes → Bytes
digest data' = length data' % 256 ∷ []

abbrev pub lower_other : ℕ → List ℕ
lower_other c = c ∷ []

-- A certificate is the bytes of its key.
abbrev pub plain_x509 : X509
plain_x509 = record {
  Cert = Bytes;
  from_der = λ der. some der;
  public_key = λ cert. cert;
  signed_by = λ cert issuer. true;
  is_valid = λ cert. true;
  basic_constraints = λ cert. some (some (record { ca = true; path_len_constraint = none }));
  key_cert_sign = λ cert. some none;
}

-- Three characters of base64 for a certificate of two bytes.
abbrev pub x5c_texts : List Bytes
x5c_texts = codes "QUI=" ∷ codes "QkM=" ∷ []

abbrev pub header_for : Bytes → Header
header_for token =
    if bytes_eq token (codes "apple")
    then record { alg = rs256; kid = some (codes "k1"); x5c = none }
    else record { alg = es256; kid = none; x5c = some x5c_texts }

abbrev pub plain_jwt : Jwt
plain_jwt = record {
  Key = Bytes;
  Value = Bytes;
  shape = λ v. text v;
  decode_header = λ token. some (header_for token);
  new_validation = λ a. record {
    algorithm = a;
    iss = none;
    aud = none;
    required_spec_claims = [];
    leeway = 60;
    validate_exp = true;
    validate_aud = true;
  };
  from_rsa_components = λ n e. some n;
  from_ec_der = λ der. der;
  decode_apple = λ token key v. some identity;
  decode_storekit = λ jws key v. some transaction;
}

abbrev pub revoke_action : ManageAction
revoke_action = record {
  action = codes "revoke";
  nonce = codes "n-1";
  member_hash = some (hex_encode (replicate 32 7));
}

abbrev pub plain_deps : ManageDeps
plain_deps = record {
  Verifier = Bytes;
  Signature = Bytes;
  from_slice = λ b. some b;
  verify = λ key payload signature. bytes_eq key signature;
  parse_action = λ payload. some revoke_action;
  iter = λ entries. entries;
}

abbrev pub namespace : Bytes
namespace =
    0xda ∷ 0xfb ∷ 0x6e ∷ 0x23 ∷ 0x9c ∷ 0x4d ∷ 0x5d ∷ 0x27 ∷ 0xaa ∷ 0x05 ∷ 0x3f ∷ 0x6c ∷ 0x2e ∷ 0x9e
    ∷ 0x7b ∷ 0x14 ∷ []

-- The management key is the text of the signature that it accepts: the bytes of "sig".
abbrev pub anchors : Anchors Bytes Bytes
anchors = record {
  apple_jwt_keys = (codes "k1", codes "key") ∷ [];
  apple_issuer = codes "https://appleid.apple.com";
  apple_audience = codes "com.rayeeev.IronServer";
  storekit_bundle_id = codes "com.rayeeev.IronServer";
  storekit_root_sha256 = 2 ∷ [];
  appaccount_namespace = namespace;
  orch_manage_pubkey = codes "sig";
}

abbrev pub boot : BootContext
boot = record { spki_sha256 = replicate 32 1 }

-- One device: its point in upper or lower case, and the digest of `sub` and "tx-1".
abbrev pub manifest : Manifest
manifest = record {
  cohort_id = codes "c1";
  members = record { pubkey = hex_encode (point 9); hash = hex_encode (16 ∷ []) } ∷ [];
}

abbrev pub entry : ℕ → Bytes → MemberEntry
entry n token = record {
  client_pubkey = point n;
  member_hash = replicate 32 n;
  session_token = token;
  original_tx_id = codes "tx-1";
}

abbrev pub one_device : Inner
one_device = (insert (entry 7 (codes "bearer-a")) empty_store).0

abbrev pub state : AppState Bytes Bytes
state = record { boot = boot; members = one_device; manifest = manifest; anchors = anchors }

abbrev pub request : EnrollRequest
request = record { apple_identity_jwt = codes "apple"; storekit_jws = codes "jws" }

-- "{}" signed with "sig", in base64.
abbrev pub signed_envelope : ManageEnvelope
signed_envelope = record { payload = codes "e30="; signature = codes "c2ln" }

abbrev pub live_turn : Bytes → Turn
live_turn data' = record { frame = chunk data'; members = one_device; reads = true }

abbrev pub upstream : Upstream
upstream = record { is_success = true; code = 200; turns = live_turn (codes "hello") ∷ [] }

abbrev pub plain_backend : Backend
plain_backend = record {
  Request = Bytes;
  vllm_url = none;
  build = λ draft. some draft.body;
  send = λ sent. some upstream;
  valid_code = λ code. some code;
}

-- The number of report entries; a quote is the data that was written.
abbrev pub plain_kernel : Kernel
plain_kernel = record {
  Fs = ℕ;
  process_id = 17;
  create_dir = λ dir fs. (1, true);
  write = λ path data' fs. (fs, true);
  read = λ path fs. (fs, some (codes "quote"));
  remove_dir = λ dir fs. 0;
}

abbrev pub some_gpu : Gpu
some_gpu = record { report = codes "QUI="; cert_chain = codes "QkM=" ∷ [] }

abbrev pub plain_helper : Helper
plain_helper = record {
  cmd_var = none;
  run = λ cmd args. some (record { success = true; stdout = [] });
  parse = λ out. some (replicate 8 some_gpu);
}

pub one_device-IsConsistent : IsConsistent one_device
unfolding lookup
one_device-IsConsistent =
    insert-IsConsistent (entry 7 (codes "bearer-a")) empty_store empty_store-IsConsistent refl

pub digest-AreBytes : (data' : Bytes) → AreBytes (digest data')
digest-AreBytes data' = (omega arith, tt)

-- The keys of the stand-in below are all the point 9.
abbrev pub byte_x509 : X509
byte_x509 = record plain_x509 { public_key = λ cert. point 9 }

pub point-AreBytes : AreBytes (point 9)
point-AreBytes = omega arith

pub byte_x509-AreBytes : (cert : Bytes) → AreBytes (byte_x509.public_key cert)
byte_x509-AreBytes cert = point-AreBytes
