-- ===== src/X509.antt =====
-- What the program asks of the x509-parser crate, as operations that the model takes as arguments.
use instance_lib.Prelude.{ℕ, Bool, Option, Bytes}

-- basicConstraints: the CA flag and the path length.
pub record BasicConstraints : Type 0 where
  pub ca : Bool
  pub path_len_constraint : Option ℕ

-- A parsed extension may be malformed (`none`), absent (`some none`) or there.
pub record X509 : Type 1 where
  pub Cert : Type 0
  pub from_der : Bytes → Option Cert
  -- The content of the subject public key's bit string.
  pub public_key : Cert → Bytes
  -- `verify_signature`: the first is signed by the key of the second.
  pub signed_by : Cert → Cert → Bool
  pub is_valid : Cert → Bool
  pub basic_constraints : Cert → Option (Option BasicConstraints)
  -- Whether keyUsage permits keyCertSign.
  pub key_cert_sign : Cert → Option (Option Bool)
