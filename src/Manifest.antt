-- ===== src/Manifest.antt =====
-- src/manifest.rs: the cohort manifest. Its bytes are parsed by serde_json, outside the model.
pub mod Laws
use instance_lib.Prelude.{any, List, Bool, Bytes, []}
use instance_lib.Codec.Hex.{hex_encode, eq_ignore_ascii_case}

pub record ManifestMember : Type 0 where
  pub pubkey : Bytes
  pub hash : Bytes

pub record Manifest : Type 0 where
  pub cohort_id : Bytes
  pub members : List ManifestMember

-- `Manifest::default`.
abbrev pub default : Manifest
default = record { cohort_id = []; members = [] }

unfoldable pub contains_pubkey : Bytes → Manifest → Bool
contains_pubkey point manifest =
    let hex = hex_encode point in
    any (λ (m : ManifestMember). eq_ignore_ascii_case m.pubkey hex) manifest.members
