-- ===== src/App.antt =====
-- src/state.rs: what `AppState` holds beside the member store. Key types of the crates are
-- parameters: `Key` of jsonwebtoken, `Verifier` of p256.
use instance_lib.Prelude.{Bytes}
use instance_lib.Prelude.Map.{Map}
use instance_lib.Manifest.{Manifest}
use instance_lib.State.{Inner}

pub record BootContext : Type 0 where
  pub spki_sha256 : Bytes

pub record Anchors (Key Verifier : Type 0) : Type 0 where
  pub apple_jwt_keys : Map Key
  pub apple_issuer : Bytes
  pub apple_audience : Bytes
  pub storekit_bundle_id : Bytes
  pub storekit_root_sha256 : Bytes
  pub appaccount_namespace : Bytes
  pub orch_manage_pubkey : Verifier

pub record AppState (Key Verifier : Type 0) : Type 0 where
  pub boot : BootContext
  pub members : Inner
  pub manifest : Manifest
  pub anchors : Anchors Key Verifier
