-- ===== src/Manage.antt =====
-- src/manage.rs: the `/manage` handler. p256 and serde_json are arguments of the model.
pub mod Laws
mod Tests
pub mod Power
use instance_lib.Prelude.{
  ◌==◌, none, some, length, bytes_eq, not, ◌>>=◌, if◌then◌else◌, codes, Option, Bytes, Bool, ℕ,
}
use instance_lib.Prelude.Map.{Map}
use instance_lib.Codec.Hex.{hex_decode}
use instance_lib.Codec.Base64.{b64_decode_any}
use instance_lib.Http.{Response, json, err, unauthorized, bad_request, conflict}
use instance_lib.State.{Inner, Member, note_nonce, revoke_by_member_hash}
use instance_lib.App.{AppState}

pub record ManageEnvelope : Type 0 where
  pub payload : Bytes
  pub signature : Bytes

pub record ManageAction : Type 0 where
  pub action : Bytes
  pub nonce : Bytes
  pub member_hash : Option Bytes

-- What the handler asks of the crates, and the order in which the member map is iterated.
pub record ManageDeps : Type 1 where
  pub Verifier : Type 0
  pub Signature : Type 0
  pub from_slice : Bytes → Option Signature
  pub verify : Verifier → Bytes → Signature → Bool
  pub parse_action : Bytes → Option ManageAction
  pub iter : Map Member → Map Member

-- `filter(|b| b.len() == 32)`.
abbrev pub of_32_bytes : Bytes → Option Bytes
of_32_bytes b = if length b == 32 then some b else none

-- `action.member_hash.as_deref().and_then(hex_decode).filter(…)`.
unfoldable pub hash_of : Option Bytes → Option Bytes
hash_of member_hash = do text ← member_hash; b ← hex_decode text; of_32_bytes b

module _ (deps : ManageDeps) where
  open deps use {Verifier, from_slice, verify, parse_action, iter}

  unfoldable pub revoke_answer : Option Bytes → Inner → Inner × Response Bool
  revoke_answer none members =
      (members, err bad_request (codes "revoke requires 32-byte hex member_hash"))
  revoke_answer (some hash) members =
      let (members', revoked) = revoke_by_member_hash iter hash members in (members', json revoked)

  -- The `match` on the action's name.
  unfoldable pub apply_action : ManageAction → Inner → Inner × Response Bool
  unfolding revoke_answer hash_of
  apply_action action members =
      if bytes_eq action.action (codes "revoke")
      then revoke_answer (hash_of action.member_hash) members
      else (members, err bad_request (codes "unknown action"))

  -- The replay guard, and what it lets through.
  unfoldable pub run_action : ManageAction → Inner → Inner × Response Bool
  unfolding apply_action
  run_action action members =
      let (noted, new) = note_nonce action.nonce members in
      if not new then (noted, err conflict (codes "nonce replay")) else apply_action action noted

  module _ {Key : Type 0} (state : AppState Key Verifier) where
    abbrev pub refuse : ℕ → Bytes → Inner × Response Bool
    refuse code msg = (state.members, err code msg)

    -- The signed payload, once the signature is well formed.
    unfoldable pub checked : Bytes → Option deps.Signature → Inner × Response Bool
    unfolding run_action
    checked payload none = refuse unauthorized (codes "malformed signature")
    checked payload (some signature) =
        if not (verify state.anchors.orch_manage_pubkey payload signature)
        then refuse unauthorized (codes "signature invalid")
        else elim (parse_action payload) [
          | none ↦ refuse bad_request (codes "malformed action")
          | some action ↦ run_action action state.members
        ]

    unfoldable pub envelope : Option Bytes → Option Bytes → Inner × Response Bool
    unfolding checked
    envelope (some payload) (some signature) = checked payload (from_slice signature)
    envelope _ _ = refuse unauthorized (codes "malformed envelope")

    unfoldable pub handler : ManageEnvelope → Inner × Response Bool
    unfolding envelope
    handler env = envelope (b64_decode_any env.payload) (b64_decode_any env.signature)
