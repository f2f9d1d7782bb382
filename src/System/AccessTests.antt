-- ===== src/System/AccessTests.antt =====
-- A device that enrols, and one that is revoked.
use instance_lib.Codec.Base64.{b64url_nopad}
use instance_lib.Enroll.Entitled.{IsEntitled}
use instance_lib.Prelude.{
  arith, [], ◌∷◌, ℕ, Bytes, some, none, ◌≡◌, ◌++◌, codes, refl, replicate, sym, inl, inr,
  Bool-cases, bytes_eq, bytes_eq_iff,
}
use instance_lib.Prelude.Map.{lookup}
use instance_lib.Http.{json, err}
use instance_lib.State.{Member, Pubkey, insert}
use instance_lib.Enroll
use instance_lib.Manage.{run_action, hash_of}
use instance_lib.Codec.Hex.{hex_encode, hex_decode}
use instance_lib.Chat.{bearer, live_bearer, handler}
use instance_lib.System.Access.{entitled_chats, revoked_unauthorized}
use instance_lib.Fixtures.{
  digest-AreBytes, point-AreBytes, transaction, identity, plain_x509, plain_jwt, digest,
  lower_other, state, request, point, plain_backend, plain_deps, revoke_action, one_device,
  one_device-IsConsistent,
}

entitled : IsEntitled plain_x509 plain_jwt digest lower_other state (point 9) request
unfolding lookup instance_lib.AppleJwks.verify_apple_jwt bytes_eq
    instance_lib.AppleJwks.accept_claims instance_lib.AppleJwks.aud_contains
    instance_lib.Enroll.verify_storekit_jws instance_lib.Codec.Base64.b64_decode_any
    instance_lib.Codec.Hex.hex_encode instance_lib.Codec.Hex.hex_decode instance_lib.Codec.Sha1.sha1
    instance_lib.Codec.Uuid.stamped instance_lib.Codec.Uuid.Compare.without_hyphens
entitled = record {
  claims = identity;
  tx = transaction;
  apple = refl;
  storekit = refl;
  got = codes "0dd14662-856c-5f35-9ae5-34cea39f5d13";
  named = refl;
  ascii = omega arith;
  account = refl;
  entry = record { pubkey = hex_encode (point 9); hash = hex_encode (16 ∷ []) };
  held = inl refl;
  point = refl;
  hash = refl;
  point_bytes = point-AreBytes;
  hash_bytes = digest-AreBytes (identity.sub ++ transaction.original_transaction_id);
}

entitled_chats_example :
    let (members, answer) =
      instance_lib.Enroll.handler plain_x509 plain_jwt digest lower_other state
        (codes "random")
        (some (point 9))
        request in
    (answer ≡ json (b64url_nopad (codes "random")))
    × (live_bearer plain_backend
          (bearer (some (codes "Bearer " ++ b64url_nopad (codes "random"))))
          members
        ≡ some (b64url_nopad (codes "random")))
entitled_chats_example =
    entitled_chats plain_x509 plain_jwt digest lower_other state plain_backend (codes "random")
      (point 9) request entitled

only_member :
    (j : Pubkey) (n : Member)
    → lookup j one_device.by_pubkey ≡ some n
    → n.member_hash ≡ replicate 32 7
    → j ≡ point 7
unfolding lookup insert instance_lib.Prelude.Map.insert
only_member j n e h = elim (Bool-cases (bytes_eq (point 7) j)) [
  | inl same ↦ sym ((bytes_eq_iff (point 7) j).0 same)
  | inr other ↦ absurd (cc (rw other at e))
]

revoked_unauthorized_example :
    handler plain_backend
      (some (codes "Bearer " ++ codes "bearer-a"))
      (codes "{}")
      (run_action plain_deps revoke_action one_device).0
    ≡ err 401 (codes "invalid bearer")
unfolding hash_of hex_encode hex_decode insert lookup instance_lib.Prelude.Map.insert bytes_eq
    instance_lib.State.evict instance_lib.State.pushed instance_lib.State.remove_all
revoked_unauthorized_example =
    revoked_unauthorized plain_deps (λ entries e. (λ h. h, λ h. h)) revoke_action (replicate 32 7)
      one_device one_device-IsConsistent refl refl refl (point 7)
      (record {
        member_hash = replicate 32 7;
        original_tx_id = codes "tx-1";
        sessions = codes "bearer-a" ∷ [];
      })
      refl refl only_member (codes "bearer-a") refl plain_backend (codes "{}")
