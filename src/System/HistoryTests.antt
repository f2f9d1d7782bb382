-- ===== src/System/HistoryTests.antt =====
-- A chat request between an enrolment and a revoke.
use instance_lib.Prelude.{
  replicate, none, List, Bytes, true, some, ◌≡◌, ◌++◌, ◌∷◌, [], refl, codes, bytes_eq,
}
use instance_lib.Prelude.Map.{lookup}
use instance_lib.Http.{json}
use instance_lib.Codec.Base64.{b64url_nopad}
use instance_lib.Codec.Hex.{hex_encode}
use instance_lib.State.{contains_token, sessions, Pubkey, MemberEntry, get_by_token}
use instance_lib.Chat
use instance_lib.Chat.{Backend, chunk, bearer, live_bearer}
use instance_lib.System.Undisturbed.{AllSpare, Spares, bearer_undisturbed}
use instance_lib.Attestation
use instance_lib.Mtls.{verify_client_cert, assertion}
use instance_lib.System.{World, Runs, Step, attests, next, here, client_of}
use instance_lib.System.Owners.{Enrolment, after}
use instance_lib.System.History.{served_enrolled}
use instance_lib.System.Registry.{Leads, reached_registry}
use instance_lib.State.Registry.{empty_registry}
use instance_lib.State.Registry.Refinement.{view}
use instance_lib.System.RevokeTests.{
  revoked, revoked-Reach, wide_service, wide-IsSane, listed, listed-Reach, noted, noted_step,
  noted-Reach,
}
use instance_lib.Fixtures.{plain_backend, point}

-- A backend that answers one frame while the bearer is live.
abbrev one_frame : Backend
one_frame = record plain_backend {
  send = λ sent. some (record {
    is_success = true;
    code = 200;
    turns = record { frame = chunk (codes "a"); members = noted.members; reads = true } ∷ [];
  });
}

noted_served :
    instance_lib.Chat.handler one_frame
      (some (codes "Bearer " ++ codes "cmFuZG9t"))
      (codes "{}")
      noted.members
    ≡ json (codes "a" ∷ [])
unfolding contains_token instance_lib.Enroll.handler instance_lib.Mtls.call instance_lib.Mtls.accept
    instance_lib.Mtls.client_point_from_cert instance_lib.AppleJwks.verify_apple_jwt bytes_eq lookup
    instance_lib.AppleJwks.accept_claims instance_lib.AppleJwks.aud_contains
    instance_lib.Enroll.verify_storekit_jws instance_lib.Codec.Base64.b64_decode_any b64url_nopad
    instance_lib.Codec.Hex.hex_decode hex_encode instance_lib.Codec.Hex.eq_ignore_ascii_case
    instance_lib.Codec.Sha1.sha1 instance_lib.Codec.Uuid.uuid_eq instance_lib.Codec.Uuid.uuid_v5
    instance_lib.Prelude.Map.insert instance_lib.Prelude.Map.remove instance_lib.State.evict
    instance_lib.State.insert instance_lib.State.pushed instance_lib.State.remove_all sessions
    instance_lib.System.note_action instance_lib.State.note_nonce instance_lib.Chat.handler
    instance_lib.Chat.bearer instance_lib.Chat.live_bearer instance_lib.Chat.answer
    instance_lib.Chat.relay instance_lib.Chat.strip_prefix
noted_served = refl

served_enrolled_example :
    (t : Bytes) × (pk : Pubkey) × (o : Enrolment wide_service t pk) × (some
        (codes "Bearer " ++ codes "cmFuZG9t")
      ≡ some (codes "Bearer " ++ t))
    × Runs wide_service (after o) noted
    × ((v : World)
        → Runs wide_service (after o) v
        → Runs wide_service v noted
        → lookup t v.members.by_token ≡ some pk)
served_enrolled_example =
    served_enrolled wide_service wide-IsSane noted noted-Reach one_frame
      (some (codes "Bearer " ++ codes "cmFuZG9t")) (codes "{}") (codes "a" ∷ []) noted_served

abbrev listed_entry : MemberEntry
listed_entry = record {
  client_pubkey = point 9;
  member_hash = replicate 32 16;
  session_token = codes "cmFuZG9t";
  original_tx_id = codes "tx-1";
}

listed-found : get_by_token (codes "cmFuZG9t") listed.members ≡ some listed_entry
unfolding contains_token instance_lib.Enroll.handler instance_lib.Mtls.call instance_lib.Mtls.accept
    instance_lib.Mtls.client_point_from_cert instance_lib.AppleJwks.verify_apple_jwt bytes_eq lookup
    instance_lib.AppleJwks.accept_claims instance_lib.AppleJwks.aud_contains
    instance_lib.Enroll.verify_storekit_jws instance_lib.Codec.Base64.b64_decode_any b64url_nopad
    instance_lib.Codec.Hex.hex_decode hex_encode instance_lib.Codec.Hex.eq_ignore_ascii_case
    instance_lib.Codec.Sha1.sha1 instance_lib.Codec.Uuid.uuid_eq instance_lib.Codec.Uuid.uuid_v5
    instance_lib.Prelude.Map.insert instance_lib.Prelude.Map.remove instance_lib.State.evict
    instance_lib.State.insert instance_lib.State.pushed instance_lib.State.remove_all sessions
    instance_lib.System.note_action instance_lib.State.note_nonce instance_lib.Chat.handler
    instance_lib.Chat.bearer instance_lib.Chat.live_bearer instance_lib.Chat.answer
    instance_lib.Chat.relay instance_lib.Chat.strip_prefix get_by_token
listed-found = refl

-- A revoke is signed and noted, and not applied yet; and somebody asks for an attestation.
abbrev attested : World
attested = record noted {
  members =
      (instance_lib.Attestation.handler wide_service.sha256 wide_service.kernel wide_service.helper
        (client_of wide_service [] []) 7 wide_service.boot.spki_sha256 none noted.members
        (record { fs = 0; seq = 5 })).0;
}

leaf_verified : verify_client_cert wide_service.x wide_service.manifest [] ≡ assertion
unfolding verify_client_cert instance_lib.Mtls.client_point_from_cert
    instance_lib.Manifest.contains_pubkey instance_lib.Codec.Hex.eq_ignore_ascii_case hex_encode
leaf_verified = refl

abbrev attested_runs : Runs wide_service listed attested
attested_runs =
    next (next here noted_step) (attests [] [] 7 none (record { fs = 0; seq = 5 }) leaf_verified)

attested-AllSpare : AllSpare wide_service (point 9) (replicate 32 16) listed attested attested_runs
unfolding AllSpare Spares
attested-AllSpare = ((tt, tt), tt)

bearer_undisturbed_example :
    (get_by_token (codes "cmFuZG9t") attested.members ≡ some listed_entry)
    × (live_bearer plain_backend
          (bearer (some (codes "Bearer " ++ codes "cmFuZG9t")))
          attested.members
        ≡ some (codes "cmFuZG9t"))
bearer_undisturbed_example =
    bearer_undisturbed wide_service wide-IsSane listed attested listed-Reach (codes "cmFuZG9t")
      listed_entry listed-found attested_runs attested-AllSpare plain_backend

reached_registry_example : Leads wide_service revoked empty_registry (view revoked.members)
reached_registry_example = reached_registry wide_service wide-IsSane revoked revoked-Reach
