-- ===== src/System/RevokeTests.antt =====
-- A run of an enrolment, a revoke and an enrolment again.
use instance_lib.System.Requests.{manage-Runs}
use instance_lib.Codec.Hex.{hex_encode}
use instance_lib.System.Revocation.{dead_forever}
use instance_lib.Manage.Laws.{IsAuthentic}
use instance_lib.Manage.{apply_action, ManageAction}
use instance_lib.Prelude.{
  ◌⊎◌, List, Option, inr, true, ◌%◌, length, arith, replicate, bytes_eq, ◌++◌, In, ◌↔◌, ◌≡◌, ◌≤◌,
  ◌∷◌, [], some, none, refl, codes, Bytes, inl, false,
}
use instance_lib.Prelude.Map.{lookup}
use instance_lib.Codec.Base64.{b64url_nopad}
use instance_lib.State.{Pubkey, sessions, get_by_token, session_count, contains_token}
use instance_lib.Mtls.{call, assertion, verify_client_cert}
use instance_lib.System.{
  Step, applies, note_action, at_store, notes, Service, World, Reach, Runs, here, next, enrols,
  booted, enrolled_at,
}
use instance_lib.System.Invariant.{IsSane, times}
use instance_lib.System.Replay.{manage_replayed}
use instance_lib.Http.{status}
use instance_lib.System.Safety.{applied_once}
use instance_lib.Fixtures.{
  anchors, signed_envelope, revoke_action, byte_x509-AreBytes, plain_deps, request, point,
}
use instance_lib.System.Tests.{plain_service}

-- With a digest of 32 bytes, which a revoke can name.
abbrev wide_digest : Bytes → Bytes
wide_digest data' = replicate 32 (length data' % 256)

abbrev pub wide_service : Service
wide_service = record plain_service {
  sha256 = wide_digest;
  deps = record plain_deps {
    parse_action = λ payload.
        some (record revoke_action { member_hash = some (hex_encode (replicate 32 16)) });
  };
  manifest = record {
    cohort_id = codes "c1";
    members = record { pubkey = hex_encode (point 9); hash = hex_encode (replicate 32 16) } ∷ [];
  };
  anchors = record anchors { storekit_root_sha256 = replicate 32 2 };
}

pub wide-IsSane : IsSane wide_service
wide-IsSane = record {
  digests = λ data'. omega arith;
  octets = byte_x509-AreBytes;
  complete = λ entries e. (λ h. h, λ h. h);
}

abbrev wide_revoke : ManageAction
wide_revoke = record revoke_action { member_hash = some (hex_encode (replicate 32 16)) }

abbrev enrols_again : World → Bytes → World
enrols_again w random = record w {
  members = enrolled_at wide_service w.members random [] [] request;
  drawn = b64url_nopad random ∷ w.drawn;
}

abbrev pub listed : World
listed = enrols_again booted (codes "random")

abbrev pub noted : World
noted = note_action wide_revoke listed

abbrev pub revoked : World
revoked = record noted {
  members = (apply_action wide_service.deps wide_revoke noted.members).0;
  pending = [];
  applied = wide_revoke ∷ [];
}

abbrev pub back : World
back = enrols_again revoked (codes "random2")

pub listed-Reach : Reach wide_service listed
unfolding verify_client_cert instance_lib.Mtls.client_point_from_cert
    instance_lib.Manifest.contains_pubkey instance_lib.Codec.Hex.eq_ignore_ascii_case hex_encode
    instance_lib.Codec.Base64.b64_decode_any
listed-Reach = next here (enrols [] [] (codes "random") request refl (λ h. h))

pub wide_revoke-IsAuthentic :
    IsAuthentic wide_service.deps (at_store wide_service listed.members) signed_envelope wide_revoke
unfolding verify_client_cert instance_lib.Mtls.client_point_from_cert
    instance_lib.Manifest.contains_pubkey instance_lib.Codec.Hex.eq_ignore_ascii_case hex_encode
    instance_lib.Codec.Base64.b64_decode_any
wide_revoke-IsAuthentic = record {
  payload = codes "{}";
  sent = refl;
  sig_bytes = codes "sig";
  with_bytes = refl;
  signature = codes "sig";
  formed = refl;
  verified = refl;
  parsed = refl;
}

abbrev pub noted_step : Step wide_service listed noted
noted_step = notes signed_envelope wide_revoke wide_revoke-IsAuthentic

pub noted-Reach : Reach wide_service noted
noted-Reach = next listed-Reach noted_step

pub revoked-Reach : Reach wide_service revoked
unfolding note_action instance_lib.State.note_nonce instance_lib.Enroll.handler
    instance_lib.Mtls.call instance_lib.Mtls.accept instance_lib.Mtls.client_point_from_cert
    instance_lib.AppleJwks.verify_apple_jwt bytes_eq lookup instance_lib.AppleJwks.accept_claims
    instance_lib.AppleJwks.aud_contains instance_lib.Enroll.verify_storekit_jws
    instance_lib.Codec.Base64.b64_decode_any instance_lib.Codec.Uuid.uuid_eq
    instance_lib.Codec.Uuid.uuid_v5 hex_encode instance_lib.Codec.Sha1.sha1
    instance_lib.Codec.Hex.eq_ignore_ascii_case instance_lib.State.insert
revoked-Reach = next noted-Reach (applies [] wide_revoke [] refl)

pub back-Runs : Runs wide_service revoked back
unfolding verify_client_cert instance_lib.Mtls.client_point_from_cert
    instance_lib.Manifest.contains_pubkey instance_lib.Codec.Hex.eq_ignore_ascii_case hex_encode
    b64url_nopad note_action instance_lib.State.note_nonce instance_lib.Enroll.handler
    instance_lib.Mtls.call instance_lib.Mtls.accept instance_lib.AppleJwks.verify_apple_jwt lookup
    instance_lib.AppleJwks.accept_claims instance_lib.AppleJwks.aud_contains
    instance_lib.Enroll.verify_storekit_jws instance_lib.Codec.Base64.b64_decode_any
    instance_lib.Codec.Uuid.uuid_eq instance_lib.Codec.Uuid.uuid_v5 instance_lib.Codec.Sha1.sha1
    instance_lib.State.insert
back-Runs =
    next here (enrols [] [] (codes "random2") request refl (λ h. elim h [ inl e ↦ cc | inr e ↦ e ]))

pub bearer-drawn : In (codes "cmFuZG9t") revoked.drawn
unfolding note_action b64url_nopad instance_lib.State.note_nonce instance_lib.Enroll.handler
    instance_lib.Mtls.call instance_lib.Mtls.accept instance_lib.Mtls.client_point_from_cert
    instance_lib.AppleJwks.verify_apple_jwt bytes_eq lookup instance_lib.AppleJwks.accept_claims
    instance_lib.AppleJwks.aud_contains instance_lib.Enroll.verify_storekit_jws
    instance_lib.Codec.Base64.b64_decode_any instance_lib.Codec.Uuid.uuid_eq
    instance_lib.Codec.Uuid.uuid_v5 hex_encode instance_lib.Codec.Sha1.sha1
    instance_lib.Codec.Hex.eq_ignore_ascii_case instance_lib.State.insert
bearer-drawn = inl refl

pub bearer-dead : lookup (codes "cmFuZG9t") revoked.members.by_token ≡ none
unfolding note_action instance_lib.State.note_nonce instance_lib.Enroll.handler
    instance_lib.Mtls.call instance_lib.Mtls.accept instance_lib.Mtls.client_point_from_cert
    instance_lib.AppleJwks.verify_apple_jwt bytes_eq lookup instance_lib.AppleJwks.accept_claims
    instance_lib.AppleJwks.aud_contains instance_lib.Enroll.verify_storekit_jws
    instance_lib.Codec.Base64.b64_decode_any b64url_nopad apply_action
    instance_lib.Codec.Hex.hex_decode hex_encode instance_lib.Codec.Hex.eq_ignore_ascii_case
    instance_lib.Codec.Sha1.sha1 instance_lib.Codec.Uuid.uuid_eq instance_lib.Codec.Uuid.uuid_v5
    instance_lib.Manage.hash_of instance_lib.Manage.revoke_answer instance_lib.Prelude.Map.insert
    instance_lib.Prelude.Map.remove instance_lib.State.evict instance_lib.State.find_hash
    instance_lib.State.insert instance_lib.State.pushed instance_lib.State.remove_all
    instance_lib.State.revoke_by_member_hash sessions
bearer-dead = refl

applied_once_example :
    (times (codes "n-1") revoked.applied ≤ 1)
    × (1 ≤ times (codes "n-1") revoked.pending → times (codes "n-1") revoked.applied ≡ 0)
applied_once_example = applied_once wide_service wide-IsSane revoked revoked-Reach (codes "n-1")

dead_forever_example : contains_token (codes "cmFuZG9t") back.members ≡ false
unfolding contains_token
dead_forever_example =
    dead_forever wide_service wide-IsSane (codes "cmFuZG9t") revoked back revoked-Reach back-Runs
      bearer-drawn (rw bearer-dead refl)

manage-Runs_example :
    (v : World) × Runs wide_service listed v
    × (v.members
        ≡ (instance_lib.Manage.handler wide_service.deps
            (at_store wide_service listed.members)
            signed_envelope).0)
manage-Runs_example = manage-Runs wide_service listed signed_envelope

revoke_posted :
    revoked.members
    ≡ (instance_lib.Manage.handler wide_service.deps
        (at_store wide_service listed.members)
        signed_envelope).0
unfolding note_action instance_lib.State.note_nonce instance_lib.Enroll.handler
    instance_lib.Mtls.call instance_lib.Mtls.accept instance_lib.Mtls.client_point_from_cert
    instance_lib.AppleJwks.verify_apple_jwt bytes_eq lookup instance_lib.AppleJwks.accept_claims
    instance_lib.AppleJwks.aud_contains instance_lib.Enroll.verify_storekit_jws
    instance_lib.Codec.Base64.b64_decode_any b64url_nopad apply_action
    instance_lib.Codec.Hex.hex_decode hex_encode instance_lib.Codec.Hex.eq_ignore_ascii_case
    instance_lib.Codec.Sha1.sha1 instance_lib.Codec.Uuid.uuid_eq instance_lib.Codec.Uuid.uuid_v5
    instance_lib.Manage.hash_of instance_lib.Manage.revoke_answer instance_lib.Prelude.Map.insert
    instance_lib.Prelude.Map.remove instance_lib.State.evict instance_lib.State.find_hash
    instance_lib.State.insert instance_lib.State.pushed instance_lib.State.remove_all
    instance_lib.State.revoke_by_member_hash sessions instance_lib.Manage.handler
    instance_lib.Manage.run_action instance_lib.Manage.checked instance_lib.Manage.envelope
revoke_posted = refl

-- The revoke that was posted before the second enrolment is posted again after it.
manage_replayed_example :
    let once =
      instance_lib.Manage.handler wide_service.deps
        (at_store wide_service listed.members)
        signed_envelope in
    let again =
      instance_lib.Manage.handler wide_service.deps
        (at_store wide_service back.members)
        signed_envelope in
    (again.0 ≡ back.members) × ((again.1 ≡ once.1) ⊎ (status again.1 ≡ 409))
manage_replayed_example =
    manage_replayed wide_service listed revoked back signed_envelope revoke_posted back-Runs
