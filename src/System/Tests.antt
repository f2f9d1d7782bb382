-- ===== src/System/Tests.antt =====
-- A run of one enrolment.
use instance_lib.Codec.Hex.{hex_encode}
use instance_lib.Prelude.{
  List, Option, inr, true, ◌%◌, length, arith, replicate, bytes_eq, ◌++◌, In, ◌↔◌, ◌≡◌, ◌≤◌, ◌∷◌,
  [], some, none, refl, codes, Bytes, inl, false,
}
use instance_lib.Prelude.Map.{lookup}
use instance_lib.Codec.Base64.{b64url_nopad}
use instance_lib.State.{Pubkey, sessions, get_by_token, session_count, contains_token}
use instance_lib.Mtls.{call, assertion, verify_client_cert}
use instance_lib.System.{Service, World, Reach, here, next, enrols, booted, enrolled_at}
use instance_lib.System.Invariant.{IsSane, IsListed}
use instance_lib.System.Safety.{get_by_token-IsListed}
use instance_lib.Fixtures.{
  byte_x509, byte_x509-AreBytes, plain_jwt, digest, digest-AreBytes, lower_other, plain_deps,
  plain_kernel, plain_helper, boot, manifest, anchors, request, point,
}

abbrev pub plain_service : Service
plain_service = record {
  x = byte_x509;
  jwt = plain_jwt;
  sha256 = digest;
  lowercase = lower_other;
  deps = plain_deps;
  kernel = plain_kernel;
  helper = plain_helper;
  boot = boot;
  manifest = manifest;
  anchors = anchors;
}

plain-IsSane : IsSane plain_service
plain-IsSane = record {
  digests = digest-AreBytes;
  octets = byte_x509-AreBytes;
  complete = λ entries e. (λ h. h, λ h. h);
}

abbrev enrolled_world : World
enrolled_world = record booted {
  members = enrolled_at plain_service booted.members (codes "random") [] [] request;
  drawn = b64url_nopad (codes "random") ∷ [];
}

enrolled-Reach : Reach plain_service enrolled_world
unfolding verify_client_cert instance_lib.Mtls.client_point_from_cert
    instance_lib.Manifest.contains_pubkey instance_lib.Codec.Hex.eq_ignore_ascii_case
    instance_lib.Codec.Hex.hex_encode
enrolled-Reach = next here (enrols [] [] (codes "random") request refl (λ h. h))

get_by_token-IsListed_example : IsListed manifest (point 9) (16 ∷ [])
unfolding get_by_token lookup instance_lib.Enroll.handler instance_lib.AppleJwks.verify_apple_jwt
    bytes_eq instance_lib.AppleJwks.accept_claims instance_lib.AppleJwks.aud_contains
    instance_lib.Enroll.verify_storekit_jws instance_lib.Codec.Base64.b64_decode_any
    instance_lib.Codec.Uuid.uuid_eq instance_lib.Codec.Uuid.uuid_v5
    instance_lib.Codec.Hex.hex_encode instance_lib.Codec.Sha1.sha1
    instance_lib.Codec.Hex.eq_ignore_ascii_case instance_lib.State.insert
    instance_lib.Prelude.Map.insert instance_lib.State.remove_all instance_lib.State.evict
    instance_lib.Codec.Base64.b64url_nopad instance_lib.State.pushed instance_lib.State.sessions
    instance_lib.Mtls.call instance_lib.Mtls.accept instance_lib.Mtls.client_point_from_cert
get_by_token-IsListed_example =
    get_by_token-IsListed plain_service plain-IsSane enrolled_world enrolled-Reach
      (codes "cmFuZG9t")
      (record {
        client_pubkey = point 9;
        member_hash = 16 ∷ [];
        session_token = codes "cmFuZG9t";
        original_tx_id = codes "tx-1";
      })
      refl
