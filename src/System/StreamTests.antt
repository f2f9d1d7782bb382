-- ===== src/System/StreamTests.antt =====
-- A stream over a revoke: one frame waits for room when its bearer is revoked.
use instance_lib.Prelude.{
  if◌then◌else◌, Bytes, true, false, List, [], ◌∷◌, ◌++◌, ◌≡◌, refl, codes, bytes_eq, length, ◌≤◌,
  ◌+◌, ap, ◌∙◌, subst, arith,
}
use instance_lib.Prelude.Map.{lookup}
use instance_lib.Codec.Base64.{b64url_nopad}
use instance_lib.Codec.Hex.{hex_encode}
use instance_lib.State.{Inner, contains_token, sessions}
use instance_lib.Chat.{revoked_frame, chunk}
use instance_lib.Chat.Relay.{IsCut}
use instance_lib.Chat.Channel.{
  channel_size, Stream, opened, sending, after_check, Moves, rest, move, arrives, checks, sends,
}
use instance_lib.Chat.Channel.Totals.{backlog}
use instance_lib.System.Streams.{IsLater, later, stream_drained}
use instance_lib.System.RevokeTests.{
  wide_service, wide-IsSane, listed, revoked, back, revoked-Reach, back-Runs, bearer-drawn,
  bearer-dead,
}

abbrev bearer : Bytes
bearer = codes "cmFuZG9t"

abbrev SeesListed : Inner → Type 0
SeesListed members = members ≡ listed.members

abbrev waiting : Stream
waiting = record opened {
  task = sending false (codes "a");
  seen = (codes "a", listed.members) ∷ [];
}

listed_live : contains_token bearer listed.members ≡ true
unfolding contains_token instance_lib.Enroll.handler instance_lib.Mtls.call instance_lib.Mtls.accept
    instance_lib.Mtls.client_point_from_cert instance_lib.AppleJwks.verify_apple_jwt bytes_eq lookup
    instance_lib.AppleJwks.accept_claims instance_lib.AppleJwks.aud_contains
    instance_lib.Enroll.verify_storekit_jws instance_lib.Codec.Base64.b64_decode_any b64url_nopad
    instance_lib.Codec.Hex.hex_decode hex_encode instance_lib.Codec.Hex.eq_ignore_ascii_case
    instance_lib.Codec.Sha1.sha1 instance_lib.Codec.Uuid.uuid_eq instance_lib.Codec.Uuid.uuid_v5
    instance_lib.Prelude.Map.insert instance_lib.Prelude.Map.remove instance_lib.State.evict
    instance_lib.State.insert instance_lib.State.pushed instance_lib.State.remove_all sessions
listed_live = refl

waiting-Moves : Moves bearer SeesListed opened waiting
waiting-Moves =
    subst
      (λ ok. Moves bearer SeesListed opened (record waiting {
        task = if ok then sending false (codes "a") else sending true revoked_frame;
      }))
      listed_live
      (move (move rest (arrives (chunk (codes "a")) refl))
        (checks (codes "a") listed.members refl refl))

-- The frame goes out, and the next is checked against the store that the revoke left.
abbrev after_next : Stream
after_next = record waiting {
  task = after_check bearer (codes "b") back.members;
  buffer = codes "a" ∷ [];
  seen = (codes "a", listed.members) ∷ (codes "b", back.members) ∷ [];
}

after_next-Moves : Moves bearer (IsLater wide_service revoked) waiting after_next
after_next-Moves =
    move
      (move (move rest (sends false (codes "a") refl refl (omega arith)))
        (arrives (chunk (codes "b")) refl))
      (checks (codes "b") back.members (later back back-Runs refl) refl)

stream_drained_example :
    (got left added : List Bytes) × (after_next.received ≡ waiting.received ++ got)
    × (got ++ left ≡ backlog waiting ++ added)
    × IsCut added
    × (length (backlog waiting) ≤ 1 + channel_size)
unfolding contains_token
stream_drained_example =
    stream_drained wide_service wide-IsSane bearer revoked SeesListed waiting after_next
      revoked-Reach bearer-drawn (rw bearer-dead refl) waiting-Moves after_next-Moves
