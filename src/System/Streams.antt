-- ===== src/System/Streams.antt =====
-- The channel of a stream while the service runs on.
use instance_lib.Prelude.{Bytes, false, List, ◌++◌, ◌≡◌, ◌∙◌, ap, In, length, ◌≤◌, ◌+◌}
use instance_lib.State.{Inner, contains_token}
use instance_lib.Chat.Relay.{IsCut}
use instance_lib.Chat.Channel.{channel_size, Stream, opened, Moves}
use instance_lib.Chat.Channel.Totals.{backlog}
use instance_lib.Chat.Channel.Backlog.{Moves-IsCut, backlog_bounded}
use instance_lib.System.{Service, World, Runs, Reach}
use instance_lib.System.Invariant.{IsSane}
use instance_lib.System.Revocation.{dead_forever}

-- The stores from a moment on.
pub data IsLater (s : Service) (w : World) (members : Inner) : Type 0 where
  later : (v : World) → Runs s w v → members ≡ v.members → IsLater s w members

module _ (s : Service) (sane : IsSane s) (token : Bytes) (w : World) where
  later_dead :
      Reach s w
      → In token w.drawn
      → contains_token token w.members ≡ false
      → (members : Inner) → IsLater s w members
      → contains_token token members ≡ false
  later_dead r drawn dead members (later v runs same) =
      ap (contains_token token) same ∙ dead_forever s sane token w v r runs drawn dead

  -- Where digests and the octets of keys are bytes, the iteration of a map hands out its entries and
  -- no others, and no enrolment draws a bearer that was drawn before: from a moment at which the
  -- bearer of a stream was drawn and is dead, whatever requests come in and however the relay task
  -- and the client go on, what the client still gets is a prefix of the at most 17 frames that were
  -- on their way at that moment, at most followed by the frame that says that the session was
  -- revoked.
  pub stream_drained :
      (Sees : Inner → Type 0) (a b : Stream)
      → Reach s w
      → In token w.drawn
      → contains_token token w.members ≡ false
      → Moves token Sees opened a
      → Moves token (IsLater s w) a b
      → (got left added : List Bytes) × (b.received ≡ a.received ++ got)
        × (got ++ left ≡ backlog a ++ added)
        × IsCut added
        × (length (backlog a) ≤ 1 + channel_size)
  stream_drained Sees a b r drawn dead before after =
      let (got, left, added, e, split, cut) =
        Moves-IsCut token (IsLater s w) (later_dead r drawn dead) a b after in
      (got, left, added, e, split, cut, backlog_bounded token Sees a before)
