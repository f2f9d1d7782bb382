-- ===== src/Chat/Channel/Tests.antt =====
-- src/chat.rs: a frame through the channel of a small stream.
use instance_lib.Prelude.{◌⊎◌, Bytes, true, false, List, [], ◌∷◌, ◌++◌, ◌≡◌, refl, codes}
use instance_lib.Prelude.Map.{lookup}
use instance_lib.State.{Inner, contains_token, insert}
use instance_lib.Chat.{chunk, relay}
use instance_lib.Chat.Channel.{Stream, opened, sending, Moves, rest, move, arrives, checks}
use instance_lib.Chat.Channel.Totals.{backlog}
use instance_lib.Chat.Channel.Refinement.{turns_of, Moves-relay}
use instance_lib.Chat.Channel.Delivery.{Moves-drained}
use instance_lib.Fixtures.{one_device}

abbrev SeesOne : Inner → Type 0
SeesOne members = members ≡ one_device

-- The first frame waits for room.
abbrev waiting : Stream
waiting = record opened { task = sending false (codes "a"); seen = (codes "a", one_device) ∷ [] }

waiting-Moves : Moves (codes "bearer-a") SeesOne opened waiting
unfolding contains_token lookup insert instance_lib.Prelude.Map.insert instance_lib.State.remove_all
    instance_lib.State.evict instance_lib.State.pushed instance_lib.Prelude.bytes_eq
waiting-Moves =
    move (move rest (arrives (chunk (codes "a")) refl)) (checks (codes "a") one_device refl refl)

Moves-relay_example :
    (lost : List Bytes) × (waiting.received ++ (backlog waiting ++ lost)
      ≡ relay (codes "bearer-a") (turns_of waiting.seen))
    × ((lost ≡ []) ⊎ (waiting.reading ≡ false))
Moves-relay_example = Moves-relay (codes "bearer-a") SeesOne waiting waiting-Moves

Moves-drained_example :
    (b : Stream) × Moves (codes "bearer-a") SeesOne waiting b
    × (b.seen ≡ waiting.seen)
    × (b.received ≡ relay (codes "bearer-a") (turns_of waiting.seen))
Moves-drained_example = Moves-drained (codes "bearer-a") SeesOne waiting waiting-Moves refl
