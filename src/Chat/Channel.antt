-- ===== src/Chat/Channel.antt =====
-- src/chat.rs: the relay task, the bounded channel that it sends into, and the client at the other end.
-- The task waits for a frame, for the store's lock, and for room in the channel; what happens between
-- two waits is a move, so a run of moves is any interleaving of the task, the client and a revoke.
pub mod Totals
pub mod Refinement
pub mod Backlog
pub mod Delivery
mod Tests
use instance_lib.Prelude.{
  ℕ, Bytes, Bool, true, false, List, [], ◌∷◌, ◌++◌, length, ◌<◌, ◌≡◌, if◌then◌else◌,
}
use instance_lib.State.{Inner, contains_token}
use instance_lib.Chat.{Frame, failed, no_data, chunk, revoked_frame}

-- `channel(16)`.
abbrev pub channel_size : ℕ
channel_size = 16

-- Where the task stands. `sending` waits for room; the flag says that it returns after that.
pub data Task : Type 0 where
  listening : Task
  holding : Bytes → Task
  sending : Bool → Bytes → Task
  stopped : Task

-- The task, the channel, whether the client still reads and what it has got; and, for the statements,
-- the data that was checked with the store that each check saw.
pub record Stream : Type 0 where
  pub task : Task
  pub buffer : List Bytes
  pub reading : Bool
  pub received : List Bytes
  pub seen : List (Bytes × Inner)

abbrev pub opened : Stream
opened = record { task = listening; buffer = []; reading = true; received = []; seen = [] }

-- `let Ok(frame) = frame else { return }; let Ok(data) = frame.into_data() else { continue };`.
abbrev pub after_frame : Frame → Task
after_frame failed = stopped
after_frame no_data = listening
after_frame (chunk data') = holding data'

abbrev pub after_check : Bytes → Bytes → Inner → Task
after_check token data' members =
    if contains_token token members then sending false data' else sending true revoked_frame

abbrev pub after_send : Bool → Task
after_send true = stopped
after_send false = listening

-- `Sees` says which stores a check may see.
module _ (token : Bytes) (Sees : Inner → Type 0) where
  pub data Move (a : Stream) : Stream → Type 0 where
    arrives : (frame : Frame) → a.task ≡ listening → Move a (record a { task = after_frame frame })
    ends : a.task ≡ listening → Move a (record a { task = stopped })
    checks :
        (data' : Bytes) (members : Inner)
        → Sees members
        → a.task ≡ holding data'
        → Move a (record a {
          task = after_check token data' members;
          seen = a.seen ++ (data', members) ∷ [];
        })
    sends :
        (last : Bool) (data' : Bytes)
        → a.task ≡ sending last data'
        → a.reading ≡ true
        → length a.buffer < channel_size
        → Move a (record a { task = after_send last; buffer = a.buffer ++ data' ∷ [] })
    hangs :
        (last : Bool) (data' : Bytes)
        → a.task ≡ sending last data'
        → a.reading ≡ false
        → Move a (record a { task = stopped })
    delivers :
        (data' : Bytes) (rest : List Bytes)
        → a.reading ≡ true
        → a.buffer ≡ data' ∷ rest
        → Move a (record a { buffer = rest; received = a.received ++ data' ∷ [] })
    drops : Move a (record a { reading = false })

  pub data Moves (a : Stream) : Stream → Type 0 where
    rest : Moves a a
    move : {b c : Stream} → Moves a b → Move b c → Moves a c
