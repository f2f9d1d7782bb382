-- ===== src/Chat/Channel/Delivery.antt =====
-- A client that reads on takes what is in the channel, and the task's last frame after it.
use instance_lib.Prelude.{
  Bytes, Bool, true, List, [], ◌∷◌, ◌++◌, ◌≡◌, refl, sym, ap, ◌∙◌, subst, append-nil, append_assoc,
  arith,
}
use instance_lib.State.{Inner}
use instance_lib.Chat.{relay}
use instance_lib.Chat.Channel.{
  Stream, Task, listening, holding, sending, stopped, Move, Moves, rest, move, opened, sends,
  delivers, after_send,
}
use instance_lib.Chat.Channel.Totals.{flight, total, total-task}
use instance_lib.Chat.Channel.Refinement.{Moves-whole, turns_of}

module _ (token : Bytes) (Sees : Inner → Type 0) where
  before-Moves :
      {a b c : Stream} → Move token Sees a b → Moves token Sees b c → Moves token Sees a c
  before-Moves step rest = move rest step
  before-Moves step (move run last) = move (before-Moves step run) last

  emptied :
      (a : Stream) (buffer : List Bytes)
      → a.reading ≡ true
      → a.buffer ≡ buffer
      → Moves token Sees a (record a { buffer = []; received = a.received ++ buffer })
  emptied a [] reads e =
      subst (Moves token Sees a)
        (ap (λ (b : List Bytes). record a { buffer = b }) e
          ∙ ap (λ (got : List Bytes). record a { buffer = []; received = got })
              (sym (append-nil a.received)))
        rest
  emptied a (x ∷ buffer) reads e = before-Moves (delivers x buffer reads e) (
      subst
        (λ (got : List Bytes).
          Moves token Sees (record a { buffer = buffer; received = a.received ++ x ∷ [] })
            (record a { buffer = []; received = got }))
        (append_assoc a.received (x ∷ []) buffer)
        (emptied (record a { buffer = buffer; received = a.received ++ x ∷ [] }) buffer reads refl))

  -- The client gets all that the task sent.
  abbrev Reaches : Stream → Type 0
  Reaches a = (b : Stream) × Moves token Sees a b × (b.seen ≡ a.seen) × (b.received ≡ total a)

  without_flight : (a : Stream) → flight a.task ≡ [] → a.reading ≡ true → Reaches a
  without_flight a none' reads = (
    record a { buffer = []; received = a.received ++ a.buffer },
    emptied a a.buffer reads refl,
    refl,
    ap (λ b. a.received ++ b) (sym (append-nil a.buffer) ∙ ap (λ f. a.buffer ++ f) (sym none')),
  )

  with_flight :
      (a : Stream) (last : Bool) (data' : Bytes)
      → a.task ≡ sending last data'
      → a.reading ≡ true
      → Reaches a
  with_flight a last data' e reads = (
    record a {
      task = after_send last;
      buffer = [];
      received = (a.received ++ a.buffer) ++ data' ∷ [];
    },
    move (move (emptied a a.buffer reads refl) (sends last data' e reads (omega arith)))
        (delivers data' [] reads refl),
    refl,
    append_assoc a.received a.buffer (data' ∷ []) ∙ sym (total-task a (sending last data') e),
  )

  drained : (a : Stream) (t : Task) → a.task ≡ t → a.reading ≡ true → Reaches a
  drained a listening e reads = without_flight a (ap flight e) reads
  drained a (holding data') e reads = without_flight a (ap flight e) reads
  drained a stopped e reads = without_flight a (ap flight e) reads
  drained a (sending last data') e reads = with_flight a last data' e reads

  -- In every state of the stream in which the client still reads, the task, the channel and the
  -- client can go on, without another check, until the client has got all that the relay makes of
  -- the data checked so far and of the stores that the checks saw: a full channel blocks no stream.
  pub Moves-drained :
      (a : Stream)
      → Moves token Sees opened a
      → a.reading ≡ true
      → (b : Stream) × Moves token Sees a b
        × (b.seen ≡ a.seen)
        × (b.received ≡ relay token (turns_of a.seen))
  Moves-drained a run reads =
      let (b, on, seen, got) = drained a a.task refl reads in
      (b, on, seen, got ∙ Moves-whole token Sees a run reads)
