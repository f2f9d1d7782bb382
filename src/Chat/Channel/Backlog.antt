-- ===== src/Chat/Channel/Backlog.antt =====
-- A stream whose bearer is dead: what of it is still on its way to the client.
use instance_lib.Prelude.{
  ◌+◌, Bytes, false, List, [], ◌∷◌, ◌++◌, ◌≡◌, inl, inr, refl, sym, ap, ◌∙◌, append-nil,
  append_assoc, append_cancel_left, length, length-append, ◌≤◌, arith, false≢true,
}
use instance_lib.State.{Inner, contains_token}
use instance_lib.Chat.{revoked_frame}
use instance_lib.Chat.Relay.{IsCut}
use instance_lib.Chat.Channel.{
  channel_size, Stream, Task, listening, holding, sending, stopped, Move, arrives, ends, checks,
  sends, hangs, delivers, drops, Moves, rest, move, opened,
}
use instance_lib.Chat.Channel.Totals.{
  flight, backlog, total, Active, IsQuiet, IsChecked, Move-cases,
}

module _ (token : Bytes) (Sees : Inner → Type 0) where
  step-IsBounded :
      (a b : Stream)
      → Move token Sees a b
      → length a.buffer ≤ channel_size
      → length b.buffer ≤ channel_size
  step-IsBounded a _ (arrives frame e) h = h
  step-IsBounded a _ (ends e) h = h
  step-IsBounded a _ (checks data' members saw e) h = h
  step-IsBounded a _ (sends last data' e reading room) h =
      omega (arith, length-append a.buffer (data' ∷ []))
  step-IsBounded a _ (hangs last data' e gone) h = h
  step-IsBounded a _ (delivers data' later reading e) h = omega (arith, ap length e)
  step-IsBounded a _ drops h = h

  pub Moves-IsBounded : (b : Stream) → Moves token Sees opened b → length b.buffer ≤ channel_size
  Moves-IsBounded _ rest = omega arith
  Moves-IsBounded c (move {b} run step) = step-IsBounded b c step (Moves-IsBounded b run)

  -- The client keeps what it has.
  Move-received :
      (a b : Stream) → Move token Sees a b → (got : List Bytes) × (b.received ≡ a.received ++ got)
  Move-received a _ (arrives frame e) = ([], sym (append-nil _))
  Move-received a _ (ends e) = ([], sym (append-nil _))
  Move-received a _ (checks data' members saw e) = ([], sym (append-nil _))
  Move-received a _ (sends last data' e reading room) = ([], sym (append-nil _))
  Move-received a _ (hangs last data' e gone) = ([], sym (append-nil _))
  Move-received a _ (delivers data' later reading e) = (data' ∷ [], refl)
  Move-received a _ drops = ([], sym (append-nil _))

  Moves-received :
      (a b : Stream) → Moves token Sees a b → (got : List Bytes) × (b.received ≡ a.received ++ got)
  Moves-received a _ rest = ([], sym (append-nil _))
  Moves-received a c (move {b} run step) =
      let (early, e) = Moves-received a b run in
      let (late, f) = Move-received b c step in
      (early ++ late, f ∙ ap (λ out. out ++ late) e ∙ append_assoc a.received early late)

  -- Since `a`, only the revoked frame has been added, and then the task does nothing more.
  record IsDraining (a b : Stream) : Type 0 where
    lost : List Bytes
    added : List Bytes
    cut : IsCut added
    holds : total b ++ lost ≡ total a ++ added
    none_yet : Active b.task → (lost ≡ []) × (added ≡ [])

  quiet-IsDraining : (a b c : Stream) → IsQuiet b c → IsDraining a b → IsDraining a c
  quiet-IsDraining a b c q r = record {
    lost = q.dropped ++ r.lost;
    added = r.added;
    cut = r.cut;
    holds =
        sym (append_assoc (total c) q.dropped r.lost)
        ∙ ap (λ out. out ++ r.lost) (sym q.split)
        ∙ r.holds;
    none_yet = λ h.
        let (active, none') = q.active h in (rw none' (r.none_yet active).0, (r.none_yet active).1);
  }

  module _ (dead : (members : Inner) → Sees members → contains_token token members ≡ false) where
    checked-IsDraining :
        (a b c : Stream) → IsChecked token Sees b c → IsDraining a b → IsDraining a c
    checked-IsDraining a b c k r =
        let (lost', added') = r.none_yet k.before in
        record {
          lost = [];
          added = revoked_frame ∷ [];
          cut = inr refl;
          holds =
              append-nil _
              ∙ k.grown
              ∙ ap (λ d. total b ++ d ∷ []) (rw (dead k.members k.saw) refl)
              ∙ ap (λ out. out ++ revoked_frame ∷ [])
                  (sym (append-nil _)
                    ∙ ap (λ l. total b ++ l) (sym lost')
                    ∙ r.holds
                    ∙ ap (λ l. total a ++ l) added'
                    ∙ append-nil _);
          none_yet = λ h. absurd (false≢true (sym (dead k.members k.saw) ∙ k.active h));
        }

    Moves-IsDraining : (a b : Stream) → Moves token Sees a b → IsDraining a b
    Moves-IsDraining a _ rest = record {
      lost = [];
      added = [];
      cut = inl refl;
      holds = refl;
      none_yet = λ h. (refl, refl);
    }
    Moves-IsDraining a c (move {b} run step) = elim (Move-cases token Sees b c step) [
      | inl q ↦ quiet-IsDraining a b c q (Moves-IsDraining a b run)
      | inr k ↦ checked-IsDraining a b c k (Moves-IsDraining a b run)
    ]

    -- Where every check from some point on finds the bearer dead: what the client gets from there
    -- is a prefix of what was then on its way to it, at most followed by the frame that says that
    -- the session was revoked. No data that comes later from the backend reaches it.
    pub Moves-IsCut :
        (a b : Stream)
        → Moves token Sees a b
        → (got left added : List Bytes) × (b.received ≡ a.received ++ got)
          × (got ++ left ≡ backlog a ++ added)
          × IsCut added
    Moves-IsCut a b run =
        let (got, e) = Moves-received a b run in
        let r = Moves-IsDraining a b run in
        (
          got,
          backlog b ++ r.lost,
          r.added,
          e,
          append_cancel_left a.received _ _ (
              sym (append_assoc a.received got (backlog b ++ r.lost))
              ∙ ap (λ out. out ++ (backlog b ++ r.lost)) (sym e)
              ∙ sym (append_assoc b.received (backlog b) r.lost)
              ∙ r.holds
              ∙ append_assoc a.received (backlog a) r.added),
          r.cut,
        )

length-flight : (task : Task) → length (flight task) ≤ 1
length-flight listening = omega arith
length-flight (holding data') = omega arith
length-flight (sending last data') = omega arith
length-flight stopped = omega arith

-- Whatever the checks see, what is on its way to the client is never more than the channel holds
-- and the one frame that waits for room.
pub backlog_bounded :
    (token : Bytes) (Sees : Inner → Type 0) (a : Stream)
    → Moves token Sees opened a
    → length (backlog a) ≤ 1 + channel_size
backlog_bounded token Sees a run = omega (
  arith,
  length-append a.buffer (flight a.task),
  length-flight a.task,
  Moves-IsBounded token Sees a run,
)
