-- ===== src/Chat/Channel/Refinement.antt =====
-- The run of the task against the list of its turns: what Chat.relay makes of the data and the stores
-- that the checks saw.
use instance_lib.Prelude.{
  Bytes, Bool, true, false, List, [], ◌∷◌, ◌++◌, ◌≡◌, ◌≢◌, ◌⊎◌, inl, inr, refl, sym, ap, ◌∙◌, subst,
  append-nil, append_assoc, Bool-cases, All, All-append, length,
}
use instance_lib.State.{Inner, contains_token}
use instance_lib.Chat.{failed, chunk, Turn, relay}
use instance_lib.Chat.Relay.{IsSmooth, chunks, relay_smooth}
use instance_lib.Chat.Channel.{Stream, Moves, rest, move, opened}
use instance_lib.Chat.Channel.Totals.{
  backlog, total, Active, verdict, IsQuiet, IsChecked, Move-cases,
}

-- A checked frame as a turn of a client that reads.
abbrev pub turn_of : Bytes × Inner → Turn
turn_of (data', members) = record { frame = chunk data'; members = members; reads = true }

abbrev pub turns_of : List (Bytes × Inner) → List Turn
turns_of [] = []
turns_of (one ∷ seen) = turn_of one ∷ turns_of seen

turns_of-append :
    (seen more : List (Bytes × Inner)) → turns_of (seen ++ more) ≡ turns_of seen ++ turns_of more
turns_of-append [] more = refl
turns_of-append (one ∷ seen) more = ap (λ ts. turn_of one ∷ ts) (turns_of-append seen more)

chunk≢failed : {data' : Bytes} → chunk data' ≢ failed
chunk≢failed e = absurd (cc)

module _ (token : Bytes) where
  -- What the task sent, with what a client that hung up made it drop, is what the relay delivers.
  pub record IsRelaying (a : Stream) : Type 0 where
    pub lost : List Bytes
    pub relays : total a ++ lost ≡ relay token (turns_of a.seen)
    pub smooth : Active a.task → IsSmooth token (turns_of a.seen) × (lost ≡ [])
    pub whole : a.reading ≡ true → lost ≡ []

  relay-one :
      (data' : Bytes) (members : Inner)
      → relay token (turn_of (data', members) ∷ []) ≡ verdict token data' members ∷ []
  unfolding relay contains_token instance_lib.Prelude.Map.lookup
  relay-one data' members = elim (Bool-cases (contains_token token members)) [
    | inl live ↦ rw live refl
    | inr dead ↦ rw dead refl
  ]

  relay-more :
      (seen : List (Bytes × Inner)) (data' : Bytes) (members : Inner)
      → IsSmooth token (turns_of seen)
      → relay token (turns_of (seen ++ (data', members) ∷ []))
        ≡ relay token (turns_of seen) ++ verdict token data' members ∷ []
  unfolding relay
  relay-more seen data' members h =
      ap (relay token) (turns_of-append seen ((data', members) ∷ []))
      ∙ relay_smooth token (turns_of seen) (turns_of ((data', members) ∷ [])) h
      ∙ ap (λ out. chunks (turns_of seen) ++ out) (relay-one data' members)
      ∙ ap (λ out. out ++ verdict token data' members ∷ [])
          (sym (append-nil _)
            ∙ sym (relay_smooth token (turns_of seen) [] h)
            ∙ ap (relay token) (append-nil (turns_of seen)))

  quiet-IsRelaying : (a b : Stream) → IsQuiet a b → IsRelaying a → IsRelaying b
  quiet-IsRelaying a b q r = record {
    lost = q.dropped ++ r.lost;
    relays =
        sym (append_assoc (total b) q.dropped r.lost)
        ∙ ap (λ out. out ++ r.lost) (sym q.split)
        ∙ r.relays
        ∙ ap (λ seen. relay token (turns_of seen)) (sym q.seen);
    smooth = λ h.
        let (active, none') = q.active h in
        (
          subst (λ seen. IsSmooth token (turns_of seen)) (sym q.seen) (r.smooth active).0,
          rw none' (r.smooth active).1,
        );
    whole = λ h. let (reads, none') = q.reading h in rw none' (r.whole reads);
  }

  module _ (Sees : Inner → Type 0) where
    checked-IsRelaying : (a b : Stream) → IsChecked token Sees a b → IsRelaying a → IsRelaying b
    checked-IsRelaying a b c r =
        let (smooth, none') = r.smooth c.before in
        record {
          lost = [];
          relays =
              append-nil _
              ∙ c.grown
              ∙ ap (λ out. out ++ verdict token c.checked c.members ∷ [])
                  (sym (append-nil _) ∙ ap (λ l. total a ++ l) (sym none') ∙ r.relays)
              ∙ sym (relay-more a.seen c.checked c.members smooth)
              ∙ ap (λ seen. relay token (turns_of seen)) (sym c.seen);
          smooth = λ h. (
            subst (λ seen. IsSmooth token (turns_of seen)) (sym c.seen)
                (subst (IsSmooth token) (sym (turns_of-append a.seen _))
                  (All-append _ (turns_of a.seen) _ smooth ((chunk≢failed, c.active h, refl), tt))),
            refl,
          );
          whole = λ h. refl;
        }

    pub Moves-IsRelaying : (b : Stream) → Moves token Sees opened b → IsRelaying b
    unfolding relay
    Moves-IsRelaying _ rest = record {
      lost = [];
      relays = refl;
      smooth = λ h. (tt, refl);
      whole = λ h. refl;
    }
    Moves-IsRelaying c (move {b} run step) = elim (Move-cases token Sees b c step) [
      | inl q ↦ quiet-IsRelaying b c q (Moves-IsRelaying b run)
      | inr k ↦ checked-IsRelaying b c k (Moves-IsRelaying b run)
    ]

    -- However the task, the client and a revoke interleave: what the client has got, what is on its
    -- way to it and what a client that hung up made the task drop are together, in this order, what
    -- the relay makes of the data checked and the stores that the checks saw, and for a client that
    -- still reads nothing is dropped.
    pub Moves-relay :
        (b : Stream)
        → Moves token Sees opened b
        → (lost : List Bytes) × (b.received ++ (backlog b ++ lost) ≡ relay token (turns_of b.seen))
          × ((lost ≡ []) ⊎ (b.reading ≡ false))
    Moves-relay b run =
        let r = Moves-IsRelaying b run in
        (
          r.lost,
          sym (append_assoc b.received (backlog b) r.lost) ∙ r.relays,
          elim (Bool-cases b.reading) [ inl reads ↦ inl (r.whole reads) | inr gone ↦ inr gone ],
        )

    pub Moves-whole :
        (b : Stream)
        → Moves token Sees opened b
        → b.reading ≡ true
        → total b ≡ relay token (turns_of b.seen)
    Moves-whole b run reads =
        let r = Moves-IsRelaying b run in
        sym (append-nil _) ∙ ap (λ l. total b ++ l) (sym (r.whole reads)) ∙ r.relays
