-- ===== src/State/Registry/Runs.antt =====
-- Sequences of calls of the store, against the registry.
use instance_lib.Prelude.{◌∙◌, inr, refl, inl, [], ◌≡◌, Nodup, In, ◌∷◌, List, Bytes, none}
use instance_lib.Prelude.Map.{Map, lookup}
use instance_lib.State.{
  session_count, contains_token, Inner, MemberHash, Member, insert, revoke_by_member_hash,
  note_nonce, allow_attestation, get_by_token, empty_store,
}
use instance_lib.State.Insert.{insert_stays_dead}
use instance_lib.State.Invariant.{IsConsistent, insert-IsConsistent, empty_store-IsConsistent}
use instance_lib.State.Revoke.{IsIteration, revoke_lem, revoke-IsConsistent}
use instance_lib.State.Frame.{
  SameMembers-IsConsistent, note_nonce-SameMembers, allow_attestation-SameMembers,
}
use instance_lib.State.Registry.{
  number, count_op, live_op, holder, token_op, attest_op, nonce_op, revoke_op, flag, insert_op, Op,
  Answer, Permits, empty_registry,
}
use instance_lib.State.Registry.Refinement.{
  view-session_count, view-contains_token, view, view-insert, view-revoke, view-note_nonce,
  view-allow_attestation, view-get_by_token,
}

-- The bearers that a sequence of calls mints.
abbrev pub minted : List Op → List Bytes
minted [] = []
minted (insert_op entry ∷ ops) = entry.session_token ∷ minted ops
minted (revoke_op hash ∷ ops) = minted ops
minted (nonce_op n ∷ ops) = minted ops
minted (attest_op pk now ∷ ops) = minted ops
minted (token_op t ∷ ops) = minted ops
minted (live_op t ∷ ops) = minted ops
minted (count_op pk ∷ ops) = minted ops

module _ (iter : Map Member → Map Member) where
  unfoldable pub apply_op : Op → Inner → Inner × Answer
  apply_op (insert_op entry) g = let (g', ok) = insert entry g in (g', flag ok)
  apply_op (revoke_op hash) g =
      let (g', revoked) = revoke_by_member_hash iter hash g in (g', flag revoked)
  apply_op (nonce_op n) g = let (g', new) = note_nonce n g in (g', flag new)
  apply_op (attest_op pk now) g =
      let (g', allowed) = allow_attestation pk now g in (g', flag allowed)
  apply_op (token_op t) g = (g, holder (get_by_token t g))
  apply_op (live_op t) g = (g, flag (contains_token t g))
  apply_op (count_op pk) g = (g, number (session_count pk g))

  -- The answers of a sequence of calls, and the store after it.
  unfoldable pub run_ops : List Op → Inner → Inner × List Answer
  unfolding apply_op
  run_ops [] g = (g, [])
  run_ops (op ∷ ops) g =
      let (g', a) = apply_op op g in let (g'', as') = run_ops ops g' in (g'', a ∷ as')

  -- None of the bearers is live.
  abbrev AllDead : List Bytes → Inner → Type 0
  AllDead ts g = (t : Bytes) → In t ts → lookup t g.by_token ≡ none

  module _ (complete : IsIteration iter) where
    revoke_stays_dead :
        (hash : MemberHash) (g : Inner) (t : Bytes)
        → IsConsistent g
        → lookup t g.by_token ≡ none
        → lookup t (revoke_by_member_hash iter hash g).0.by_token ≡ none
    revoke_stays_dead hash g t c dead = elim (revoke_lem iter complete hash g c) [
      | inl (said, same, unknown) ↦ rw same dead
      | inr (said, (pk, m, held, is_it, d)) ↦ d.others t (λ e. cc) ∙ dead
    ]

    refines_from :
        (ops : List Op) (g : Inner)
        → IsConsistent g
        → Nodup (minted ops)
        → AllDead (minted ops) g
        → Permits (view g) ops (run_ops ops g).1 (view (run_ops ops g).0)
    unfolding run_ops
    refines_from [] g c once dead = refl
    refines_from (insert_op entry ∷ ops) g c once dead = (
      view (insert entry g).0,
      view-insert entry g,
      refines_from ops (insert entry g).0
          (insert-IsConsistent entry g c (dead entry.session_token (inl refl))) once.1
          (λ t k. insert_stays_dead entry g t (λ e. once.0 (rw e k)) (dead t (inr k))),
    )
    refines_from (revoke_op hash ∷ ops) g c once dead = (
      view (revoke_by_member_hash iter hash g).0,
      view-revoke iter hash g complete c,
      refines_from ops (revoke_by_member_hash iter hash g).0
          (revoke-IsConsistent iter complete hash g c) once
          (λ t k. revoke_stays_dead hash g t c (dead t k)),
    )
    refines_from (nonce_op n ∷ ops) g c once dead =
        let s = note_nonce-SameMembers n g in
        (
          view (note_nonce n g).0,
          view-note_nonce n g,
          refines_from ops (note_nonce n g).0 (SameMembers-IsConsistent g _ s c) once
              (λ t k. rw s.tokens (dead t k)),
        )
    refines_from (attest_op pk now ∷ ops) g c once dead =
        let s = allow_attestation-SameMembers pk now g in
        (
          view (allow_attestation pk now g).0,
          view-allow_attestation pk now g,
          refines_from ops (allow_attestation pk now g).0 (SameMembers-IsConsistent g _ s c) once
              (λ t k. rw s.tokens (dead t k)),
        )
    refines_from (token_op t ∷ ops) g c once dead =
        (view g, view-get_by_token t g c, refines_from ops g c once dead)
    refines_from (live_op t ∷ ops) g c once dead =
        (view g, view-contains_token t g c, refines_from ops g c once dead)
    refines_from (count_op pk ∷ ops) g c once dead =
        (view g, view-session_count pk g, refines_from ops g c once dead)

    -- Where no bearer is minted twice and the iteration of the map hands out its entries and no
    -- others: any sequence of calls on the empty store is answered as the registry allows, step by
    -- step, from the empty registry to the one that the store at the end is seen as.
    pub run_ops_refines :
        (ops : List Op)
        → Nodup (minted ops)
        → Permits empty_registry ops (run_ops ops empty_store).1 (view (run_ops ops empty_store).0)
    unfolding lookup
    run_ops_refines ops once =
        refines_from ops empty_store empty_store-IsConsistent once (λ t k. refl)
