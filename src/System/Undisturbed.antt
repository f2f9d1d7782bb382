-- ===== src/System/Undisturbed.antt =====
-- What the requests of others leave of a bearer.
use instance_lib.Chat.Laws.{live_bearer-sent}
use instance_lib.Chat.{bearer, live_bearer, Backend}
use instance_lib.Enroll.{EnrollRequest}
use instance_lib.Prelude.{
  ◌++◌, ◌≡◌, ◌≢◌, ◌∷◌, [], inl, inr, some, none, ap, sym, In, List, Bytes, ◌∙◌, bytes_eq_iff,
  Bool-cases, Option-cases, bytes_eq, true, false, some-injective, codes,
}
use mathlib.Core.List.{head?}
use instance_lib.Prelude.Map.{lookup}
use instance_lib.Codec.Base64.{b64url_nopad}
use instance_lib.State.{
  sessions, Inner, Member, MemberEntry, Pubkey, insert, note_nonce, contains_token, get_by_token,
}
use instance_lib.State.Insert.{insert_owner, lookup_member-insert}
use instance_lib.State.Bearers.{
  insert_bearers, contains_token_iff, get_by_token_iff, IsOldestOfFull,
}
use instance_lib.State.Invariant.{IsConsistent}
use instance_lib.State.Revoke.{revoke_lem}
use instance_lib.State.Frame.{SameMembers, note_nonce-SameMembers}
use instance_lib.Attestation.Frame.{handler-SameMembers}
use instance_lib.Enroll.Handler.{handler_lem, entry_for}
use instance_lib.Manage.{ManageAction, apply_action, hash_of, revoke_answer}
use instance_lib.System.{
  EnrollRequest, Service, World, note_action, at_store, client_of, enrolled_at, Step, enrols, notes,
  applies, attests, Runs, here, next, Reach,
}
use instance_lib.System.Invariant.{IsSane, IsSound}
use instance_lib.System.Soundness.{Runs-IsSound, Reach-IsSound, undrawn}

-- A live bearer of a member, who stands in the store just so.
record Holds (t : Bytes) (pk : Pubkey) (m : Member) (g : Inner) : Type 0 where
  pub token : lookup t g.by_token ≡ some pk
  pub member : lookup pk g.by_pubkey ≡ some m

module _ (t : Bytes) (pk : Pubkey) (m : Member) where
  SameMembers-Holds : (g g' : Inner) → SameMembers g g' → Holds t pk m g → Holds t pk m g'
  SameMembers-Holds g g' same h = record {
    token = rw same.tokens h.token;
    member = rw same.pubkeys h.member;
  }

  head-In : (ts : List Bytes) → head? ts ≡ some t → In t ts
  head-In [] e = absurd (cc)
  head-In (a ∷ ts) e = inl (cc)

  insert-Holds :
      (entry : MemberEntry) (g : Inner)
      → IsConsistent g
      → lookup entry.session_token g.by_token ≡ none
      → entry.client_pubkey ≢ pk
      → Holds t pk m g
      → Holds t pk m (insert entry g).0
  insert-Holds entry g c fresh other h =
      let live : contains_token t g ≡ true = (contains_token_iff t g).1 (pk, h.token) in
      let young : ¬ IsOldestOfFull t entry.client_pubkey g = λ full.
        other
          (some-injective _ _ (sym (c.owned entry.client_pubkey t (head-In _ full.1)) ∙ h.token)) in
      let still = (insert_bearers entry g t c fresh).1 (inr (live, young)) in
      let (j, held) = (contains_token_iff t (insert entry g).0).0 still in
      let old = insert_owner entry g t j (λ e. cc (rw e at fresh, h.token)) held in
      let same : j ≡ pk = cc (old, h.token) in
      let apart : bytes_eq entry.client_pubkey pk ≡ false =
        elim (Bool-cases (bytes_eq entry.client_pubkey pk)) [
          | inl e ↦ absurd (other ((bytes_eq_iff entry.client_pubkey pk).0 e))
          | inr e ↦ e
        ] in
      record {
        token = rw (← same) held;
        member = rw (lookup_member-insert entry g pk, apart) h.member;
      }

  revoke-Holds :
      (s : Service)
      → IsSane s
      → (hash : Bytes) (g : Inner) → IsConsistent g
      → hash ≢ m.member_hash
      → Holds t pk m g
      → Holds t pk m (revoke_answer s.deps (some hash) g).0
  unfolding revoke_answer
  revoke-Holds s sane hash g c other h = elim (revoke_lem s.deps.iter sane.complete hash g c) [
    | inl (said, same, unknown) ↦ rw same h
    | inr (said, (j, n, held, named, dropped)) ↦
        let apart : j ≢ pk = λ e.
          let one : n ≡ m =
            some-injective _ _ (sym held ∙ ap (λ k. lookup k g.by_pubkey) e ∙ h.member) in
          other (sym named ∙ ap (λ (member : Member). member.member_hash) one) in
        record {
          token = dropped.others t (λ e. apart (some-injective _ _ (sym e ∙ h.token))) ∙ h.token;
          member = dropped.other_members pk apart ∙ h.member;
        }
  ]

  apply_action-Holds :
      (s : Service)
      → IsSane s
      → (action : ManageAction) (g : Inner) → IsConsistent g
      → hash_of action.member_hash ≢ some m.member_hash
      → Holds t pk m g
      → Holds t pk m (apply_action s.deps action g).0
  unfolding apply_action
  apply_action-Holds s sane action g c other h =
      elim (Bool-cases (bytes_eq action.action (codes "revoke"))) [
        | inr e ↦ rw e h
        | inl e ↦ elim (Option-cases (hash_of action.member_hash)) [
          | inl none_there ↦ rw (e, none_there) h
          | inr (hash, given) ↦
              rw (e, given) (revoke-Holds s sane hash g c (λ same. other (given ∙ ap some same)) h)
        ]
      ]

module _ (s : Service) (pk : Pubkey) (hash : Bytes) where
  -- A step that does not name the member: no enrolment of its pubkey, no revoke of its hash.
  unfoldable pub Spares : (w v : World) → Step s w v → Type 0
  Spares w _ (enrols leaf chain random req verified new) = client_of s leaf chain ≢ some pk
  Spares w _ (notes env action signed) = Unit
  Spares w _ (applies before action later e) = hash_of action.member_hash ≢ some hash
  Spares w _ (attests leaf chain now asked tsm verified) = Unit

  -- And a run of such steps.
  unfoldable pub AllSpare : (w v : World) → Runs s w v → Type 0
  AllSpare w _ here = Unit
  AllSpare w v (next r st) = AllSpare w _ r × Spares _ v st

module _ (s : Service) (sane : IsSane s) (t : Bytes) (pk : Pubkey) (m : Member) where
  note-Holds :
      (w : World) (action : ManageAction)
      → Holds t pk m w.members
      → Holds t pk m (note_action action w).members
  unfolding note_action
  note-Holds w action h =
      let same = note_nonce-SameMembers action.nonce w.members in
      elim (Bool-cases (note_nonce action.nonce w.members).1) [
        | inl e ↦ rw e (SameMembers-Holds t pk m _ _ same h)
        | inr e ↦ rw e (SameMembers-Holds t pk m _ _ same h)
      ]

  enrol-Holds :
      (w : World) (leaf : Bytes) (chain : List Bytes) (random : Bytes) (req : EnrollRequest)
      → IsSound s w
      → ¬ In (b64url_nopad random) w.drawn
      → client_of s leaf chain ≢ some pk
      → Holds t pk m w.members
      → Holds t pk m (enrolled_at s w.members random leaf chain req)
  enrol-Holds w leaf chain random req sound new other h =
      elim (handler_lem s.x s.jwt s.sha256 s.lowercase (at_store s w.members) random
        (client_of s leaf chain) req) [
          | inl (same, said) ↦ rw same h
          | inr (j, known, (token, said, e)) ↦
              let entry =
                entry_for s.x s.jwt s.sha256 s.lowercase (at_store s w.members) random j
                  e.claims.sub e.tx in
              rw e.stored (
                insert-Holds t pk m entry w.members sound.consistent (undrawn s sane w sound _ new)
                  (λ same. other (known ∙ ap some same)) h)
        ]

  Step-Holds :
      (w v : World)
      → IsSound s w
      → (st : Step s w v) → Spares s pk m.member_hash w v st
      → Holds t pk m w.members
      → Holds t pk m v.members
  unfolding Spares
  Step-Holds w _ sound (enrols leaf chain random req verified new) other h =
      enrol-Holds w leaf chain random req sound new other h
  Step-Holds w _ sound (notes env action signed) other h = note-Holds w action h
  Step-Holds w _ sound (applies before action later e) other h =
      apply_action-Holds t pk m s sane action w.members sound.consistent other h
  Step-Holds w _ sound (attests leaf chain now asked tsm verified) other h =
      SameMembers-Holds t pk m _ _
        (handler-SameMembers s.sha256 s.kernel s.helper (client_of s leaf chain) now
          s.boot.spki_sha256 asked w.members tsm)
        h

  Runs-Holds :
      (w v : World)
      → IsSound s w
      → (r : Runs s w v) → AllSpare s pk m.member_hash w v r
      → Holds t pk m w.members
      → Holds t pk m v.members
  unfolding AllSpare
  Runs-Holds w _ sound here spared h = h
  Runs-Holds w v sound (next r st) spared h =
      Step-Holds _ v (Runs-IsSound s sane w _ sound r) st spared.1
        (Runs-Holds w _ sound r spared.0 h)

module _ (s : Service) (sane : IsSane s) where
  get_by_token-Holds :
      (t : Bytes) (entry : MemberEntry) (w : World)
      → IsSound s w
      → get_by_token t w.members ≡ some entry
      → (m : Member) × Holds t entry.client_pubkey m w.members
        × In t m.sessions
        × (entry.session_token ≡ t)
        × (entry.member_hash ≡ m.member_hash)
        × (entry.original_tx_id ≡ m.original_tx_id)
  unfolding sessions
  get_by_token-Holds t entry w sound found =
      let c = sound.consistent in
      let (m, member, live, named, hash, tx) = (get_by_token_iff t w.members entry c).0 found in
      (
        m,
        record { token = c.owned entry.client_pubkey t (rw member live); member = member },
        live,
        named,
        hash,
        tx,
      )

  -- Where digests and the octets of keys are bytes, the iteration of a map hands out its entries and
  -- no others, and no enrolment draws a bearer that was drawn before: nobody but the member itself and
  -- the operator ends a session. A bearer that finds an entry still finds the same entry at every
  -- later moment, and passes the check of the chat there, whatever requests came in meanwhile, as long
  -- as none of them was an enrolment over the entry's pubkey or a revoke of the entry's hash.
  pub bearer_undisturbed :
      (w v : World)
      → Reach s w
      → (t : Bytes) (entry : MemberEntry) → get_by_token t w.members ≡ some entry
      → (r : Runs s w v) → AllSpare s entry.client_pubkey entry.member_hash w v r
      → (backend : Backend)
      → (get_by_token t v.members ≡ some entry)
        × (live_bearer backend (bearer (some (codes "Bearer " ++ t))) v.members ≡ some t)
  bearer_undisturbed w v reached t entry found r spared backend =
      let sound = Reach-IsSound s sane w reached in
      let (m, h, live, named, hash, tx) = get_by_token-Holds t entry w sound found in
      let after = Runs-Holds s sane t entry.client_pubkey m w v sound r (rw (← hash) spared) h in
      (
        (get_by_token_iff t v.members entry (Runs-IsSound s sane w v sound r).consistent).1
            (m, after.member, live, named, hash, tx),
        live_bearer-sent backend t v.members
            ((contains_token_iff t v.members).1 (entry.client_pubkey, after.token)),
      )
