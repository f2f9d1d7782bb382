-- ===== src/System/Owners.antt =====
-- Who owns a bearer over a run, and what makes a bearer somebody's.
use instance_lib.Prelude.{
  bytes_eq_iff, bytes_eq, Bool-cases, ◌⊎◌, In, ◌∷◌, ◌≡◌, Bytes, List, some, inl, inr, refl,
}
use instance_lib.Prelude.Map.{lookup}
use instance_lib.Mtls.{verify_client_cert, assertion}
use instance_lib.Codec.Base64.{b64url_nopad}
use instance_lib.State.{insert, Pubkey, note_nonce}
use instance_lib.State.Insert.{lookup_token-insert, insert_owner}
use instance_lib.State.Frame.{note_nonce-SameMembers}
use instance_lib.Attestation.Frame.{handler-SameMembers}
use instance_lib.Enroll.{EnrollRequest}
use instance_lib.Enroll.Handler.{handler_lem, entry_for, IsEnrolled}
use instance_lib.Manage.{ManageAction}
use instance_lib.Manage.Power.{apply_action-IsLess}
use instance_lib.System.{
  booted, Service, World, note_action, at_store, client_of, enrolled_at, Step, enrols, notes,
  applies, attests, Runs, here, next, Reach,
}
use instance_lib.System.Invariant.{IsSane}
use instance_lib.System.Soundness.{Reach-IsSound}

abbrev pub Owns : Bytes → Pubkey → World → Type 0
Owns t pk w = lookup t w.members.by_token ≡ some pk

-- An enrolment of the run: the moment before it, its connection and its request, all of whose
-- credentials were verified, and the bearer that it answered.
pub record Enrolment (s : Service) (t : Bytes) (pk : Pubkey) : Type 0 where
  pub before : World
  pub reached : Reach s before
  pub leaf : Bytes
  pub chain : List Bytes
  pub random : Bytes
  pub req : EnrollRequest
  pub verified : verify_client_cert s.x s.manifest leaf ≡ assertion
  pub known : client_of s leaf chain ≡ some pk
  pub new : ¬ In (b64url_nopad random) before.drawn
  pub granted :
      IsEnrolled s.x s.jwt s.sha256 s.lowercase
        (at_store s before.members)
        random
        pk
        req
        t
        (enrolled_at s before.members random leaf chain req)

-- The moment after it.
abbrev pub after : {s : Service} {t : Bytes} {pk : Pubkey} → Enrolment s t pk → World
after {s = s} o = record o.before {
  members = enrolled_at s o.before.members o.random o.leaf o.chain o.req;
  drawn = b64url_nopad o.random ∷ o.before.drawn;
}

pub Runs_join : (s : Service) (u w v : World) → Runs s u w → Runs s w v → Runs s u v
Runs_join s u w _ r here = r
Runs_join s u w _ r (next later st) = next (Runs_join s u w _ r later) st

module _ (s : Service) (sane : IsSane s) (t : Bytes) where
  note_drawn :
      (w : World) (action : ManageAction) → In t w.drawn → In t (note_action action w).drawn
  unfolding note_action
  note_drawn w action drawn = elim (Bool-cases (note_nonce action.nonce w.members).1) [
    | inl e ↦ rw e drawn
    | inr e ↦ rw e drawn
  ]

  pub Step-drawn : (w v : World) → Step s w v → In t w.drawn → In t v.drawn
  Step-drawn w _ (enrols leaf chain random req verified new) drawn = inr drawn
  Step-drawn w _ (notes env action signed) drawn = note_drawn w action drawn
  Step-drawn w _ (applies before action later e) drawn = drawn
  Step-drawn w _ (attests leaf chain now asked tsm verified) drawn = drawn

  pub Runs-drawn : (w v : World) → Runs s w v → In t w.drawn → In t v.drawn
  Runs-drawn w _ here drawn = drawn
  Runs-drawn w _ (next r st) drawn = Step-drawn _ _ st (Runs-drawn w _ r drawn)

  note_owner :
      (w : World) (action : ManageAction) (pk : Pubkey)
      → Owns t pk (note_action action w)
      → Owns t pk w
  unfolding note_action
  note_owner w action pk held =
      let same = note_nonce-SameMembers action.nonce w.members in
      elim (Bool-cases (note_nonce action.nonce w.members).1) [
        | inl e ↦ rw (e, same.tokens) at held
        | inr e ↦ rw (e, same.tokens) at held
      ]

  -- A bearer that a step leaves to a pubkey was the pubkey's, or the step is its enrolment.
  abbrev pub Mints : World → World → Pubkey → Type 0
  Mints w v pk = (o : Enrolment s t pk) × (o.before ≡ w) × (after o ≡ v)

  enrol_owner :
      (w : World) (leaf : Bytes) (chain : List Bytes) (random : Bytes) (req : EnrollRequest)
      (pk : Pubkey)
      → Reach s w
      → verify_client_cert s.x s.manifest leaf ≡ assertion
      → ¬ In (b64url_nopad random) w.drawn
      → let v = record w {
        members = enrolled_at s w.members random leaf chain req;
        drawn = b64url_nopad random ∷ w.drawn;
      } in
        Owns t pk v → Owns t pk w ⊎ Mints w v pk
  enrol_owner w leaf chain random req pk r verified new held =
      elim (handler_lem s.x s.jwt s.sha256 s.lowercase (at_store s w.members) random
        (client_of s leaf chain) req) [
          | inl (same, said) ↦ inl (rw same at held)
          | inr (j, known, granted) ↦
              let (token, said, e) = granted in
              let entry =
                entry_for s.x s.jwt s.sha256 s.lowercase (at_store s w.members) random j
                  e.claims.sub e.tx in
              let held' : lookup t (insert entry w.members).0.by_token ≡ some pk =
                rw e.stored at held in
              elim (Bool-cases (bytes_eq (b64url_nopad random) t)) [
                | inr other ↦ inl (
                    insert_owner entry w.members t pk (λ same. cc ((bytes_eq_iff _ t).1 same))
                      held')
                | inl same ↦
                    let minted = (bytes_eq_iff (b64url_nopad random) t).0 same in
                    let owner : some j ≡ some pk =
                      rw (lookup_token-insert entry w.members t, same) at held' in
                    let mine : j ≡ pk = cc owner in
                    inr (
                      record {
                        before = w;
                        reached = r;
                        leaf = leaf;
                        chain = chain;
                        random = random;
                        req = req;
                        verified = verified;
                        known = rw (← mine) known;
                        new = new;
                        granted = rw (← mine, ← minted, ← e.minted) e;
                      },
                      refl,
                      refl,
                    )
              ]
        ]

  pub Step-owner :
      (w v : World) (pk : Pubkey)
      → Reach s w
      → Step s w v
      → Owns t pk v
      → Owns t pk w ⊎ Mints w v pk
  Step-owner w _ pk r (enrols leaf chain random req verified new) held =
      enrol_owner w leaf chain random req pk r verified new held
  Step-owner w _ pk r (notes env action signed) held = inl (note_owner w action pk held)
  Step-owner w _ pk r (applies before action later e) held =
      let (c, n) =
        apply_action-IsLess s.deps sane.complete action w.members
          (Reach-IsSound s sane w r).consistent in
      inl (n.tokens t pk held)
  Step-owner w _ pk r (attests leaf chain now asked tsm verified) held =
      let same =
        handler-SameMembers s.sha256 s.kernel s.helper (client_of s leaf chain) now
          s.boot.spki_sha256 asked w.members tsm in
      inl (rw same.tokens at held)

  pub Step-keeps :
      (w v : World) (pk : Pubkey)
      → Reach s w
      → Step s w v
      → In t w.drawn
      → Owns t pk v
      → Owns t pk w
  Step-keeps w v pk r st drawn held = elim (Step-owner w v pk r st held) [
    | inl e ↦ e
    | inr (o, e, f) ↦ absurd (o.new (rw (e, ← o.granted.minted) drawn))
  ]

  -- From a moment at which the bearer was drawn, its owner does not change.
  pub Runs-keeps :
      (w v : World) (pk : Pubkey)
      → Reach s w
      → Runs s w v
      → In t w.drawn
      → Owns t pk v
      → Owns t pk w
  Runs-keeps w _ pk r here drawn held = held
  Runs-keeps w v pk r (next later st) drawn held =
      Runs-keeps w _ pk r later drawn
        (Step-keeps _ v pk (Runs_join s booted w _ r later) st (Runs-drawn w _ later drawn) held)
