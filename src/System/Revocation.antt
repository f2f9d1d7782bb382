-- ===== src/System/Revocation.antt =====
-- Dead bearers.
use instance_lib.Prelude.{
  Option-cases, inl, some, false, ◌≡◌, List, inr, In, Bool-cases, Bytes, none,
}
use instance_lib.Prelude.Map.{lookup}
use instance_lib.Codec.Base64.{b64url_nopad}
use instance_lib.State.{Inner, contains_token, note_nonce}
use instance_lib.State.Insert.{insert_stays_dead}
use instance_lib.State.Bearers.{contains_token_iff}
use instance_lib.State.Frame.{note_nonce-SameMembers}
use instance_lib.Attestation.Frame.{handler-SameMembers}
use instance_lib.Enroll.{EnrollRequest}
use instance_lib.Enroll.Handler.{handler_lem, entry_for}
use instance_lib.Manage.{ManageAction, apply_action}
use instance_lib.Manage.Power.{apply_action-IsLess}
use instance_lib.System.{
  Service, World, note_action, at_store, client_of, enrolled_at, Step, enrols, notes, applies,
  attests, Runs, here, next, Reach,
}
use instance_lib.System.Invariant.{IsSane, IsSound}
use instance_lib.System.Soundness.{Runs-IsSound, Reach-IsSound}

-- A bearer that was drawn once and is not live.
pub record IsSpent (t : Bytes) (w : World) : Type 0 where
  pub drawn : In t w.drawn
  pub dead : lookup t w.members.by_token ≡ none

none_below :
    (t : Bytes) (g g' : Inner)
    → ((pk : Bytes) → lookup t g'.by_token ≡ some pk → lookup t g.by_token ≡ some pk)
    → lookup t g.by_token ≡ none
    → lookup t g'.by_token ≡ none
none_below t g g' less dead = elim (Option-cases (lookup t g'.by_token)) [
  | inl e ↦ e
  | inr (pk, e) ↦ absurd (cc (less pk e))
]

module _ (s : Service) (sane : IsSane s) (t : Bytes) where
  enrol_stays :
      (w : World) (leaf : Bytes) (chain : List Bytes) (random : Bytes) (req : EnrollRequest)
      → IsSpent t w
      → ¬ In (b64url_nopad random) w.drawn
      → lookup t (enrolled_at s w.members random leaf chain req).by_token ≡ none
  enrol_stays w leaf chain random req spent new =
      elim (handler_lem s.x s.jwt s.sha256 s.lowercase (at_store s w.members) random
        (client_of s leaf chain) req) [
          | inl (same, said) ↦ rw same spent.dead
          | inr (pk, known, granted) ↦
              let (token, said, e) = granted in
              rw e.stored (
                insert_stays_dead
                  (entry_for s.x s.jwt s.sha256 s.lowercase (at_store s w.members) random pk
                    e.claims.sub e.tx)
                  w.members t (λ p. new (rw p spent.drawn)) spent.dead)
        ]

  note_stays : (w : World) (action : ManageAction) → IsSpent t w → IsSpent t (note_action action w)
  unfolding note_action
  note_stays w action spent =
      let same = note_nonce-SameMembers action.nonce w.members in
      elim (Bool-cases (note_nonce action.nonce w.members).1) [
        | inl e ↦ rw e (record { drawn = spent.drawn; dead = rw same.tokens spent.dead })
        | inr e ↦ rw e (record { drawn = spent.drawn; dead = rw same.tokens spent.dead })
      ]

  Step-IsSpent : (w v : World) → IsSound s w → Step s w v → IsSpent t w → IsSpent t v
  Step-IsSpent w _ sound (enrols leaf chain random req verified new) spent = record {
    drawn = inr spent.drawn;
    dead = enrol_stays w leaf chain random req spent new;
  }
  Step-IsSpent w _ sound (notes env action signed) spent = note_stays w action spent
  Step-IsSpent w _ sound (applies before action later e) spent =
      let (c, n) = apply_action-IsLess s.deps sane.complete action w.members sound.consistent in
      record {
        drawn = spent.drawn;
        dead =
            none_below t w.members (apply_action s.deps action w.members).0 (n.tokens t) spent.dead;
      }
  Step-IsSpent w _ sound (attests leaf chain now nonce tsm verified) spent =
      let same =
        handler-SameMembers s.sha256 s.kernel s.helper (client_of s leaf chain) now
          s.boot.spki_sha256 nonce w.members tsm in
      record { drawn = spent.drawn; dead = rw same.tokens spent.dead }

  Runs-IsSpent : (w v : World) → IsSound s w → Runs s w v → IsSpent t w → IsSpent t v
  Runs-IsSpent w _ sound here spent = spent
  Runs-IsSpent w _ sound (next r st) spent =
      Step-IsSpent _ _ (Runs-IsSound s sane w _ sound r) st (Runs-IsSpent w _ sound r spent)

  dead-contains_token : (w : World) → IsSpent t w → contains_token t w.members ≡ false
  dead-contains_token w spent = elim (Bool-cases (contains_token t w.members)) [
    | inr e ↦ e
    | inl e ↦ let (pk, held) = (contains_token_iff t w.members).0 e in absurd (cc spent.dead)
  ]

module _ (s : Service) (sane : IsSane s) (token : Bytes) where
  -- Where digests and the octets of keys are bytes, the iteration of a map hands out its entries and
  -- no others, and no enrolment draws a bearer that was drawn before: once a bearer is dead, it is
  -- dead at every later moment of any interleaving of requests, enrolments of the same member among
  -- them.
  pub dead_forever :
      (w v : World)
      → Reach s w
      → Runs s w v
      → In token w.drawn
      → contains_token token w.members ≡ false
      → contains_token token v.members ≡ false
  unfolding contains_token
  dead_forever w v r later drawn dead = dead-contains_token s sane token v (
      Runs-IsSpent s sane token w v (Reach-IsSound s sane w r) later
        (record { drawn = drawn; dead = dead_lookup }))
    where
      dead_lookup : lookup token w.members.by_token ≡ none
      dead_lookup = elim (Option-cases (lookup token w.members.by_token)) [
        | inl e ↦ e
        | inr (pk, e) ↦ absurd (cc (rw e at dead))
      ]
