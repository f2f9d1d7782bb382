-- ===== src/System/Registry.antt =====
-- Every run of the service as calls of the registry.
use instance_lib.Attestation.Quote.{Tsm}
use instance_lib.Prelude.{
  ◌≡◌, ◌∷◌, ◌++◌, [], refl, ap, inl, inr, some, none, codes, bytes_eq, In, All, All-append, List,
  Bytes, ℕ, Bool-cases, Option-cases, Option,
}
use instance_lib.Codec.Base64.{b64url_nopad}
use instance_lib.Mtls.{verify_client_cert, assertion}
use instance_lib.State.{Pubkey, insert, note_nonce, allow_attestation}
use instance_lib.State.Registry.{
  Allows, Registry, Op, Answer, Permits, empty_registry, insert_op, revoke_op, nonce_op, attest_op,
  token_op, live_op, count_op, flag,
}
use instance_lib.State.Registry.Refinement.{
  view, view-insert, view-revoke, view-note_nonce, view-allow_attestation,
}
use instance_lib.Attestation
use instance_lib.Enroll.{EnrollRequest}
use instance_lib.Enroll.Handler.{handler_lem, entry_for, in_manifest-listed}
use instance_lib.Manage.{ManageAction, apply_action, revoke_answer, hash_of}
use instance_lib.System.{
  Tsm, Service, World, booted, note_action, at_store, client_of, enrolled_at, Step, enrols, notes,
  applies, attests, here, next, Reach,
}
use instance_lib.System.Invariant.{IsListed, IsSane, IsSound}
use instance_lib.Prelude.Map.{lookup}
use instance_lib.System.Owners.{Step-drawn}
use instance_lib.System.Soundness.{Reach-IsSound, client_octets}

-- Why a call was made: an inserted bearer was drawn, for a member of the cohort, and a revoked hash is
-- that of an action that was applied.
unfoldable pub IsCaused : Service → World → Op → Type 0
IsCaused s w (insert_op e) =
    In e.session_token w.drawn × IsListed s.manifest e.client_pubkey e.member_hash
IsCaused s w (revoke_op hash) =
    (a : ManageAction) × In a w.applied × (hash_of a.member_hash ≡ some hash)
IsCaused s w (nonce_op n) = Unit
IsCaused s w (attest_op pk now) = Unit
IsCaused s w (token_op t) = Unit
IsCaused s w (live_op t) = Unit
IsCaused s w (count_op pk) = Unit

-- The calls that lead from one registry to another, each with its cause at a moment.
abbrev pub Leads : Service → World → Registry → Registry → Type 0
Leads s w r r' =
    (ops : List Op) × (answers : List Answer) × Permits r ops answers r' × All (IsCaused s w) ops

Permits-append :
    (r mid r' : Registry) (ops ops' : List Op) (as' bs : List Answer)
    → Permits r ops as' mid
    → Permits mid ops' bs r'
    → Permits r (ops ++ ops') (as' ++ bs) r'
Permits-append r mid r' [] ops' [] bs p q = rw (← p) q
Permits-append r mid r' [] ops' (a ∷ as') bs p q = absurd p
Permits-append r mid r' (op ∷ ops) ops' [] bs p q = absurd p
Permits-append r mid r' (op ∷ ops) ops' (a ∷ as') bs (first, allowed, p) q =
    (first, allowed, Permits-append first mid r' ops ops' as' bs p q)

module _ (s : Service) where
  -- No call.
  stands : (w : World) (r r' : Registry) → r' ≡ r → Leads s w r r'
  stands w r r' e = ([], [], e, tt)

  one_call :
      (w : World) (r r' : Registry) (op : Op) (a : Answer)
      → Allows r op a r'
      → IsCaused s w op
      → Leads s w r r'
  one_call w r r' op a allowed why = (op ∷ [], a ∷ [], (r', allowed, refl), (why, tt))

  module _ (w v : World) (drawn : (t : Bytes) → In t w.drawn → In t v.drawn)
      (applied : (a : ManageAction) → In a w.applied → In a v.applied) where
    cause_stays : (op : Op) → IsCaused s w op → IsCaused s v op
    unfolding IsCaused
    cause_stays (insert_op e) (t, listed) = (drawn e.session_token t, listed)
    cause_stays (revoke_op hash) (a, done, named) = (a, applied a done, named)
    cause_stays (nonce_op n) u = u
    cause_stays (attest_op pk now) u = u
    cause_stays (token_op t) u = u
    cause_stays (live_op t) u = u
    cause_stays (count_op pk) u = u

    causes_stay : (ops : List Op) → All (IsCaused s w) ops → All (IsCaused s v) ops
    causes_stay [] h = tt
    causes_stay (op ∷ ops) (first, h) = (cause_stays op first, causes_stay ops h)

  module _ (sane : IsSane s) (w : World) (sound : IsSound s w) where
    enrol_call :
        (leaf : Bytes) (chain : List Bytes) (random : Bytes) (req : EnrollRequest)
        → verify_client_cert s.x s.manifest leaf ≡ assertion
        → let v = record w {
          members = enrolled_at s w.members random leaf chain req;
          drawn = b64url_nopad random ∷ w.drawn;
        } in
          Leads s v (view w.members) (view v.members)
    unfolding IsCaused
    enrol_call leaf chain random req verified =
        let v = record w {
          members = enrolled_at s w.members random leaf chain req;
          drawn = b64url_nopad random ∷ w.drawn;
        } in
        elim (handler_lem s.x s.jwt s.sha256 s.lowercase (at_store s w.members) random
          (client_of s leaf chain) req) [
            | inl (same, said) ↦ stands v _ _ (ap view same)
            | inr (pk, known, (token, said, e)) ↦
                let entry =
                  entry_for s.x s.jwt s.sha256 s.lowercase (at_store s w.members) random pk
                    e.claims.sub e.tx in
                let listed =
                  in_manifest-listed s.x s.jwt s.sha256 s.manifest pk entry.member_hash
                    (client_octets s sane w sound leaf chain pk known verified) (sane.digests _)
                    e.cohort in
                one_call v _ _ (insert_op entry) (flag (insert entry w.members).1)
                  (rw e.stored (view-insert entry w.members)) (inl refl, listed)
          ]

    members-note_action :
        (action : ManageAction)
        → (note_action action w).members ≡ (note_nonce action.nonce w.members).0
    unfolding note_action
    members-note_action action = elim (Bool-cases (note_nonce action.nonce w.members).1) [
      | inl e ↦ rw e refl
      | inr e ↦ rw e refl
    ]

    note_call :
        (action : ManageAction)
        → Leads s (note_action action w) (view w.members) (view (note_action action w).members)
    unfolding IsCaused
    note_call action =
        one_call (note_action action w) (view w.members) (view (note_action action w).members)
          (nonce_op action.nonce) (flag (note_nonce action.nonce w.members).1)
          (rw (members-note_action action) (view-note_nonce action.nonce w.members)) tt

    apply_call :
        (v : World) (action : ManageAction)
        → In action v.applied
        → Leads s v (view w.members) (view (apply_action s.deps action w.members).0)
    unfolding apply_action revoke_answer IsCaused
    apply_call v action done = elim (Bool-cases (bytes_eq action.action (codes "revoke"))) [
      | inr e ↦ rw e (stands v _ _ refl)
      | inl e ↦ elim (Option-cases (hash_of action.member_hash)) [
        | inl none_there ↦ rw (e, none_there) (stands v _ _ refl)
        | inr (hash, given) ↦
            rw (e, given)
              (one_call v _ _ (revoke_op hash) _
                (view-revoke s.deps.iter hash w.members sane.complete sound.consistent)
                (action, done, given))
      ]
    ]

    attest_call :
        (v : World) (client : Option Pubkey) (now : ℕ) (given : Option Bytes) (tsm : Tsm s.kernel)
        → Leads s v (view w.members) (
            view
              (instance_lib.Attestation.handler s.sha256 s.kernel s.helper client now
                s.boot.spki_sha256 given w.members tsm).0)
    unfolding instance_lib.Attestation.handler IsCaused
    attest_call v none now given tsm = stands v _ _ refl
    attest_call v (some pk) now given tsm =
        let allowed = view-allow_attestation pk now w.members in
        elim (Bool-cases (allow_attestation pk now w.members).1) [
          | inl e ↦ rw e (
              one_call v _ _ (attest_op pk now) (flag (allow_attestation pk now w.members).1)
                allowed tt)
          | inr e ↦ rw e (
              one_call v _ _ (attest_op pk now) (flag (allow_attestation pk now w.members).1)
                allowed tt)
        ]

    step_call : (v : World) → Step s w v → Leads s v (view w.members) (view v.members)
    step_call _ (enrols leaf chain random req verified new) =
        enrol_call leaf chain random req verified
    step_call _ (notes env action signed) = note_call action
    step_call _ (applies before action later e) = apply_call _ action (inl refl)
    step_call _ (attests leaf chain now asked tsm verified) =
        attest_call _ (client_of s leaf chain) now asked tsm

module _ (s : Service) (sane : IsSane s) where
  Leads-join :
      (w v : World) (r mid r' : Registry)
      → ((t : Bytes) → In t w.drawn → In t v.drawn)
      → ((a : ManageAction) → In a w.applied → In a v.applied)
      → Leads s w r mid
      → Leads s v mid r'
      → Leads s v r r'
  Leads-join w v r mid r' drawn applied (ops, as', p, h) (ops', bs, q, k) = (
    ops ++ ops',
    as' ++ bs,
    Permits-append r mid r' ops ops' as' bs p q,
    All-append (IsCaused s v) ops ops' (causes_stay s w v drawn applied ops h) k,
  )

  Step-applied : (w v : World) → Step s w v → (a : ManageAction) → In a w.applied → In a v.applied
  unfolding note_action
  Step-applied w _ (enrols leaf chain random req verified new) a h = h
  Step-applied w _ (notes env action signed) a h =
      elim (Bool-cases (note_nonce action.nonce w.members).1) [ inl e ↦ rw e h | inr e ↦ rw e h ]
  Step-applied w _ (applies before action later e) a h = inr h
  Step-applied w _ (attests leaf chain now asked tsm verified) a h = h

  -- Where digests and the octets of keys are bytes, the iteration of a map hands out its entries and
  -- no others, and no enrolment draws a bearer that was drawn before: at every moment of any
  -- interleaving of requests the store, seen as a registry, is one that calls lead to from the empty
  -- registry, each answered as the registry allows and each with its cause. An inserted bearer was
  -- drawn, for a pubkey and a hash that the manifest lists together; a revoked hash is that of an
  -- action that was applied.
  pub reached_registry : (w : World) → Reach s w → Leads s w empty_registry (view w.members)
  unfolding lookup
  reached_registry _ here = stands s booted empty_registry (view booted.members) refl
  reached_registry w (next {u = u} r st) =
      Leads-join u w empty_registry (view u.members) (view w.members)
        (λ t. Step-drawn s sane t u w st) (Step-applied u w st) (reached_registry u r)
        (step_call s sane u (Reach-IsSound s sane u r) w st)
