-- ===== src/System/Soundness.antt =====
-- The steps of a run, and its invariant.
use instance_lib.Prelude.{
  subst, leb, ◌+◌, refl, false, arith, bytes_eq_iff, ap, true, sym, inr, inl, bytes_eq, Bool-cases,
  Option-cases, any, ◌∷◌, some, AreBytes, In, [], List, Bytes, ◌++◌, Option, ◌≡◌, none,
}
use instance_lib.Prelude.Map.{lookup}
use instance_lib.Codec.Base64.{b64url_nopad}
use instance_lib.Mtls.{verify_client_cert, assertion, accept, call}
use instance_lib.Mtls.Laws.{verify_client_cert_iff, client_point_octets}
use instance_lib.State.{Inner, Member, MemberEntry, Pubkey, note_nonce, insert}
use instance_lib.State.Insert.{insert_stays_dead, lookup_member-insert}
use instance_lib.State.Invariant.{IsConsistent, empty_store-IsConsistent, insert-IsConsistent}
use instance_lib.State.Frame.{
  SameMembers-IsConsistent, note_nonce-SameMembers, note_nonce_lem, note_nonce_seen,
  seen-note_nonce_stays,
}
use instance_lib.Attestation.Frame.{handler-SameMembers, seen-handler}
use instance_lib.Enroll.{EnrollRequest}
use instance_lib.Enroll.Handler.{handler_lem, entry_for, in_manifest-listed}
use instance_lib.Manage.{ManageAction}
use instance_lib.Manage.Laws.{seen-apply_action}
use instance_lib.Manage.Power.{Narrows, SameMembers-Narrows, apply_action-IsLess}
use instance_lib.System.Invariant.{IsListed, IsSane, IsSound, times, passed, times-append}
use instance_lib.System.{
  Service, World, note_action, at_store, client_of, enrolled_at, Step, enrols, notes, applies,
  attests, Runs, here, next, Reach, booted,
}

abbrev hash_or : Option Member → Bytes
hash_or none = []
hash_or (some m) = m.member_hash

pub seen-insert : (entry : MemberEntry) (g : Inner) → (insert entry g).0.seen_nonces ≡ g.seen_nonces
unfolding insert
seen-insert entry g = refl

module _ (s : Service) (sane : IsSane s) (w : World) (sound : IsSound s w) where
  -- A step that only takes away.
  narrowed :
      (g : Inner) (pending applied : List ManageAction)
      → IsConsistent g
      → Narrows w.members g
      → g.seen_nonces ≡ w.members.seen_nonces
      → ((nonce : Bytes) → times nonce pending + times nonce applied ≡ passed nonce w)
      → IsSound s (record w { members = g; pending = pending; applied = applied })
  narrowed g pending applied c n seen kept = record {
    consistent = c;
    cohort = λ pk m h. sound.cohort pk m (n.members pk m h);
    minted = λ t pk h. sound.minted t pk (n.tokens t pk h);
    once = λ nonce. rw (kept nonce) (sound.once nonce);
    spent = λ nonce h. rw seen (sound.spent nonce (rw (kept nonce) at h));
  }

  pub client_octets :
      (leaf : Bytes) (chain : List Bytes) (pk : Pubkey)
      → client_of s leaf chain ≡ some pk
      → verify_client_cert s.x s.manifest leaf ≡ assertion
      → AreBytes pk
  unfolding call accept
  client_octets leaf chain pk known verified =
      let (point, e, held) = (verify_client_cert_iff s.x s.manifest leaf).0 verified in
      client_point_octets s.x sane.octets leaf pk (cc (rw e at known))

  pub undrawn : (t : Bytes) → ¬ In t w.drawn → lookup t w.members.by_token ≡ none
  undrawn t new = elim (Option-cases (lookup t w.members.by_token)) [
    | inl e ↦ e
    | inr (pk, e) ↦ absurd (new (sound.minted t pk e))
  ]

  module _ (entry : MemberEntry) (new : ¬ In entry.session_token w.drawn)
      (listed : IsListed s.manifest entry.client_pubkey entry.member_hash) where
    member_after :
        (j : Pubkey) (m : Member)
        → lookup j (insert entry w.members).0.by_pubkey ≡ some m
        → IsListed s.manifest j m.member_hash
    member_after j m h = elim (Bool-cases (bytes_eq entry.client_pubkey j)) [
      | inl same ↦
          let held = rw (lookup_member-insert entry w.members j, same) at h in
          let hm : m.member_hash ≡ entry.member_hash = sym (ap hash_or held) in
          rw (← (bytes_eq_iff entry.client_pubkey j).0 same, hm) listed
      | inr other ↦ sound.cohort j m (rw (lookup_member-insert entry w.members j, other) at h)
    ]

    minted_after :
        (t : Bytes) (j : Pubkey)
        → lookup t (insert entry w.members).0.by_token ≡ some j
        → In t (entry.session_token ∷ w.drawn)
    minted_after t j h = elim (Bool-cases (bytes_eq entry.session_token t)) [
      | inl same ↦ inl ((bytes_eq_iff _ t).0 same)
      | inr other ↦ elim (Option-cases (lookup t w.members.by_token)) [
        | inr (pk, held) ↦ inr (sound.minted t pk held)
        | inl dead ↦ absurd (
            cc (
              h,
              insert_stays_dead entry w.members t
                  (λ e. cc ((bytes_eq_iff entry.session_token t).1 e)) dead,
            ))
      ]
    ]

    inserted :
        IsSound s
          (record w { members = (insert entry w.members).0; drawn = entry.session_token ∷ w.drawn })
    inserted = record {
      consistent = insert-IsConsistent entry w.members sound.consistent (undrawn _ new);
      cohort = member_after;
      minted = minted_after;
      once = sound.once;
      spent = λ nonce h. rw (seen-insert entry w.members) (sound.spent nonce h);
    }

  enrol_step :
      (leaf : Bytes) (chain : List Bytes) (random : Bytes) (req : EnrollRequest)
      → verify_client_cert s.x s.manifest leaf ≡ assertion
      → ¬ In (b64url_nopad random) w.drawn
      → IsSound s (record w {
        members = enrolled_at s w.members random leaf chain req;
        drawn = b64url_nopad random ∷ w.drawn;
      })
  enrol_step leaf chain random req verified new =
      elim (handler_lem s.x s.jwt s.sha256 s.lowercase (at_store s w.members) random
        (client_of s leaf chain) req) [
          | inl (same, said) ↦ rw same (record {
            consistent = sound.consistent;
            cohort = sound.cohort;
            minted = λ t j h. inr (sound.minted t j h);
            once = sound.once;
            spent = sound.spent;
          })
          | inr (pk, known, granted) ↦
              let (token, said, e) = granted in
              let entry =
                entry_for s.x s.jwt s.sha256 s.lowercase (at_store s w.members) random pk
                  e.claims.sub e.tx in
              rw e.stored (
                inserted entry new (
                  in_manifest-listed s.x s.jwt s.sha256 s.manifest pk entry.member_hash
                    (client_octets leaf chain pk known verified) (sane.digests _) e.cohort))
        ]

  -- A nonce that is new did not go through before.
  unpassed :
      (nonce : Bytes) → any (bytes_eq nonce) w.members.seen_nonces ≡ false → passed nonce w ≡ 0
  unpassed nonce new = elim (Bool-cases (leb 1 (passed nonce w))) [
    | inl e ↦ absurd (cc (sound.spent nonce (ground arith), new))
    | inr e ↦ ground arith
  ]

  noted :
      (action : ManageAction)
      → any (bytes_eq action.nonce) w.members.seen_nonces ≡ false
      → IsSound s (record w {
        members = (note_nonce action.nonce w.members).0;
        pending = action ∷ w.pending;
      })
  noted action new =
      let same = note_nonce-SameMembers action.nonce w.members in
      let n = SameMembers-Narrows w.members _ same in
      let zero_before = unpassed action.nonce new in
      record {
        consistent = SameMembers-IsConsistent w.members _ same sound.consistent;
        cohort = λ pk m h. sound.cohort pk m (n.members pk m h);
        minted = λ t pk h. sound.minted t pk (n.tokens t pk h);
        once = λ nonce. elim (Bool-cases (bytes_eq action.nonce nonce)) [
          | inl e ↦
              let zero_here : passed nonce w ≡ 0 =
                subst (λ n. passed n w ≡ 0) ((bytes_eq_iff action.nonce nonce).0 e) zero_before in
              rw e (omega arith)
          | inr e ↦ rw e (omega (arith, sound.once nonce))
        ];
        spent = λ nonce h. elim (Bool-cases (bytes_eq action.nonce nonce)) [
          | inl e ↦
              rw (← (bytes_eq_iff action.nonce nonce).0 e)
                ((note_nonce_lem action.nonce w.members).1)
          | inr e ↦
              seen-note_nonce_stays action.nonce nonce w.members
                (sound.spent nonce (let h' = rw e at h in omega arith))
        ];
      }

  note_step : (action : ManageAction) → IsSound s (note_action action w)
  unfolding note_action
  note_step action = elim (Bool-cases (any (bytes_eq action.nonce) w.members.seen_nonces)) [
    | inl old ↦ rw (note_nonce_seen action.nonce w.members old) (
        narrowed w.members w.pending w.applied sound.consistent
          (record { tokens = λ t pk h. h; members = λ pk m h. h }) refl (λ nonce. refl))
    | inr new ↦
        let is_new : (note_nonce action.nonce w.members).1 ≡ true =
          rw new at ((note_nonce_lem action.nonce w.members).0) in
        rw is_new (noted action new)
  ]

  pub Step-IsSound : (v : World) → Step s w v → IsSound s v
  Step-IsSound _ (enrols leaf chain random req verified new) =
      enrol_step leaf chain random req verified new
  Step-IsSound _ (notes env action signed) = note_step action
  Step-IsSound _ (applies before action later e) =
      let (c, n) = apply_action-IsLess s.deps sane.complete action w.members sound.consistent in
      narrowed _ (before ++ later) (action ∷ w.applied) c n
        (seen-apply_action s.deps action w.members)
        (λ nonce. rw e (
          omega
            (arith, times-append nonce before later, times-append nonce before (action ∷ later))))
  Step-IsSound _ (attests leaf chain now nonce tsm verified) =
      let same =
        handler-SameMembers s.sha256 s.kernel s.helper (client_of s leaf chain) now
          s.boot.spki_sha256 nonce w.members tsm in
      narrowed _ w.pending w.applied (SameMembers-IsConsistent w.members _ same sound.consistent)
        (SameMembers-Narrows w.members _ same)
        (seen-handler s.sha256 s.kernel s.helper (client_of s leaf chain) now s.boot.spki_sha256
          nonce w.members tsm)
        (λ n. refl)

booted-IsSound : (s : Service) → IsSound s booted
unfolding lookup
booted-IsSound s = record {
  consistent = empty_store-IsConsistent;
  cohort = λ pk m h. cc;
  minted = λ t pk h. cc;
  once = λ nonce. omega arith;
  spent = λ nonce h. absurd (omega arith);
}

pub Runs-IsSound : (s : Service) → IsSane s → (w v : World) → IsSound s w → Runs s w v → IsSound s v
Runs-IsSound s sane w _ sound here = sound
Runs-IsSound s sane w _ sound (next r st) =
    Step-IsSound s sane _ (Runs-IsSound s sane w _ sound r) _ st

pub Reach-IsSound : (s : Service) → IsSane s → (w : World) → Reach s w → IsSound s w
Reach-IsSound s sane w r = Runs-IsSound s sane booted w (booted-IsSound s) r
