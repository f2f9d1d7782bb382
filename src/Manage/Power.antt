-- ===== src/Manage/Power.antt =====
-- What `/manage` can do to the members.
use instance_lib.Prelude.{
  ap, true, ◌⊎◌, false, none, any, Option, codes, bytes_eq_iff, arith, bytes_eq, Bool-cases, some,
  inr, ◌≡◌, inl, Bytes, Option-cases,
}
use instance_lib.Prelude.Map.{lookup}
use instance_lib.Http.{json}
use instance_lib.State.{Inner, Member, Pubkey, note_nonce}
use instance_lib.State.Frame.{note_nonce-SameMembers, SameMembers, SameMembers-IsConsistent}
use instance_lib.State.Invariant.{IsConsistent}
use instance_lib.State.Revoke.{
  IsIteration, IsRevoked, IsDropped, IsUnknown, revoke_lem, revoke-IsConsistent,
}
use instance_lib.App.{AppState}
use instance_lib.Manage.{
  ManageEnvelope, ManageAction, ManageDeps, hash_of, revoke_answer, apply_action, run_action,
  handler,
}
use instance_lib.Manage.Laws.{handler_cases, run_action-replay, run_action_new}

-- Nobody gains a bearer, and nobody's identity changes.
pub record Narrows (g g' : Inner) : Type 0 where
  pub tokens :
      (t : Bytes) (pk : Pubkey) → lookup t g'.by_token ≡ some pk → lookup t g.by_token ≡ some pk
  pub members :
      (pk : Pubkey) (m : Member) → lookup pk g'.by_pubkey ≡ some m → lookup pk g.by_pubkey ≡ some m

pub SameMembers-Narrows : (g g' : Inner) → SameMembers g g' → Narrows g g'
SameMembers-Narrows g g' s = record {
  tokens = λ t pk h. rw s.tokens at h;
  members = λ pk m h. rw s.pubkeys at h;
}

Narrows-trans : (a b c : Inner) → Narrows a b → Narrows b c → Narrows a c
Narrows-trans a b c n m = record {
  tokens = λ t pk h. n.tokens t pk (m.tokens t pk h);
  members = λ pk k h. n.members pk k (m.members pk k h);
}

IsDropped-Narrows : (pk : Pubkey) (g g' : Inner) → IsDropped pk g g' → Narrows g g'
IsDropped-Narrows pk g g' d = record {
  tokens = λ t j h. elim (Option-cases (lookup t g.by_token)) [
    | inl e ↦ absurd (cc (d.others t (λ k. cc)))
    | inr (owner, e) ↦ elim (Bool-cases (bytes_eq owner pk)) [
      | inl same ↦
          let e' : lookup t g.by_token ≡ some pk = ground (arith, bytes_eq_iff owner pk) in
          absurd (cc (d.silenced t e'))
      | inr apart ↦ cc (d.others t (λ k. ground (arith, bytes_eq_iff owner pk)))
    ]
  ];
  members = λ j m h. elim (Bool-cases (bytes_eq pk j)) [
    | inl same ↦ absurd (ground (arith, bytes_eq_iff pk j, d.identity))
    | inr apart ↦ cc (d.other_members j (λ e. ground (arith, bytes_eq_iff pk j)))
  ];
}

module _ (deps : ManageDeps) (complete : IsIteration deps.iter) where
  -- What holds of a store after any step that only takes away.
  abbrev pub IsLess : Inner → Inner → Type 0
  IsLess g g' = IsConsistent g' × Narrows g g'

  revoke_answer-IsLess :
      (hash : Option Bytes) (g : Inner) → IsConsistent g → IsLess g (revoke_answer deps hash g).0
  unfolding revoke_answer
  revoke_answer-IsLess none g c = (c, record { tokens = λ t pk h. h; members = λ pk m h. h })
  revoke_answer-IsLess (some hash) g c = (
    revoke-IsConsistent deps.iter complete hash g c,
    elim (revoke_lem deps.iter complete hash g c) [
      | inl (_, same, _) ↦ rw same (record { tokens = λ t pk h. h; members = λ pk m h. h })
      | inr (_, (pk, m, held, e, dropped)) ↦ IsDropped-Narrows pk g _ dropped
    ],
  )

  pub apply_action-IsLess :
      (action : ManageAction) (g : Inner) → IsConsistent g → IsLess g (apply_action deps action g).0
  unfolding apply_action
  apply_action-IsLess action g c = elim (Bool-cases (bytes_eq action.action (codes "revoke"))) [
    | inl e ↦ rw e (revoke_answer-IsLess (hash_of action.member_hash) g c)
    | inr e ↦ rw e (c, record { tokens = λ t pk h. h; members = λ pk m h. h })
  ]

  run_action-IsLess :
      (action : ManageAction) (g : Inner) → IsConsistent g → IsLess g (run_action deps action g).0
  run_action-IsLess action g c =
      let s = note_nonce-SameMembers action.nonce g in
      let noted = (note_nonce action.nonce g).0 in
      elim (Bool-cases (any (bytes_eq action.nonce) g.seen_nonces)) [
        | inl e ↦
            rw (run_action-replay deps action g e)
              (c, record { tokens = λ t pk h. h; members = λ pk m h. h })
        | inr e ↦
            let (c', n) = apply_action-IsLess action noted (SameMembers-IsConsistent g noted s c) in
            rw (run_action_new deps action g e)
              (c', Narrows-trans g noted _ (SameMembers-Narrows g noted s) n)
      ]

  -- Where the iteration of the map hands out its entries and no others: whatever is posted to
  -- `/manage`, a consistent store stays consistent, every bearer that is live afterwards was live
  -- before for the same pubkey, and every member was there before, the same.
  pub handler-IsLess :
      {Key : Type 0} (state : AppState Key deps.Verifier) (env : ManageEnvelope)
      → IsConsistent state.members
      → IsConsistent (handler deps state env).0 × Narrows state.members (handler deps state env).0
  handler-IsLess state env c = elim (handler_cases deps state env) [
    | inl (code, msg, _, _, run) ↦
        rw (run state.members) (c, record { tokens = λ t pk h. h; members = λ pk m h. h })
    | inr (action, _, run) ↦ rw (run state.members) (run_action-IsLess action state.members c)
  ]

  -- Where the iteration of the map hands out its entries and no others: on a consistent store, a
  -- revoke with a new nonce and a hash of 32 bytes in hex notes the nonce. Then it answers
  -- `false`, and no member has the hash, or it answers `true` and drops a member that has it, with
  -- every bearer that this member holds and no other bearer.
  pub run_action_revoke :
      (action : ManageAction) (hash : Bytes) (g : Inner)
      → IsConsistent g
      → action.action ≡ codes "revoke"
      → hash_of action.member_hash ≡ some hash
      → any (bytes_eq action.nonce) g.seen_nonces ≡ false
      → let r = run_action deps action g in
        let noted = (note_nonce action.nonce g).0 in
        ((r.1 ≡ json false) × (r.0 ≡ noted) × IsUnknown hash noted)
        ⊎ ((r.1 ≡ json true) × IsRevoked hash noted r.0)
  unfolding apply_action
  run_action_revoke action hash g c name given new =
      let noted = (note_nonce action.nonce g).0 in
      let c' = SameMembers-IsConsistent g noted (note_nonce-SameMembers action.nonce g) c in
      let named = (bytes_eq_iff action.action (codes "revoke")).1 name in
      rw (run_action_new deps action g new, named, given)
        (elim (revoke_lem deps.iter complete hash noted c') [
          | inl (said, same, unknown) ↦ inl (ap json said, same, unknown)
          | inr (said, gone) ↦ inr (ap json said, gone)
        ])
