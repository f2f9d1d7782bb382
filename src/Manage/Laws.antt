-- ===== src/Manage/Laws.antt =====
-- The `/manage` endpoint, branch by branch.
use instance_lib.Prelude.{
  Option-cases, ℕ, ◌⊎◌, refl, none, inr, inl, Bool-cases, some, false, Bytes, true, Option,
  bytes_eq, codes, ◌≡◌, any, Bool,
}
use instance_lib.Codec.Base64.{b64_decode_any}
use instance_lib.Http.{Response, err, conflict}
use instance_lib.State.{Inner, note_nonce}
use instance_lib.State.Frame.{note_nonce_lem, note_nonce_seen, seen-revoke}
use instance_lib.App.{AppState}
use instance_lib.Manage.{
  ManageEnvelope, ManageAction, ManageDeps, hash_of, revoke_answer, apply_action, run_action,
  checked, envelope, handler,
}

module _ (deps : ManageDeps) where
  abbrev replay : Response Bool
  replay = err conflict (codes "nonce replay")

  -- A nonce that was seen stops the action before it starts.
  pub run_action-replay :
      (action : ManageAction) (g : Inner)
      → any (bytes_eq action.nonce) g.seen_nonces ≡ true
      → run_action deps action g ≡ (g, replay)
  unfolding run_action
  run_action-replay action g e = rw (note_nonce_seen action.nonce g e)

  pub seen-apply_action :
      (action : ManageAction) (g : Inner)
      → (apply_action deps action g).0.seen_nonces ≡ g.seen_nonces
  unfolding apply_action
  seen-apply_action action g = elim (Bool-cases (bytes_eq action.action (codes "revoke"))) [
    | inr e ↦ rw e
    | inl e ↦ rw e (answered (hash_of action.member_hash))
  ]
    where
      answered : (o : Option Bytes) → (revoke_answer deps o g).0.seen_nonces ≡ g.seen_nonces
      answered none = refl
      answered (some hash) = seen-revoke deps.iter hash g

  pub run_action_new :
      (action : ManageAction) (g : Inner)
      → any (bytes_eq action.nonce) g.seen_nonces ≡ false
      → run_action deps action g ≡ apply_action deps action (note_nonce action.nonce g).0
  unfolding run_action
  run_action_new action g e =
      let new : (note_nonce action.nonce g).1 ≡ true =
        rw e at ((note_nonce_lem action.nonce g).0) in
      rw new

  -- Whatever came of an action, its nonce is spent.
  pub run_action_spends :
      (action : ManageAction) (g : Inner)
      → any (bytes_eq action.nonce) (run_action deps action g).0.seen_nonces ≡ true
  run_action_spends action g = elim (Bool-cases (any (bytes_eq action.nonce) g.seen_nonces)) [
    | inl e ↦ rw (run_action-replay action g e) e
    | inr e ↦
        rw (run_action_new action g e, seen-apply_action action (note_nonce action.nonce g).0)
          ((note_nonce_lem action.nonce g).1)
  ]

  module _ {Key : Type 0} (state : AppState Key deps.Verifier) where
    abbrev pub over : Inner → AppState Key deps.Verifier
    over members = record state { members = members }

    -- The envelope carries an action under the pinned key's signature.
    pub record IsAuthentic (env : ManageEnvelope) (action : ManageAction) : Type 0 where
      pub payload : Bytes
      pub sent : b64_decode_any env.payload ≡ some payload
      pub sig_bytes : Bytes
      pub with_bytes : b64_decode_any env.signature ≡ some sig_bytes
      pub signature : deps.Signature
      pub formed : deps.from_slice sig_bytes ≡ some signature
      pub verified : deps.verify state.anchors.orch_manage_pubkey payload signature ≡ true
      pub parsed : deps.parse_action payload ≡ some action

    -- Refused with 400 or 401 whatever the store holds, which stays as it is; and then no action
    -- is authentic.
    abbrev pub IsRefusal : ManageEnvelope → Type 0
    IsRefusal env =
        (code : ℕ) × (msg : Bytes) × ((code ≡ 401) ⊎ (code ≡ 400))
        × ((action : ManageAction) → ¬ IsAuthentic env action)
        × ((members : Inner) → handler deps (over members) env ≡ (members, err code msg))

    abbrev pub IsAction : ManageEnvelope → Type 0
    IsAction env =
        (action : ManageAction) × IsAuthentic env action
        × ((members : Inner) → handler deps (over members) env ≡ run_action deps action members)

    handler_signed :
        (env : ManageEnvelope) (payload sig_bytes : Bytes) (signature : deps.Signature)
        → b64_decode_any env.payload ≡ some payload
        → b64_decode_any env.signature ≡ some sig_bytes
        → deps.from_slice sig_bytes ≡ some signature
        → IsRefusal env ⊎ IsAction env
    unfolding handler
    handler_signed env payload sig_bytes signature d e f =
        elim (Bool-cases (deps.verify state.anchors.orch_manage_pubkey payload signature)) [
          | inr bad ↦ inl (
            401,
            codes "signature invalid",
            inl refl,
            λ action i. absurd (cc (d, e, f, bad, i.sent, i.with_bytes, i.formed, i.verified)),
            λ m. rw (d, e, envelope, f, checked, bad),
          )
          | inl good ↦ elim (Option-cases (deps.parse_action payload)) [
            | inl none_there ↦ inl (
              400,
              codes "malformed action",
              inr refl,
              λ action i. absurd (cc (d, none_there, i.sent, i.parsed)),
              λ m. rw (d, e, envelope, f, checked, good, none_there),
            )
            | inr (action, parsed) ↦ inr (
              action,
              record {
                payload = payload;
                sent = d;
                sig_bytes = sig_bytes;
                with_bytes = e;
                signature = signature;
                formed = f;
                verified = good;
                parsed = parsed;
              },
              λ m. rw (d, e, envelope, f, checked, good, parsed),
            )
          ]
        ]

    -- Either the request carries no action under a signature that the pinned key verifies, and is
    -- refused with 400 or 401 whatever the store holds, which stays as it is; or its payload is an
    -- action under a signature that the pinned key verifies, and on every store that action runs.
    pub handler_cases : (env : ManageEnvelope) → IsRefusal env ⊎ IsAction env
    unfolding handler
    handler_cases env = elim (Option-cases (b64_decode_any env.payload)) [
      | inl d ↦ inl (
        401,
        codes "malformed envelope",
        inl refl,
        λ action i. absurd (cc (d, i.sent)),
        λ m. rw (d, envelope),
      )
      | inr (payload, d) ↦ elim (Option-cases (b64_decode_any env.signature)) [
        | inl e ↦ inl (
          401,
          codes "malformed envelope",
          inl refl,
          λ action i. absurd (cc (e, i.with_bytes)),
          λ m. rw (d, e, envelope),
        )
        | inr (sig_bytes, e) ↦ elim (Option-cases (deps.from_slice sig_bytes)) [
          | inl f ↦ inl (
            401,
            codes "malformed signature",
            inl refl,
            λ action i. absurd (cc (e, f, i.with_bytes, i.formed)),
            λ m. rw (d, e, envelope, f, checked),
          )
          | inr (signature, f) ↦ handler_signed env payload sig_bytes signature d e f
        ]
      ]
    ]
