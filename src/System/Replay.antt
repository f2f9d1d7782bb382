-- ===== src/System/Replay.antt =====
-- A `/manage` request that is posted again later.
use instance_lib.Prelude.{◌≡◌, ◌⊎◌, refl, inl, inr, true, any, bytes_eq, Bool-cases, Bytes}
use instance_lib.Http.{status}
use instance_lib.State.{note_nonce}
use instance_lib.State.Frame.{seen-note_nonce_stays}
use instance_lib.Attestation.Frame.{seen-handler}
use instance_lib.Enroll.Handler.{handler_lem, entry_for}
use instance_lib.Manage
use instance_lib.Manage.{ManageEnvelope, ManageAction}
use instance_lib.Manage.Laws.{
  handler_cases, run_action-replay, run_action_spends, seen-apply_action,
}
use instance_lib.System.{
  Service, World, note_action, at_store, client_of, Step, enrols, notes, applies, attests, Runs,
  here, next,
}
use instance_lib.System.Soundness.{seen-insert}

module _ (s : Service) (nonce : Bytes) where
  abbrev IsNoted : World → Type 0
  IsNoted w = any (bytes_eq nonce) w.members.seen_nonces ≡ true

  note_keeps : (w : World) (action : ManageAction) → IsNoted w → IsNoted (note_action action w)
  unfolding note_action
  note_keeps w action noted =
      let still = seen-note_nonce_stays action.nonce nonce w.members noted in
      elim (Bool-cases (note_nonce action.nonce w.members).1) [
        | inl e ↦ rw e still
        | inr e ↦ rw e still
      ]

  Step-IsNoted : (w v : World) → Step s w v → IsNoted w → IsNoted v
  Step-IsNoted w _ (enrols leaf chain random req verified new) noted =
      elim (handler_lem s.x s.jwt s.sha256 s.lowercase (at_store s w.members) random
        (client_of s leaf chain) req) [
          | inl (same, said) ↦ rw same noted
          | inr (pk, known, (token, said, e)) ↦
              let entry =
                entry_for s.x s.jwt s.sha256 s.lowercase (at_store s w.members) random pk
                  e.claims.sub e.tx in
              rw (e.stored, seen-insert entry w.members) noted
        ]
  Step-IsNoted w _ (notes env action signed) noted = note_keeps w action noted
  Step-IsNoted w _ (applies before action later e) noted =
      rw (seen-apply_action s.deps action w.members) noted
  Step-IsNoted w _ (attests leaf chain now asked tsm verified) noted =
      rw
        (seen-handler s.sha256 s.kernel s.helper (client_of s leaf chain) now s.boot.spki_sha256
          asked w.members tsm)
        noted

  Runs-IsNoted : (w v : World) → Runs s w v → IsNoted w → IsNoted v
  Runs-IsNoted w _ here noted = noted
  Runs-IsNoted w _ (next r st) noted = Step-IsNoted _ _ st (Runs-IsNoted w _ r noted)

module _ (s : Service) where
  -- A `/manage` request that is posted again at any later moment, whatever requests came in meanwhile,
  -- changes nothing, and is answered as the first time or with 409.
  pub manage_replayed :
      (w u v : World) (env : ManageEnvelope)
      → u.members ≡ (instance_lib.Manage.handler s.deps (at_store s w.members) env).0
      → Runs s u v
      → let once = instance_lib.Manage.handler s.deps (at_store s w.members) env in
        let again = instance_lib.Manage.handler s.deps (at_store s v.members) env in
        (again.0 ≡ v.members) × ((again.1 ≡ once.1) ⊎ (status again.1 ≡ 409))
  manage_replayed w u v env left r = elim (handler_cases s.deps (at_store s w.members) env) [
    | inl (code, msg, _, _, run) ↦ rw (run v.members, run w.members) (refl, inl refl)
    | inr (action, _, run) ↦
        let spent : any (bytes_eq action.nonce) u.members.seen_nonces ≡ true =
          rw (left, run w.members) (run_action_spends s.deps action w.members) in
        rw
          (
            run v.members,
            run_action-replay s.deps action v.members (Runs-IsNoted s action.nonce u v r spent),
          )
          (refl, inr refl)
  ]
