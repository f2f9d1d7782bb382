-- ===== src/System/Requests.antt =====
-- A whole `/manage` request as steps of a run.
use instance_lib.Prelude.{◌≡◌, refl, inl, inr, Bool-cases, []}
use instance_lib.State.{note_nonce}
use instance_lib.Manage
use instance_lib.Manage.{ManageEnvelope, ManageAction, run_action}
use instance_lib.Manage.Laws.{handler_cases, IsAuthentic}
use instance_lib.System.{Service, World, note_action, at_store, Runs, here, next, notes, applies}

module _ (s : Service) (w : World) where
  action-Runs :
      (env : ManageEnvelope) (action : ManageAction)
      → IsAuthentic s.deps (at_store s w.members) env action
      → (v : World) × Runs s w v × (v.members ≡ (run_action s.deps action w.members).0)
  unfolding note_action run_action
  action-Runs env action signed =
      let noted : Runs s w (note_action action w) = next here (notes env action signed) in
      elim (Bool-cases (note_nonce action.nonce w.members).1) [
        | inr old ↦ (note_action action w, noted, rw old refl)
        | inl new ↦ (_, next noted (applies [] action w.pending (rw new refl)), rw new refl)
      ]

  -- A `/manage` request that nothing interrupts is a run of the locks that it takes, none where it is
  -- refused: it ends in the very store that the handler leaves.
  pub manage-Runs :
      (env : ManageEnvelope)
      → (v : World) × Runs s w v
        × (v.members ≡ (instance_lib.Manage.handler s.deps (at_store s w.members) env).0)
  manage-Runs env = elim (handler_cases s.deps (at_store s w.members) env) [
    | inl (code, msg, _, _, run) ↦ (w, here, rw (run w.members) refl)
    | inr (action, signed, run) ↦
        let (v, runs, same) = action-Runs env action signed in (v, runs, rw (run w.members) same)
  ]
