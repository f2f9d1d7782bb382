-- ===== src/System.antt =====
-- The service as a whole: src/lib.rs routes four handlers to one store. axum runs them concurrently,
-- and each takes the store's lock once for each thing that it does to the store. A step is what
-- happens under one lock, so a run of steps is any interleaving of requests.
pub mod Invariant
pub mod Soundness
pub mod Safety
pub mod Revocation
pub mod Streams
pub mod Owners
pub mod History
pub mod Replay
pub mod Undisturbed
pub mod Registry
pub mod Requests
pub mod Start
pub mod Access
mod Tests
mod RevokeTests
mod StreamTests
mod HistoryTests
mod AccessTests
use instance_lib.Prelude.{◌++◌, In, some, ◌≡◌, ◌∷◌, ℕ, Option, List, [], if◌then◌else◌, Bytes, none}
use instance_lib.Codec.Base64.{b64url_nopad}
use instance_lib.X509.{X509}
use instance_lib.Jwt.{Jwt}
use instance_lib.Manifest.{Manifest}
use instance_lib.Mtls.{verify_client_cert, assertion, accept, call}
use instance_lib.State.{Inner, Pubkey, empty_store, note_nonce}
use instance_lib.App.{AppState, BootContext, Anchors}
use instance_lib.Enroll
use instance_lib.Enroll.{EnrollRequest}
use instance_lib.Attestation
use instance_lib.Attestation.Quote.{Kernel, Tsm}
use instance_lib.Attestation.Gpus.{Helper}
use instance_lib.Manage.{ManageDeps, ManageEnvelope, ManageAction, apply_action}
use instance_lib.Manage.Laws.{IsAuthentic}

-- What a boot fixes, and what the service takes from the crates and the system.
pub record Service : Type 1 where
  pub x : X509
  pub jwt : Jwt
  pub sha256 : Bytes → Bytes
  pub lowercase : ℕ → List ℕ
  pub deps : ManageDeps
  pub kernel : Kernel
  pub helper : Helper
  pub boot : BootContext
  pub manifest : Manifest
  pub anchors : Anchors jwt.Key deps.Verifier

-- The store; the management actions whose nonce was noted and that are not applied yet; and, for
-- the statements, the actions that were applied and the bearers that were drawn.
pub record World : Type 0 where
  pub members : Inner
  pub pending : List ManageAction
  pub applied : List ManageAction
  pub drawn : List Bytes

abbrev pub booted : World
booted = record { members = empty_store; pending = []; applied = []; drawn = [] }

-- `note_nonce` of the `/manage` handler: an action with a new nonce goes on.
unfoldable pub note_action : ManageAction → World → World
note_action action w =
    let (members, new) = note_nonce action.nonce w.members in
    if new
    then record w { members = members; pending = action ∷ w.pending }
    else record w { members = members }

module _ (s : Service) where
  abbrev pub at_store : Inner → AppState s.jwt.Key s.deps.Verifier
  at_store members = record {
    boot = s.boot;
    members = members;
    manifest = s.manifest;
    anchors = s.anchors;
  }

  -- The pubkey that the requests of a connection carry, by the peer's leaf.
  abbrev pub client_of : Bytes → List Bytes → Option Pubkey
  client_of leaf chain = call (accept s.x (some (leaf ∷ chain))) none

  abbrev pub enrolled_at : Inner → Bytes → Bytes → List Bytes → EnrollRequest → Inner
  enrolled_at members random leaf chain req =
      (instance_lib.Enroll.handler s.x s.jwt s.sha256 s.lowercase (at_store members) random
        (client_of leaf chain) req).0

  -- A connection stands only where the verifier accepted its leaf.
  pub data Step (w : World) : World → Type 0 where
    enrols :
        (leaf : Bytes) (chain : List Bytes) (random : Bytes) (req : EnrollRequest)
        → verify_client_cert s.x s.manifest leaf ≡ assertion
        → ¬ In (b64url_nopad random) w.drawn
        → Step w (record w {
          members = enrolled_at w.members random leaf chain req;
          drawn = b64url_nopad random ∷ w.drawn;
        })
    notes :
        (env : ManageEnvelope) (action : ManageAction)
        → IsAuthentic s.deps (at_store w.members) env action
        → Step w (note_action action w)
    applies :
        (before : List ManageAction) (action : ManageAction) (later : List ManageAction)
        → w.pending ≡ before ++ action ∷ later
        → Step w (record w {
          members = (apply_action s.deps action w.members).0;
          pending = before ++ later;
          applied = action ∷ w.applied;
        })
    attests :
        (leaf : Bytes) (chain : List Bytes) (now : ℕ) (nonce : Option Bytes) (tsm : Tsm s.kernel)
        → verify_client_cert s.x s.manifest leaf ≡ assertion
        → Step w (record w {
          members =
              (instance_lib.Attestation.handler s.sha256 s.kernel s.helper
                (client_of leaf chain)
                now
                s.boot.spki_sha256
                nonce
                w.members
                tsm).0;
        })

  -- A run, from one moment to a later one.
  pub data Runs (w : World) : World → Type 0 where
    here : Runs w w
    next : {u v : World} → Runs w u → Step u v → Runs w v

  abbrev pub Reach : World → Type 0
  Reach = Runs booted
