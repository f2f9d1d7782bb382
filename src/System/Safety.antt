-- ===== src/System/Safety.antt =====
-- What holds at every moment of a run.
use instance_lib.Prelude.{arith, some, ◌≡◌, Bytes, ◌≤◌}
use instance_lib.State.{MemberEntry, get_by_token}
use instance_lib.State.Bearers.{get_by_token_iff}
use instance_lib.System.{Service, World, Reach}
use instance_lib.System.Invariant.{IsListed, IsSane, times}
use instance_lib.System.Soundness.{Reach-IsSound}

module _ (s : Service) (sane : IsSane s) (w : World) (r : Reach s w) where
  -- Where digests and the octets of keys are bytes, the iteration of a map hands out its entries and
  -- no others, and no enrolment draws a bearer that was drawn before: at every moment of any
  -- interleaving of requests, a bearer that finds an entry belongs to a device of the cohort, for the
  -- manifest lists the entry's pubkey together with the entry's member hash.
  pub get_by_token-IsListed :
      (t : Bytes) (entry : MemberEntry)
      → get_by_token t w.members ≡ some entry
      → IsListed s.manifest entry.client_pubkey entry.member_hash
  get_by_token-IsListed t entry found =
      let sound = Reach-IsSound s sane w r in
      let (m, held, live, same, hash, tx) =
        (get_by_token_iff t w.members entry sound.consistent).0 found in
      rw hash (sound.cohort entry.client_pubkey m held)

  -- Where digests and the octets of keys are bytes, the iteration of a map hands out its entries and
  -- no others, and no enrolment draws a bearer that was drawn before: under any interleaving of
  -- requests, where another request may come between the note of a nonce and the action that it
  -- guards, at most one action with a nonce is ever applied, and none is while one with that nonce
  -- waits.
  pub applied_once :
      (nonce : Bytes)
      → (times nonce w.applied ≤ 1) × (1 ≤ times nonce w.pending → times nonce w.applied ≡ 0)
  applied_once nonce =
      let sound = Reach-IsSound s sane w r in
      (omega (arith, sound.once nonce), λ h. omega (arith, sound.once nonce))
