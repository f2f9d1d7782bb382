-- ===== src/System/History.antt =====
-- Where a live bearer comes from: the enrolment of the run that minted it.
use instance_lib.Prelude.{sym, subst, ◌++◌, ◌≡◌, Bytes, List, some, inl, inr, Option, codes}
use instance_lib.Prelude.Map.{lookup}
use instance_lib.Http.{json}
use instance_lib.State.{Pubkey}
use instance_lib.State.Bearers.{contains_token_iff}
use instance_lib.Chat.{Backend}
use instance_lib.Chat
use instance_lib.Chat.Laws.{handler-IsServed}
use instance_lib.System.{booted, Service, World, Step, enrols, Runs, here, next, Reach}
use instance_lib.System.Invariant.{IsSane}
use instance_lib.System.Owners.{
  Owns, Enrolment, after, Runs-drawn, Runs_join, Step-owner, Runs-keeps,
}

module _ (s : Service) (sane : IsSane s) (t : Bytes) where
  -- The enrolment behind a bearer that is live at a moment, and the run since.
  record Since (w : World) (pk : Pubkey) : Type 0 where
    pub origin : Enrolment s t pk
    pub later : Runs s (after origin) w

  Since-next : (w v : World) (pk : Pubkey) → Step s w v → Since w pk → Since v pk
  Since-next w v pk st i = record { origin = i.origin; later = next i.later st }

  Reach-Since : (w : World) (pk : Pubkey) → Reach s w → Owns t pk w → Since w pk
  unfolding lookup
  Reach-Since _ pk here held = absurd (cc held)
  Reach-Since w pk (next r st) held = elim (Step-owner s sane t _ w pk r st held) [
    | inl before ↦ Since-next _ w pk st (Reach-Since _ pk r before)
    | inr (o, e, f) ↦ record { origin = o; later = subst (Runs s (after o)) f here }
  ]

module _ (s : Service) (sane : IsSane s) where
  Enrolment-Reach : (t : Bytes) (pk : Pubkey) → (o : Enrolment s t pk) → Reach s (after o)
  Enrolment-Reach t pk o = next o.reached (enrols o.leaf o.chain o.random o.req o.verified o.new)

  Since-owner :
      (t : Bytes) (w : World) (pk : Pubkey) (o : Enrolment s t pk)
      → Owns t pk w
      → (v : World) → Runs s (after o) v
      → Runs s v w
      → Owns t pk v
  Since-owner t w pk o held v since later =
      Runs-keeps s sane t v w pk (Runs_join s booted _ v (Enrolment-Reach t pk o) since) later
        (Runs-drawn s sane t _ v since (inl (sym o.granted.minted))) held

  -- Where digests and the octets of keys are bytes, the iteration of a map hands out its entries and
  -- no others, and no enrolment draws a bearer that was drawn before: under any interleaving of
  -- requests, a chat request that is served carries a bearer that an earlier enrolment of the run
  -- answered. On a connection whose leaf was verified, that enrolment showed an Apple token and a
  -- transaction that were verified, and its pubkey and member hash were in the manifest; and at every
  -- moment from that enrolment on the bearer was that pubkey's: it was never dead in between.
  pub served_enrolled :
      (w : World)
      → Reach s w
      → (backend : Backend) (authorization : Option Bytes) (body : Bytes) (out : List Bytes)
      → instance_lib.Chat.handler backend authorization body w.members ≡ json out
      → (t : Bytes) × (pk : Pubkey) × (o : Enrolment s t pk) × (authorization
          ≡ some (codes "Bearer " ++ t))
        × Runs s (after o) w
        × ((v : World) → Runs s (after o) v → Runs s v w → lookup t v.members.by_token ≡ some pk)
  served_enrolled w r backend authorization body out served =
      let i = handler-IsServed backend authorization body w.members out served in
      let (pk, held) = (contains_token_iff i.token w.members).0 i.live in
      let since = Reach-Since s sane i.token w pk r held in
      (
        i.token,
        pk,
        since.origin,
        i.carried,
        since.later,
        Since-owner i.token w pk since.origin held,
      )
