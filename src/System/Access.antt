-- ===== src/System/Access.antt =====
-- From `/enroll` to the chat: what a bearer that was just granted is good for.
use instance_lib.Prelude.{
  any, ℕ, Bytes, List, Option, some, none, true, false, ◌≡◌, ◌++◌, codes, inl, inr, refl, bytes_eq,
  bytes_eq_refl,
}
use instance_lib.Prelude.Map.{lookup}
use instance_lib.X509.{X509}
use instance_lib.Jwt.{Jwt}
use instance_lib.Http.{err, json}
use instance_lib.State.{Member, Inner, MemberEntry, Pubkey, insert, contains_token}
use instance_lib.State.Insert.{lookup_token-insert}
use instance_lib.App.{AppState}
use instance_lib.Enroll
use instance_lib.Enroll.{EnrollRequest}
use instance_lib.Enroll.Handler.{entry_for}
use instance_lib.Enroll.Account.{granted-IsEnrolled}
use instance_lib.Enroll.Entitled.{IsEntitled, entitled-answer}
use instance_lib.Codec.Base64.{b64url_nopad}
use instance_lib.Chat.Laws.{handler_unauthorized, live_bearer-sent}
use instance_lib.Manage.{ManageDeps, ManageAction, hash_of, run_action}
use instance_lib.Manage.Power.{run_action_revoke}
use instance_lib.State.Revoke.{IsIteration}
use instance_lib.State.Frame.{note_nonce-SameMembers}
use instance_lib.State.Invariant.{IsConsistent}
use instance_lib.Chat.{handler, Backend, bearer, live_bearer}

contains_token-insert :
    (entry : MemberEntry) (g : Inner) → contains_token entry.session_token (insert entry g).0 ≡ true
unfolding contains_token
contains_token-insert entry g =
    let held : lookup entry.session_token (insert entry g).0.by_token ≡ some entry.client_pubkey =
      rw (bytes_eq_refl entry.session_token) at (lookup_token-insert entry g entry.session_token) in
    rw held refl

module _ (x : X509) (jwt : Jwt) (sha256 : Bytes → Bytes) (lowercase : ℕ → List ℕ)
    {Verifier : Type 0} (state : AppState jwt.Key Verifier) (backend : Backend) where
  enrolled_chats :
      (random : Bytes) (client : Option Pubkey) (req : EnrollRequest) (token : Bytes)
      → let (members, answer) =
          instance_lib.Enroll.handler x jwt sha256 lowercase state random client req in
        answer ≡ json token
        → live_bearer backend (bearer (some (codes "Bearer " ++ token))) members ≡ some token
  enrolled_chats random client req token said =
      let (pk, e) = granted-IsEnrolled x jwt sha256 lowercase state random client req token said in
      let entry = entry_for x jwt sha256 lowercase state random pk e.claims.sub e.tx in
      live_bearer-sent backend token _
        (rw (e.stored, e.minted) (contains_token-insert entry state.members))

  -- A device whose credentials verify, whose transaction names the subject and whose point the
  -- manifest lists with the member's hash gets a bearer, whatever the store holds; and sent back
  -- behind `Bearer `, that bearer passes the check of the chat on the store that the enrolment leaves.
  pub entitled_chats :
      (random : Bytes) (pk : Pubkey) (req : EnrollRequest)
      → IsEntitled x jwt sha256 lowercase state pk req
      → let (members, answer) =
          instance_lib.Enroll.handler x jwt sha256 lowercase state random (some pk) req in
        (answer ≡ json (b64url_nopad random))
        × (live_bearer backend (bearer (some (codes "Bearer " ++ b64url_nopad random))) members
            ≡ some (b64url_nopad random))
  entitled_chats random pk req i =
      let said = entitled-answer x jwt sha256 lowercase state random pk req i in
      (said, enrolled_chats random (some pk) req (b64url_nopad random) said)

module _ (deps : ManageDeps) (complete : IsIteration deps.iter) (action : ManageAction)
    (hash : Bytes) (g : Inner) (c : IsConsistent g) (name : action.action ≡ codes "revoke")
    (given : hash_of action.member_hash ≡ some hash)
    (new : any (bytes_eq action.nonce) g.seen_nonces ≡ false) where
  revoked_tokens :
      (pk : Pubkey) (m : Member)
      → lookup pk g.by_pubkey ≡ some m
      → m.member_hash ≡ hash
      → ((j : Pubkey) (n : Member) → lookup j g.by_pubkey ≡ some n → n.member_hash ≡ hash → j ≡ pk)
      → (token : Bytes) → lookup token g.by_token ≡ some pk
      → lookup token (run_action deps action g).0.by_token ≡ none
  revoked_tokens pk m held is_it only token live =
      let same = note_nonce-SameMembers action.nonce g in
      elim (run_action_revoke deps complete action hash g c name given new) [
        | inl (said, kept, unknown) ↦ absurd (unknown pk m (rw same.pubkeys held) is_it)
        | inr (said, (j, n, held', is_it', dropped)) ↦
            let e = only j n (rw same.pubkeys at held') is_it' in
            dropped.silenced token (rw (same.tokens, e) live)
      ]

  -- Where the iteration of the map hands out its entries and no others: on a consistent store on which
  -- one member has the hash, a revoke of that hash with a new nonce shuts the member out. A request
  -- with any of the bearers that the member held is answered with 401, whatever the backend would say.
  pub revoked_unauthorized :
      (pk : Pubkey) (m : Member)
      → lookup pk g.by_pubkey ≡ some m
      → m.member_hash ≡ hash
      → ((j : Pubkey) (n : Member) → lookup j g.by_pubkey ≡ some n → n.member_hash ≡ hash → j ≡ pk)
      → (token : Bytes) → lookup token g.by_token ≡ some pk
      → (backend : Backend) (body : Bytes)
      → handler backend (some (codes "Bearer " ++ token)) body (run_action deps action g).0
        ≡ err 401 (codes "invalid bearer")
  unfolding contains_token
  revoked_unauthorized pk m held is_it only token live backend body =
      handler_unauthorized backend (some (codes "Bearer " ++ token)) body
        (run_action deps action g).0
        (λ t e.
          let same : token ≡ t = cc in
          rw (← same, revoked_tokens pk m held is_it only token live) refl)
