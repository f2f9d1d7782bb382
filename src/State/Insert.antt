-- ===== src/State/Insert.antt =====
-- What `MemberStore::insert` changes, as equations of lookups.
use instance_lib.Prelude.{
  false, inr, bytes_eq_iff, inl, Bool-cases, ◌≢◌, ◌≡◌, none, some, any, arith, Bytes, bytes_eq,
  if◌then◌else◌,
}
use instance_lib.Prelude.Map.{lookup, lookup-insert}
use instance_lib.State.{Inner, MemberEntry, Pubkey, evict, remove_all, sessions, pushed, insert}
use instance_lib.State.Sessions.{lookup-remove_all}

module _ (entry : MemberEntry) (g : Inner) where
  -- The sessions of every pubkey.
  pub sessions-insert :
      (pk : Pubkey)
      → sessions pk (insert entry g).0
        ≡ (if bytes_eq entry.client_pubkey pk then (evict (pushed entry g)).1 else sessions pk g)
  unfolding insert sessions
  sessions-insert pk = ground (
    arith,
    lookup-insert pk entry.client_pubkey
        (record {
          member_hash = entry.member_hash;
          original_tx_id = entry.original_tx_id;
          sessions = (evict (pushed entry g)).1;
        })
        g.by_pubkey,
  )

  pub lookup_token-insert :
      (t : Bytes)
      → lookup t (insert entry g).0.by_token ≡ (
          if bytes_eq entry.session_token t
          then some entry.client_pubkey
          else if any (λ s. bytes_eq s t) (evict (pushed entry g)).0
          then none
          else lookup t g.by_token)
  unfolding insert
  lookup_token-insert t = ground (
    arith,
    lookup-insert t entry.session_token entry.client_pubkey
        (remove_all (evict (pushed entry g)).0 g.by_token),
    lookup-remove_all t (evict (pushed entry g)).0 g.by_token,
  )

  -- The member of every pubkey: the enrolling one carries the entry's identity.
  pub lookup_member-insert :
      (pk : Pubkey)
      → lookup pk (insert entry g).0.by_pubkey ≡ (
          if bytes_eq entry.client_pubkey pk
          then some (record {
            member_hash = entry.member_hash;
            original_tx_id = entry.original_tx_id;
            sessions = (evict (pushed entry g)).1;
          })
          else lookup pk g.by_pubkey)
  unfolding insert
  lookup_member-insert pk = lookup-insert pk entry.client_pubkey _ g.by_pubkey

-- An insertion mints no other bearer than its own.
pub insert_stays_dead :
    (entry : MemberEntry) (g : Inner) (t : Bytes)
    → entry.session_token ≢ t
    → lookup t g.by_token ≡ none
    → lookup t (insert entry g).0.by_token ≡ none
insert_stays_dead entry g t other dead =
    elim (Bool-cases (any (λ s. bytes_eq s t) (evict (pushed entry g)).0)) [
      | inl e ↦ ground (arith, lookup_token-insert entry g t, bytes_eq_iff entry.session_token t)
      | inr e ↦ ground (arith, lookup_token-insert entry g t, bytes_eq_iff entry.session_token t)
    ]

-- An insertion changes the owner of no other bearer than its own.
pub insert_owner :
    (entry : MemberEntry) (g : Inner) (t : Bytes) (pk : Pubkey)
    → entry.session_token ≢ t
    → lookup t (insert entry g).0.by_token ≡ some pk
    → lookup t g.by_token ≡ some pk
insert_owner entry g t pk other held =
    let old : bytes_eq entry.session_token t ≡ false =
      elim (Bool-cases (bytes_eq entry.session_token t)) [
        | inl e ↦ absurd (other ((bytes_eq_iff entry.session_token t).0 e))
        | inr e ↦ e
      ] in
    elim (Bool-cases (any (λ s. bytes_eq s t) (evict (pushed entry g)).0)) [
      | inl gone ↦ absurd (cc (rw (lookup_token-insert entry g t, old, gone) at held))
      | inr stays ↦ rw (lookup_token-insert entry g t, old, stays) at held
    ]
