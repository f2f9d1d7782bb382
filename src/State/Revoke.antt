-- ===== src/State/Revoke.antt =====
-- What `MemberStore::revoke_by_member_hash` removes.
use instance_lib.Prelude.{
  ◌≡◌, refl, ◌∙◌, ◌↔◌, ◌⊎◌, ◌≢◌, inl, inr, none, some, true, false, [], ◌∷◌, any, arith, Bytes,
  bytes_eq, bytes_eq_iff, if◌then◌else◌, Bool-cases, Option-cases, In, any_eq_iff_In, bytes_eq_refl,
}
use instance_lib.Prelude.Map.{Map, lookup, remove-Distinct, lookup-remove, lookup→In, In→lookup}
use instance_lib.State.{
  Inner, Member, MemberHash, Pubkey, remove_all, sessions, find_hash, revoke_by_member_hash,
  drop_member,
}
use instance_lib.State.Sessions.{lookup-remove_all-In, lookup-remove_all_apart, lookup-remove_all}
use instance_lib.State.Invariant.{IsConsistent}

pub find_hash→In :
    (hash : MemberHash) (entries : Map Member) {pk : Pubkey}
    → find_hash hash entries ≡ some pk
    → (m : Member) × In (pk, m) entries × (m.member_hash ≡ hash)
unfolding find_hash
find_hash→In hash [] h = absurd (cc)
find_hash→In hash ((k, m) ∷ rest) h = elim (Bool-cases (bytes_eq m.member_hash hash)) [
  | inl hit ↦ (m, inl (ground arith), (bytes_eq_iff m.member_hash hash).0 hit)
  | inr miss ↦ let (m', held, e) = find_hash→In hash rest (rw miss at h) in (m', inr held, e)
]

pub find_hash-none :
    (hash : MemberHash) (entries : Map Member) (pk : Pubkey) (m : Member)
    → find_hash hash entries ≡ none
    → In (pk, m) entries
    → m.member_hash ≢ hash
unfolding find_hash
find_hash-none hash [] pk m h held = absurd held
find_hash-none hash ((k, n) ∷ rest) pk m h (inl e) =
    ground (arith, bytes_eq_iff n.member_hash hash, e)
find_hash-none hash ((k, n) ∷ rest) pk m h (inr held) =
    find_hash-none hash rest pk m (ground arith) held

-- An iteration hands out every entry and no other.
abbrev pub IsIteration : (Map Member → Map Member) → Type 0
IsIteration iter = (entries : Map Member) (e : Pubkey × Member) → In e (iter entries) ↔ In e entries

-- The store after the member of `pk` is dropped: its bearers are gone, all else is as it was.
pub record IsDropped (pk : Pubkey) (g g' : Inner) : Type 0 where
  pub identity : lookup pk g'.by_pubkey ≡ none
  pub silenced : (t : Bytes) → lookup t g.by_token ≡ some pk → lookup t g'.by_token ≡ none
  pub others :
      (t : Bytes) → lookup t g.by_token ≢ some pk → lookup t g'.by_token ≡ lookup t g.by_token
  pub other_members : (j : Pubkey) → pk ≢ j → lookup j g'.by_pubkey ≡ lookup j g.by_pubkey
  pub nonces : g'.seen_nonces ≡ g.seen_nonces
  pub buckets : g'.attest_buckets ≡ g.attest_buckets

module _ (g : Inner) (c : IsConsistent g) (pk : Pubkey) (m : Member)
    (held : lookup pk g.by_pubkey ≡ some m) where
  held_sessions : sessions pk g ≡ m.sessions
  unfolding sessions
  held_sessions = rw held

  drop_member-IsDropped : IsDropped pk g (drop_member pk (some m) g)
  drop_member-IsDropped = record {
    identity = rw (lookup-remove pk pk g.by_pubkey, bytes_eq_refl pk);
    silenced = λ t e.
        lookup-remove_all-In t m.sessions g.by_token (rw held_sessions at (c.indexed pk t e));
    others = λ t ne.
        lookup-remove_all_apart t m.sessions g.by_token
          (λ k. ne (c.owned pk t (rw held_sessions k)));
    other_members = λ j ne. ground (arith, lookup-remove j pk g.by_pubkey, bytes_eq_iff pk j);
    nonces = refl;
    buckets = refl;
  }

  sessions-drop_member :
      (j : Pubkey)
      → sessions j (drop_member pk (some m) g) ≡ (if bytes_eq pk j then [] else sessions j g)
  unfolding sessions
  sessions-drop_member j = ground (arith, lookup-remove j pk g.by_pubkey)

  stays_owned :
      (j : Pubkey) (t : Bytes)
      → bytes_eq pk j ≡ false
      → In t (sessions j g)
      → lookup t (drop_member pk (some m) g).by_token ≡ some j
  stays_owned j t other k =
      let owner = c.owned j t k in
      drop_member-IsDropped.others t (λ e. ground (arith, bytes_eq_iff pk j)) ∙ owner

  stays_indexed :
      (j : Pubkey) (t : Bytes)
      → lookup t (remove_all m.sessions g.by_token) ≡ some j
      → In t (sessions j (drop_member pk (some m) g))
  stays_indexed j t h = elim (Bool-cases (any (λ s. bytes_eq s t) m.sessions)) [
    | inl gone ↦ absurd (ground (arith, lookup-remove_all t m.sessions g.by_token))
    | inr stays ↦
        let owner : lookup t g.by_token ≡ some j =
          ground (arith, lookup-remove_all t m.sessions g.by_token) in
        elim (Bool-cases (bytes_eq pk j)) [
          | inl same ↦
              let e : lookup t g.by_token ≡ some pk = ground (arith, bytes_eq_iff pk j) in
              let k = (any_eq_iff_In t m.sessions).1 (rw held_sessions at (c.indexed pk t e)) in
              absurd (cc)
          | inr other ↦ rw (sessions-drop_member j, other) (c.indexed j t owner)
        ]
  ]

  drop_member-IsConsistent : IsConsistent (drop_member pk (some m) g)
  drop_member-IsConsistent = record {
    distinct = remove-Distinct pk g.by_pubkey c.distinct;
    bounded = λ j. ground (arith, sessions-drop_member j, c.bounded j);
    unique = λ j. elim (Bool-cases (bytes_eq pk j)) [
      | inl same ↦ rw (sessions-drop_member j, same) tt
      | inr other ↦ rw (sessions-drop_member j, other) (c.unique j)
    ];
    owned = λ j t h. elim (Bool-cases (bytes_eq pk j)) [
      | inl same ↦ absurd (rw (sessions-drop_member j, same) at h)
      | inr other ↦ stays_owned j t other (rw (sessions-drop_member j, other) at h)
    ];
    indexed = stays_indexed;
  }

-- No member has the hash.
abbrev pub IsUnknown : MemberHash → Inner → Type 0
IsUnknown hash g =
    (pk : Pubkey) (m : Member) → lookup pk g.by_pubkey ≡ some m → m.member_hash ≢ hash

-- Some member with the hash was dropped.
abbrev pub IsRevoked : MemberHash → Inner → Inner → Type 0
IsRevoked hash g g' =
    (pk : Pubkey) × (m : Member) × (lookup pk g.by_pubkey ≡ some m)
    × (m.member_hash ≡ hash)
    × IsDropped pk g g'

module _ (iter : Map Member → Map Member) (complete : IsIteration iter) (hash : MemberHash)
    (g : Inner) (c : IsConsistent g) where
  revoke_found :
      (pk : Pubkey)
      → find_hash hash (iter g.by_pubkey) ≡ some pk
      → (m : Member) × (lookup pk g.by_pubkey ≡ some m) × (m.member_hash ≡ hash)
  revoke_found pk e =
      let (m, k, same) = find_hash→In hash (iter g.by_pubkey) e in
      (m, In→lookup pk m g.by_pubkey c.distinct ((complete g.by_pubkey (pk, m)).0 k), same)

  -- On a consistent store, whatever order the map is iterated in: a revoke answers `false`, and
  -- changes nothing, exactly when no member has the hash; otherwise it answers `true` and drops one
  -- member that has it, with every bearer that the member holds.
  pub revoke_lem :
      let (g', revoked) = revoke_by_member_hash iter hash g in
      ((revoked ≡ false) × (g' ≡ g) × IsUnknown hash g) ⊎ ((revoked ≡ true) × IsRevoked hash g g')
  unfolding revoke_by_member_hash
  revoke_lem = elim (Option-cases (find_hash hash (iter g.by_pubkey))) [
    | inl e ↦ inl (
      rw (e, revoke_by_member_hash),
      rw (e, revoke_by_member_hash),
      λ pk m held.
          find_hash-none hash (iter g.by_pubkey) pk m e
            ((complete g.by_pubkey (pk, m)).1 (lookup→In pk m g.by_pubkey held)),
    )
    | inr (pk, e) ↦
        let (m, held, same) = revoke_found pk e in
        inr (
          rw (e, revoke_by_member_hash),
          (
            pk,
            m,
            held,
            same,
            rw (e, held, revoke_by_member_hash) (drop_member-IsDropped g c pk m held),
          ),
        )
  ]

  -- A consistent store is consistent after a revoke, whatever the hash and whatever order the map
  -- is iterated in.
  pub revoke-IsConsistent : IsConsistent (revoke_by_member_hash iter hash g).0
  unfolding revoke_by_member_hash
  revoke-IsConsistent = elim (Option-cases (find_hash hash (iter g.by_pubkey))) [
    | inl e ↦ rw (e, revoke_by_member_hash) c
    | inr (pk, e) ↦
        let (m, held, same) = revoke_found pk e in
        rw (e, held, revoke_by_member_hash) (drop_member-IsConsistent g c pk m held)
  ]
