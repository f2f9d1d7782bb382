-- ===== src/State/Frame.antt =====
-- What the operations leave alone: the replay guard and the rate limiter touch no member.
use instance_lib.Prelude.{
  arith, none, bytes_eq_refl, refl, inr, false, inl, true, Option-cases, leb, some, bytes_eq, not,
  Option, Bool-cases, any, Bytes, ◌≡◌, ℕ,
}
use instance_lib.Prelude.Map.{Map, lookup}
use instance_lib.State.{
  Inner, Member, Pubkey, sessions, note_nonce, allow_attestation, refilled, bucket_or_full,
  drop_member, revoke_by_member_hash, find_hash, whole_token,
}
use instance_lib.State.Invariant.{IsConsistent}

-- The same members with the same bearers.
pub record SameMembers (g g' : Inner) : Type 0 where
  pub pubkeys : g'.by_pubkey ≡ g.by_pubkey
  pub tokens : g'.by_token ≡ g.by_token

pub SameMembers-IsConsistent : (g g' : Inner) → SameMembers g g' → IsConsistent g → IsConsistent g'
unfolding sessions
SameMembers-IsConsistent g g' s c = record {
  distinct = rw s.pubkeys c.distinct;
  bounded = λ pk. rw s.pubkeys (c.bounded pk);
  unique = λ pk. rw s.pubkeys (c.unique pk);
  owned = λ pk t h. let h' = rw s.pubkeys at h in rw s.tokens (c.owned pk t h');
  indexed = λ pk t h. let h' = rw s.tokens at h in rw s.pubkeys (c.indexed pk t h');
}

pub note_nonce-SameMembers : (nonce : Bytes) (g : Inner) → SameMembers g (note_nonce nonce g).0
unfolding note_nonce
note_nonce-SameMembers nonce g = elim (Bool-cases (any (bytes_eq nonce) g.seen_nonces)) [
  | inl e ↦ rw (e, note_nonce) (record { pubkeys = refl; tokens = refl })
  | inr e ↦ rw (e, note_nonce) (record { pubkeys = refl; tokens = refl })
]

pub allow_attestation-SameMembers :
    (pk : Pubkey) (now : ℕ) (g : Inner) → SameMembers g (allow_attestation pk now g).0
unfolding allow_attestation
allow_attestation-SameMembers pk now g =
    elim (Bool-cases
      (leb whole_token (refilled (bucket_or_full (lookup pk g.attest_buckets) now) now))) [
        | inl e ↦ rw (e, allow_attestation) (record { pubkeys = refl; tokens = refl })
        | inr e ↦ rw (e, allow_attestation) (record { pubkeys = refl; tokens = refl })
      ]

-- The replay guard answers `true` exactly for a nonce that it has not seen, and has seen it then.
pub note_nonce_lem :
    (nonce : Bytes) (g : Inner)
    → ((note_nonce nonce g).1 ≡ not (any (bytes_eq nonce) g.seen_nonces))
      × (any (bytes_eq nonce) (note_nonce nonce g).0.seen_nonces ≡ true)
unfolding note_nonce
note_nonce_lem nonce g = elim (Bool-cases (any (bytes_eq nonce) g.seen_nonces)) [
  | inl e ↦ rw (e, note_nonce) (refl, e)
  | inr e ↦ rw (e, note_nonce) (refl, rw (bytes_eq_refl nonce))
]

pub note_nonce_seen :
    (nonce : Bytes) (g : Inner)
    → any (bytes_eq nonce) g.seen_nonces ≡ true
    → note_nonce nonce g ≡ (g, false)
unfolding note_nonce
note_nonce_seen nonce g e = rw e

-- A revoke forgets no nonce.
pub seen-revoke :
    (iter : Map Member → Map Member) (hash : Bytes) (g : Inner)
    → (revoke_by_member_hash iter hash g).0.seen_nonces ≡ g.seen_nonces
unfolding revoke_by_member_hash
seen-revoke iter hash g = elim (Option-cases (find_hash hash (iter g.by_pubkey))) [
  | inl e ↦ rw (e, revoke_by_member_hash)
  | inr (pk, e) ↦ rw (e, revoke_by_member_hash) (kept pk (lookup pk g.by_pubkey))
]
  where
    kept : (pk : Pubkey) (o : Option Member) → (drop_member pk o g).seen_nonces ≡ g.seen_nonces
    kept pk none = refl
    kept pk (some m) = refl

-- A nonce that was seen stays seen.
pub seen-note_nonce_stays :
    (nonce j : Bytes) (g : Inner)
    → any (bytes_eq j) g.seen_nonces ≡ true
    → any (bytes_eq j) (note_nonce nonce g).0.seen_nonces ≡ true
unfolding note_nonce
seen-note_nonce_stays nonce j g h = ground arith
