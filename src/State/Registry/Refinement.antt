-- ===== src/State/Registry/Refinement.antt =====
-- The operations of the store, against the registry.
use mathlib.Core.Path.{fun_ext}
use instance_lib.Prelude.{
  Option-cases, some, In, leb, [], ◌-◌, arith, inr, refl, suc, true, ap, bytes_eq_iff, ◌∙◌, length,
  if◌then◌else◌, ltb, inl, Bool-cases, bytes_eq, ◌∷◌, any, ℕ, Bytes, List, ◌≡◌, none,
}
use instance_lib.Prelude.Map.{Map, lookup, lookup-insert}
use instance_lib.State.{
  contains_token, session_count, whole_token, Inner, MemberEntry, MemberHash, Member, Pubkey, evict,
  insert, revoke_by_member_hash, note_nonce, allow_attestation, get_by_token, sessions, pushed,
  device_cap,
}
use instance_lib.State.Insert.{lookup_member-insert}
use instance_lib.State.Invariant.{IsConsistent}
use instance_lib.State.Revoke.{IsIteration, IsDropped, revoke_lem}
use instance_lib.State.Bearers.{contains_token_iff, get_by_token_iff}
use instance_lib.State.Frame.{note_nonce-SameMembers, note_nonce_lem}
use instance_lib.State.Registry.{
  number, count_op, live_op, amount, holder, token_op, nonce_op, insert_op, attest_op, revoke_op,
  flag, Registry, Allows, newest, update,
}

-- What the registry sees of a store.
abbrev pub view : Inner → Registry
view g = record {
  members = λ pk. lookup pk g.by_pubkey;
  spent = λ n. any (bytes_eq n) g.seen_nonces;
  allowance = λ pk. lookup pk g.attest_buckets;
}

Registry-ext :
    (r r' : Registry)
    → r.members ≡ r'.members
    → r.spent ≡ r'.spent
    → r.allowance ≡ r'.allowance
    → r ≡ r'
Registry-ext r r' m s a = λ i. record { members = m i; spent = s i; allowance = a i }

evict-newest : (ss : List Bytes) → (evict ss).1 ≡ newest device_cap ss
unfolding evict
evict-newest [] = refl
evict-newest (s ∷ ss) = elim (Bool-cases (ltb 3 (length (s ∷ ss)))) [
  | inl over ↦
      let one_more : suc (length ss) - 3 ≡ suc (length ss - 3) = ground arith in
      rw (over, one_more) (evict-newest ss)
  | inr within ↦ let nothing : suc (length ss) - 3 ≡ 0 = ground arith in rw (within, nothing)
]

pub view-insert :
    (entry : MemberEntry) (g : Inner)
    → Allows (view g) (insert_op entry) (flag (insert entry g).1) (view (insert entry g).0)
unfolding insert pushed sessions
view-insert entry g = (
  refl,
  Registry-ext _ _
      (fun_ext λ pk. lookup_member-insert entry g pk ∙ rw (evict-newest (pushed entry g))) refl
      refl,
)

dropped_members :
    (pk : Pubkey) (g g' : Inner)
    → IsDropped pk g g'
    → (λ j. lookup j g'.by_pubkey) ≡ update pk none (λ j. lookup j g.by_pubkey)
dropped_members pk g g' d = fun_ext λ j. elim (Bool-cases (bytes_eq pk j)) [
  | inl same ↦ rw (same, ← (bytes_eq_iff pk j).0 same) d.identity
  | inr apart ↦ rw apart (d.other_members j (λ e. cc ((bytes_eq_iff pk j).1 e)))
]

pub view-revoke :
    (iter : Map Member → Map Member) (hash : MemberHash) (g : Inner)
    → IsIteration iter
    → IsConsistent g
    → Allows
        (view g)
        (revoke_op hash)
        (flag (revoke_by_member_hash iter hash g).1)
        (view (revoke_by_member_hash iter hash g).0)
view-revoke iter hash g complete c = elim (revoke_lem iter complete hash g c) [
  | inl (said, same, unknown) ↦ inl (ap flag said, ap view same, unknown)
  | inr (said, (pk, m, held, is_it, d)) ↦ inr (
    ap flag said,
    (
      pk,
      m,
      held,
      is_it,
      Registry-ext _ _ (dropped_members pk g _ d) (ap (λ ns n. any (bytes_eq n) ns) d.nonces)
          (ap (λ bs j. lookup j bs) d.buckets),
    ),
  )
]

spent-note_nonce :
    (nonce : Bytes) (g : Inner) (j : Bytes)
    → any (bytes_eq j) (note_nonce nonce g).0.seen_nonces
      ≡ (if bytes_eq nonce j then true else any (bytes_eq j) g.seen_nonces)
unfolding note_nonce
spent-note_nonce nonce g j = elim (Bool-cases (any (bytes_eq nonce) g.seen_nonces)) [
  | inl old ↦ ground (arith, bytes_eq_iff nonce j)
  | inr new ↦ ground (arith, bytes_eq_iff nonce j, bytes_eq_iff j nonce)
]

buckets-note_nonce :
    (nonce : Bytes) (g : Inner) → (note_nonce nonce g).0.attest_buckets ≡ g.attest_buckets
unfolding note_nonce
buckets-note_nonce nonce g = elim (Bool-cases (any (bytes_eq nonce) g.seen_nonces)) [
  | inl e ↦ rw e
  | inr e ↦ rw e
]

pub view-note_nonce :
    (nonce : Bytes) (g : Inner)
    → Allows (view g) (nonce_op nonce) (flag (note_nonce nonce g).1) (view (note_nonce nonce g).0)
unfolding note_nonce
view-note_nonce nonce g = (
  ap flag (note_nonce_lem nonce g).0,
  Registry-ext _ _ (ap (λ ms pk. lookup pk ms) (note_nonce-SameMembers nonce g).pubkeys)
      (fun_ext (spent-note_nonce nonce g))
      (ap (λ bs pk. lookup pk bs) (buckets-note_nonce nonce g)),
)

pub view-allow_attestation :
    (pk : Pubkey) (now : ℕ) (g : Inner)
    → Allows
        (view g)
        (attest_op pk now)
        (flag (allow_attestation pk now g).1)
        (view (allow_attestation pk now g).0)
unfolding allow_attestation
view-allow_attestation pk now g = elim (Bool-cases (leb whole_token (amount (view g) pk now))) [
  | inl e ↦
      rw (e, allow_attestation)
        (refl, Registry-ext _ _ refl refl (fun_ext λ j. lookup-insert j pk _ g.attest_buckets))
  | inr e ↦
      rw (e, allow_attestation)
        (refl, Registry-ext _ _ refl refl (fun_ext λ j. lookup-insert j pk _ g.attest_buckets))
]

pub view-get_by_token :
    (t : Bytes) (g : Inner)
    → IsConsistent g
    → Allows (view g) (token_op t) (holder (get_by_token t g)) (view g)
view-get_by_token t g c = (refl, (get_by_token t g, refl, λ e. get_by_token_iff t g e c))

-- A pubkey with a bearer has a member.
member_of_session :
    (pk : Pubkey) (t : Bytes) (g : Inner)
    → In t (sessions pk g)
    → (m : Member) × (lookup pk g.by_pubkey ≡ some m) × In t m.sessions
unfolding sessions
member_of_session pk t g h = elim (Option-cases (lookup pk g.by_pubkey)) [
  | inl e ↦ absurd (rw e at h)
  | inr (m, e) ↦ (m, e, (rw e at h))
]

pub view-contains_token :
    (t : Bytes) (g : Inner)
    → IsConsistent g
    → Allows (view g) (live_op t) (flag (contains_token t g)) (view g)
unfolding sessions
view-contains_token t g c = (
  refl,
  (
    contains_token t g,
    refl,
    (
      λ live.
          let (pk, owner) = (contains_token_iff t g).0 live in
          let (m, held, k) = member_of_session pk t g (c.indexed pk t owner) in
          (
            record {
              client_pubkey = pk;
              member_hash = m.member_hash;
              session_token = t;
              original_tx_id = m.original_tx_id;
            },
            (m, held, k, refl, refl, refl),
          ),
      λ (e, (m, held, k, same, hash, tx)).
          (contains_token_iff t g).1 (e.client_pubkey, c.owned e.client_pubkey t (rw held k)),
    ),
  ),
)

pub view-session_count :
    (pk : Pubkey) (g : Inner) → Allows (view g) (count_op pk) (number (session_count pk g)) (view g)
unfolding session_count sessions
view-session_count pk g = (refl, refl)
