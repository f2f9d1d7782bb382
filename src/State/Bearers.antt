-- ===== src/State/Bearers.antt =====
-- Who is behind a bearer, and which bearers an enrolment leaves alive.
use instance_lib.Prelude.Map.{lookup}
use mathlib.Core.List.{head?}
use instance_lib.Prelude.{
  refl, any, bytes_eq_iff, bytes_eq, ap, Bool-cases, inr, arith, ◌++◌, any_eq_iff_In, inl, ◌≤◌, In,
  Option-cases, ◌⊎◌, length, none, ◌↔◌, List, true, some, [], ◌∷◌, ◌≡◌, Bytes,
}
use instance_lib.State.{
  Inner, MemberEntry, Member, Pubkey, device_cap, evict, sessions, pushed, insert, session_count,
  contains_token, get_by_token,
}
use instance_lib.State.Insert.{lookup_token-insert}
use instance_lib.State.Invariant.{IsConsistent}

pub contains_token_iff :
    (t : Bytes) (g : Inner)
    → (contains_token t g ≡ true) ↔ ((pk : Pubkey) × (lookup t g.by_token ≡ some pk))
unfolding contains_token
contains_token_iff t g = elim (Option-cases (lookup t g.by_token)) [
  | inl e ↦ rw e (λ h. cc, λ (pk, h). cc)
  | inr (pk, e) ↦ rw e (λ h. (pk, refl), λ h. refl)
]

-- The one session list that a full pubkey loses a bearer from: its oldest.
abbrev pub IsOldestOfFull : Bytes → Pubkey → Inner → Type 0
IsOldestOfFull t pk g = (session_count pk g ≡ device_cap) × (head? (sessions pk g) ≡ some t)

evicted_iff :
    (ss : List Bytes) (new t : Bytes)
    → length ss ≤ device_cap
    → In t (evict (ss ++ new ∷ [])).0 ↔ ((length ss ≡ device_cap) × (head? ss ≡ some t))
unfolding evict
evicted_iff [] new t h = ((λ k. absurd k), λ e. cc (e.1))
evicted_iff (a ∷ []) new t h = ((λ k. absurd k), λ e. absurd (omega arith))
evicted_iff (a ∷ b ∷ []) new t h = ((λ k. absurd k), λ e. absurd (omega arith))
evicted_iff (a ∷ b ∷ c ∷ []) new t h =
    (λ k. elim k [ inl e ↦ (refl, ap some e) | inr k ↦ absurd k ], λ e. inl (cc (e.1)))
evicted_iff (a ∷ b ∷ c ∷ d ∷ ss) new t h = absurd (omega arith)

-- The bearers that are live after an insertion into a consistent store whose index does not hold
-- the new bearer: the new one, and every old one but the oldest of the entry's pubkey where that
-- pubkey already held `DEVICE_CAP`.
pub insert_bearers :
    (entry : MemberEntry) (g : Inner) (t : Bytes)
    → IsConsistent g
    → lookup entry.session_token g.by_token ≡ none
    → (contains_token t (insert entry g).0 ≡ true) ↔ (
        (entry.session_token ≡ t)
        ⊎ ((contains_token t g ≡ true) × ¬ IsOldestOfFull t entry.client_pubkey g))
unfolding contains_token pushed session_count
insert_bearers entry g t c fresh =
    let out =
      evicted_iff (sessions entry.client_pubkey g) entry.session_token t
        (c.bounded entry.client_pubkey) in
    let known = any_eq_iff_In t (evict (pushed entry g)).0 in
    elim (Bool-cases (bytes_eq entry.session_token t)) [
      | inl new ↦ (
        λ h. inl ((bytes_eq_iff entry.session_token t).0 new),
        λ h. rw (lookup_token-insert entry g t, new),
      )
      | inr old ↦ elim (Bool-cases (any (λ s. bytes_eq s t) (evict (pushed entry g)).0)) [
        | inl gone ↦ (
          λ h. absurd (cc (rw (lookup_token-insert entry g t, old, gone) at h)),
          λ h. elim h [
            | inl e ↦ absurd (cc ((bytes_eq_iff entry.session_token t).1 e))
            | inr (held, ne) ↦ absurd (ne (out.0 (known.0 gone)))
          ],
        )
        | inr stays ↦ (
          λ h. inr (
            rw (lookup_token-insert entry g t, old, stays) at h,
            λ full. cc (known.1 (out.1 full)),
          ),
          λ h. elim h [
            | inl e ↦ absurd (cc ((bytes_eq_iff entry.session_token t).1 e))
            | inr (held, ne) ↦ rw (lookup_token-insert entry g t, old, stays) held
          ],
        )
      ]
    ]

-- On a consistent store `get_by_token` finds an entry exactly for the live bearers, and names the
-- holder: the pubkey that has the bearer among its sessions, with that member's hash and
-- transaction id.
pub get_by_token_iff :
    (t : Bytes) (g : Inner) (e : MemberEntry)
    → IsConsistent g
    → (get_by_token t g ≡ some e) ↔ (
        (m : Member) × (lookup e.client_pubkey g.by_pubkey ≡ some m)
        × In t m.sessions
        × (e.session_token ≡ t)
        × (e.member_hash ≡ m.member_hash)
        × (e.original_tx_id ≡ m.original_tx_id))
unfolding get_by_token sessions
get_by_token_iff t g e c = (
  λ h. elim (Option-cases (lookup t g.by_token)) [
    | inl missing ↦ absurd (cc (rw (missing, get_by_token) at h))
    | inr (pk, owner) ↦ elim (Option-cases (lookup pk g.by_pubkey)) [
      | inl missing ↦ absurd (ground arith)
      | inr (m, held) ↦
          let k = c.indexed pk t owner in
          (m, ground arith, (rw held at k), ground arith, ground arith, ground arith)
    ]
  ],
  λ (m, held, k, same, hash, tx).
      let k' : In t (sessions e.client_pubkey g) = rw held k in
      ground (arith, c.owned e.client_pubkey t k'),
)
