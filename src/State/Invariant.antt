-- ===== src/State/Invariant.antt =====
-- The two maps of the store, and the invariant that ties them.
use instance_lib.Prelude.{
  ◌≤◌, ◌≡◌, ◌⊎◌, inl, inr, none, some, false, [], ◌∷◌, ◌++◌, any, arith, length, Bytes, bytes_eq,
  bytes_eq_iff, if◌then◌else◌, Bool-cases, In, Nodup, Nodup-snoc, Nodup-append_right, Nodup-apart,
  In-append, In-append_left, In-append_right, any_eq_iff_In,
}
use instance_lib.Prelude.Map.{lookup, Distinct, insert-Distinct}
use instance_lib.State.{
  Inner, MemberEntry, Pubkey, device_cap, evict, sessions, pushed, insert, empty_store,
}
use instance_lib.State.Sessions.{evict-append, evict-length, evict-last}
use instance_lib.State.Insert.{sessions-insert, lookup_token-insert}

-- One member for a pubkey, at most `DEVICE_CAP` bearers for each, none twice, and an index that
-- names a pubkey for a bearer exactly where the pubkey's list has it.
pub record IsConsistent (g : Inner) : Type 0 where
  pub distinct : Distinct g.by_pubkey
  pub bounded : (pk : Pubkey) → length (sessions pk g) ≤ device_cap
  pub unique : (pk : Pubkey) → Nodup (sessions pk g)
  pub owned : (pk : Pubkey) (t : Bytes) → In t (sessions pk g) → lookup t g.by_token ≡ some pk
  pub indexed : (pk : Pubkey) (t : Bytes) → lookup t g.by_token ≡ some pk → In t (sessions pk g)

pub empty_store-IsConsistent : IsConsistent empty_store
unfolding sessions lookup
empty_store-IsConsistent = record {
  distinct = tt;
  bounded = λ pk. omega arith;
  unique = λ pk. tt;
  owned = λ pk t h. absurd h;
  indexed = λ pk t h. cc;
}

-- A new bearer that no device holds yet, as 256 random bits are.
module _ (entry : MemberEntry) (g : Inner) (c : IsConsistent g)
    (fresh : lookup entry.session_token g.by_token ≡ none) where
  not_held : (pk : Pubkey) → ¬ In entry.session_token (sessions pk g)
  not_held pk h = cc (c.owned pk entry.session_token h)

  pushed-Nodup : Nodup (pushed entry g)
  unfolding pushed
  pushed-Nodup =
      Nodup-snoc entry.session_token (sessions entry.client_pubkey g) (c.unique entry.client_pubkey)
        (not_held entry.client_pubkey)

  split-Nodup : Nodup ((evict (pushed entry g)).0 ++ (evict (pushed entry g)).1)
  split-Nodup = rw (evict-append (pushed entry g)) pushed-Nodup

  -- What was pushed is the new bearer or one that the pubkey held.
  pushed-cases :
      (t : Bytes)
      → In t (pushed entry g)
      → In t (sessions entry.client_pubkey g) ⊎ (entry.session_token ≡ t)
  unfolding pushed
  pushed-cases t h =
      elim (In-append t (sessions entry.client_pubkey g) (entry.session_token ∷ []) h) [
        | inl k ↦ inl k
        | inr k ↦ elim k [ inl e ↦ inr e | inr k ↦ absurd k ]
      ]

  kept→pushed : (t : Bytes) → In t (evict (pushed entry g)).1 → In t (pushed entry g)
  kept→pushed t h =
      let k = In-append_right t (evict (pushed entry g)).0 (evict (pushed entry g)).1 h in
      rw (evict-append (pushed entry g)) at k

  evicted→pushed : (t : Bytes) → In t (evict (pushed entry g)).0 → In t (pushed entry g)
  evicted→pushed t h =
      let k = In-append_left t (evict (pushed entry g)).0 (evict (pushed entry g)).1 h in
      rw (evict-append (pushed entry g)) at k

  -- An evicted bearer belonged to the entry's pubkey.
  evicted-owned :
      (t : Bytes)
      → In t (evict (pushed entry g)).0
      → (lookup t g.by_token ≡ some entry.client_pubkey) ⊎ (entry.session_token ≡ t)
  evicted-owned t h = elim (pushed-cases t (evicted→pushed t h)) [
    | inl k ↦ inl (c.owned entry.client_pubkey t k)
    | inr e ↦ inr e
  ]

  -- A bearer that is not evicted keeps its owner.
  lookup_token-insert_stays :
      (t : Bytes)
      → ¬ In t (evict (pushed entry g)).0
      → lookup t (insert entry g).0.by_token
        ≡ (if bytes_eq entry.session_token t then some entry.client_pubkey else lookup t g.by_token)
  lookup_token-insert_stays t stays =
      elim (Bool-cases (any (λ s. bytes_eq s t) (evict (pushed entry g)).0)) [
        | inl e ↦ absurd (stays ((any_eq_iff_In t (evict (pushed entry g)).0).0 e))
        | inr e ↦ ground (arith, lookup_token-insert entry g t)
      ]

  kept_owned :
      (t : Bytes)
      → In t (evict (pushed entry g)).1
      → lookup t (insert entry g).0.by_token ≡ some entry.client_pubkey
  kept_owned t k =
      let stays : ¬ In t (evict (pushed entry g)).0 = λ out. Nodup-apart t _ _ split-Nodup out k in
      elim (pushed-cases t (kept→pushed t k)) [
        | inl held ↦
            ground (arith, lookup_token-insert_stays t stays, c.owned entry.client_pubkey t held)
        | inr e ↦
            ground
              (arith, lookup_token-insert_stays t stays, (bytes_eq_iff entry.session_token t).1 e)
      ]

  other_owned :
      (pk : Pubkey) (t : Bytes)
      → bytes_eq entry.client_pubkey pk ≡ false
      → In t (sessions pk g)
      → lookup t (insert entry g).0.by_token ≡ some pk
  other_owned pk t other held = ground (
    arith,
    lookup_token-insert_stays t stays,
    c.owned pk t held,
    bytes_eq_iff entry.session_token t,
  )
    where
      stays : ¬ In t (evict (pushed entry g)).0
      stays out = elim (evicted-owned t out) [
        | inl e ↦ ground (arith, c.owned pk t held, bytes_eq_iff entry.client_pubkey pk)
        | inr e ↦ cc (c.owned pk t held, e, fresh)
      ]

  owned_after :
      (pk : Pubkey) (t : Bytes)
      → In t (sessions pk (insert entry g).0)
      → lookup t (insert entry g).0.by_token ≡ some pk
  owned_after pk t h = elim (Bool-cases (bytes_eq entry.client_pubkey pk)) [
    | inl same ↦
        rw (← (bytes_eq_iff entry.client_pubkey pk).0 same)
          (kept_owned t (rw (sessions-insert entry g pk, same) at h))
    | inr other ↦ other_owned pk t other (rw (sessions-insert entry g pk, other) at h)
  ]

  -- What the pubkey held is evicted or stays.
  held-split :
      (t : Bytes)
      → In t (pushed entry g)
      → In t (evict (pushed entry g)).0 ⊎ In t (evict (pushed entry g)).1
  held-split t h = In-append t _ _ (rw (← evict-append (pushed entry g)) at h)

  new_indexed : In entry.session_token (evict (pushed entry g)).1
  unfolding pushed
  new_indexed = evict-last (sessions entry.client_pubkey g) entry.session_token

  old_indexed :
      (pk : Pubkey) (t : Bytes)
      → ¬ In t (evict (pushed entry g)).0
      → In t (sessions pk g)
      → In t (sessions pk (insert entry g).0)
  unfolding pushed
  old_indexed pk t stays held = elim (Bool-cases (bytes_eq entry.client_pubkey pk)) [
    | inl same ↦
        let e = (bytes_eq_iff entry.client_pubkey pk).0 same in
        let held' : In t (sessions entry.client_pubkey g) = rw e held in
        rw (sessions-insert entry g pk, same)
          (elim (held-split t (In-append_left t _ _ held')) [
            | inl out ↦ absurd (stays out)
            | inr k ↦ k
          ])
    | inr other ↦ rw (sessions-insert entry g pk, other) held
  ]

  indexed_after :
      (pk : Pubkey) (t : Bytes)
      → lookup t (insert entry g).0.by_token ≡ some pk
      → In t (sessions pk (insert entry g).0)
  indexed_after pk t h = elim (Bool-cases (bytes_eq entry.session_token t)) [
    | inl new ↦
        let e : entry.client_pubkey ≡ pk = ground (arith, lookup_token-insert entry g t) in
        let e' = (bytes_eq_iff entry.session_token t).0 new in
        rw (sessions-insert entry g pk, (bytes_eq_iff entry.client_pubkey pk).1 e, ← e') new_indexed
    | inr old ↦ elim (Bool-cases (any (λ s. bytes_eq s t) (evict (pushed entry g)).0)) [
      | inl out ↦ absurd (ground (arith, lookup_token-insert entry g t))
      | inr stays ↦
          old_indexed pk t (λ k. cc ((any_eq_iff_In t (evict (pushed entry g)).0).1 k))
            (c.indexed pk t (ground (arith, lookup_token-insert entry g t)))
    ]
  ]

  unique_after : (pk : Pubkey) → Nodup (sessions pk (insert entry g).0)
  unique_after pk = elim (Bool-cases (bytes_eq entry.client_pubkey pk)) [
    | inl same ↦ rw (sessions-insert entry g pk, same) (Nodup-append_right _ _ split-Nodup)
    | inr other ↦ rw (sessions-insert entry g pk, other) (c.unique pk)
  ]

  bounded_after : (pk : Pubkey) → length (sessions pk (insert entry g).0) ≤ device_cap
  bounded_after pk = elim (Bool-cases (bytes_eq entry.client_pubkey pk)) [
    | inl same ↦
        rw (sessions-insert entry g pk, same) (omega (arith, evict-length (pushed entry g)))
    | inr other ↦ rw (sessions-insert entry g pk, other) (c.bounded pk)
  ]

  one_member_after : Distinct (insert entry g).0.by_pubkey
  unfolding insert
  one_member_after = insert-Distinct entry.client_pubkey _ g.by_pubkey c.distinct

  -- Where the store is consistent and its index does not hold the new bearer, it is consistent
  -- after the insertion: no pubkey has two members, each session list has at most three bearers
  -- and none twice, and the index names a pubkey for a bearer exactly where that pubkey's list
  -- has it.
  pub insert-IsConsistent : IsConsistent (insert entry g).0
  insert-IsConsistent = record {
    distinct = one_member_after;
    bounded = bounded_after;
    unique = unique_after;
    owned = owned_after;
    indexed = indexed_after;
  }
