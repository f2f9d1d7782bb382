-- ===== src/State/Tests.antt =====
-- src/state.rs: the store's theorems on a store with one device.
use instance_lib.State.Registry.Refinement.{view}
use instance_lib.State.Registry.{
  count_op, token_op, live_op, revoke_op, nonce_op, attest_op, insert_op, empty_registry, Op,
  Permits,
}
use instance_lib.State.Registry.Runs.{run_ops_refines, run_ops}
use instance_lib.Prelude.{
  none, ℕ, inr, inl, List, ◌-◌, In, ◌≤◌, arith, ◌⊎◌, ◌+◌, ◌↔◌, ◌*◌, false, ◌^◌, true, some, ◌≡◌, [],
  replicate, bytes_eq, ◌∷◌, refl, codes,
}
use instance_lib.Prelude.Map.{lookup}
use instance_lib.State.{
  Pubkey, attest_burst, Member, whole_token, allow_attestation, get_by_token, revoke_by_member_hash,
  contains_token, insert, empty_store,
}
use instance_lib.State.Bearers.{IsOldestOfFull, insert_bearers}
use instance_lib.State.Revoke.{IsRevoked, IsUnknown, revoke_lem}
use instance_lib.State.RateLimit.{grants, asked, waited, since, grants_bounded}
use instance_lib.Fixtures.{point, entry, one_device, one_device-IsConsistent}

insert_bearers_example :
    (contains_token (codes "bearer-a") (insert (entry 7 (codes "bearer-b")) one_device).0 ≡ true)
    ↔ ((codes "bearer-b" ≡ codes "bearer-a")
        ⊎ ((contains_token (codes "bearer-a") one_device ≡ true)
            × ¬ IsOldestOfFull (codes "bearer-a") (point 7) one_device))
unfolding lookup insert instance_lib.Prelude.Map.insert instance_lib.State.remove_all
    instance_lib.State.evict instance_lib.State.pushed bytes_eq
insert_bearers_example =
    insert_bearers (entry 7 (codes "bearer-b")) one_device (codes "bearer-a")
      one_device-IsConsistent refl

revoke_example :
    let (g', revoked) = revoke_by_member_hash (λ entries. entries) (replicate 32 7) one_device in
    ((revoked ≡ false) × (g' ≡ one_device) × IsUnknown (replicate 32 7) one_device)
    ⊎ ((revoked ≡ true) × IsRevoked (replicate 32 7) one_device g')
revoke_example =
    revoke_lem (λ entries. entries) (λ entries e. (λ h. h, λ h. h)) (replicate 32 7) one_device
      one_device-IsConsistent

-- A burst, a call ten seconds later, one that had read the clock before that call but came after it,
-- and one more: seven are granted, and the seconds count twice.
abbrev late_calls : List (Pubkey × ℕ)
late_calls =
    (point 7, 0)
    ∷ (point 7, 0)
    ∷ (point 7, 0)
    ∷ (point 8, 0)
    ∷ (point 7, 0)
    ∷ (point 7, 0)
    ∷ (point 7, 10 ^ 10)
    ∷ (point 7, 0)
    ∷ (point 7, 10 ^ 10)
    ∷ []

late_calls_granted :
    (grants (point 7) late_calls one_device ≡ 7) × (waited (point 7) none late_calls ≡ 2 * 10 ^ 10)
unfolding grants allow_attestation lookup instance_lib.Prelude.Map.insert bytes_eq insert
late_calls_granted = (refl, refl)

grants_bounded_example :
    grants (point 7) late_calls one_device * 10 ^ 25
    ≤ 5 * 10 ^ 25
      + waited (point 7) (since (lookup (point 7) one_device.attest_buckets)) late_calls
        * (10 ^ 15 + 1)
      + asked (point 7) late_calls * 10 ^ 10
grants_bounded_example = grants_bounded (point 7) late_calls one_device

-- Two devices enrol, one of them again; one is revoked, and its bearers are asked for.
abbrev calls : List Op
calls =
    insert_op (entry 7 (codes "a"))
    ∷ insert_op (entry 8 (codes "aa"))
    ∷ insert_op (entry 7 (codes "aaa"))
    ∷ attest_op (point 7) 1
    ∷ nonce_op (codes "n")
    ∷ revoke_op (replicate 32 7)
    ∷ live_op (codes "aaa")
    ∷ token_op (codes "aa")
    ∷ count_op (point 7)
    ∷ []

run_ops_refines_example :
    let (g, answers) = run_ops (λ entries. entries) calls empty_store in
    Permits empty_registry calls answers (view g)
run_ops_refines_example =
    run_ops_refines (λ entries. entries) (λ entries e. (λ h. h, λ h. h)) calls
      (
        λ h. elim h [ inl e ↦ cc | inr h ↦ elim h [ inl e ↦ cc | inr e ↦ e ] ],
        (λ h. elim h [ inl e ↦ cc | inr e ↦ e ], (λ h. h, tt)),
      )
