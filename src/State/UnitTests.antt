-- ===== src/State/UnitTests.antt =====
-- src/state.rs: the module's own tests, each as a test of the model, and their outcomes.
use instance_lib.Prelude.{
  ℕ, Bytes, Bool, true, false, not, ◌&&◌, ◌==◌, List, [], ◌∷◌, codes, replicate, bytes_eq, Option,
  some, none, ◌≡◌, refl,
}
use instance_lib.State.{
  Inner, MemberEntry, Pubkey, device_cap, empty_store, insert, contains_token, session_count,
  revoke_by_member_hash, get_by_token, allow_attestation,
}

abbrev pk : ℕ → Pubkey
pk seed = 0x04 ∷ replicate 64 seed

abbrev entry : Pubkey → Bytes → MemberEntry
entry pubkey token = record {
  client_pubkey = pubkey;
  member_hash = replicate 32 7;
  session_token = token;
  original_tx_id = codes "tx-1";
}

-- Insertions for one pubkey, one after the other, and whether each was accepted.
abbrev inserted : Pubkey → List Bytes → Inner → Inner × Bool
inserted a [] store = (store, true)
inserted a (t ∷ ts) store =
    let (store', ok) = insert (entry a t) store in
    let (store'', oks) = inserted a ts store' in (store'', ok && oks)

abbrev a_second_enroll_on_one_pubkey_keeps_the_first_bearer : Bool
a_second_enroll_on_one_pubkey_keeps_the_first_bearer =
    let a = pk 1 in
    let (store, ok) = inserted a (codes "bearer-first" ∷ codes "bearer-second" ∷ []) empty_store in
    ok
    && contains_token (codes "bearer-first") store
    && contains_token (codes "bearer-second") store
    && session_count a store == 2

first_bearer_kept : a_second_enroll_on_one_pubkey_keeps_the_first_bearer ≡ true
unfolding insert contains_token instance_lib.Prelude.Map.lookup instance_lib.Prelude.Map.insert
    instance_lib.State.remove_all instance_lib.State.evict instance_lib.State.pushed bytes_eq
    session_count
first_bearer_kept = refl

abbrev bearers_are_capped_by_evicting_the_oldest : Bool
bearers_are_capped_by_evicting_the_oldest =
    let a = pk 1 in
    let (full, ok) =
      inserted a (codes "bearer-0" ∷ codes "bearer-1" ∷ codes "bearer-2" ∷ []) empty_store in
    let (store, more) = insert (entry a (codes "bearer-newest")) full in
    ok
    && session_count a full == device_cap
    && more
    && session_count a store == device_cap
    && not (contains_token (codes "bearer-0") store)
    && contains_token (codes "bearer-newest") store
    && contains_token (codes "bearer-2") store

oldest_evicted : bearers_are_capped_by_evicting_the_oldest ≡ true
unfolding insert session_count instance_lib.Prelude.Map.lookup instance_lib.Prelude.Map.insert
    bytes_eq instance_lib.State.evict instance_lib.State.pushed contains_token
    instance_lib.State.remove_all instance_lib.Prelude.Map.remove
oldest_evicted = refl

abbrev one_pubkeys_cap_does_not_touch_another : Bool
one_pubkeys_cap_does_not_touch_another =
    let a = pk 1 in
    let b = pk 2 in
    let (five, ok) =
      inserted a (codes "a-0" ∷ codes "a-1" ∷ codes "a-2" ∷ codes "a-3" ∷ codes "a-4" ∷ [])
        empty_store in
    let (store, more) = insert (entry b (codes "b-only")) five in
    session_count a store == device_cap && contains_token (codes "b-only") store

others_untouched : one_pubkeys_cap_does_not_touch_another ≡ true
unfolding session_count instance_lib.Prelude.Map.lookup insert instance_lib.Prelude.Map.insert
    bytes_eq instance_lib.State.evict instance_lib.State.pushed contains_token
    instance_lib.State.remove_all instance_lib.Prelude.Map.remove
others_untouched = refl

abbrev revoke_drops_every_bearer_the_identity_holds : Bool
revoke_drops_every_bearer_the_identity_holds =
    let a = pk 1 in
    let (two, ok) = inserted a (codes "device-1" ∷ codes "device-2" ∷ []) empty_store in
    let (store, revoked) = revoke_by_member_hash (λ entries. entries) (replicate 32 7) two in
    revoked
    && not (contains_token (codes "device-1") store)
    && not (contains_token (codes "device-2") store)
    && session_count a store == 0

every_bearer_dropped : revoke_drops_every_bearer_the_identity_holds ≡ true
unfolding revoke_by_member_hash instance_lib.State.find_hash instance_lib.State.drop_member insert
    instance_lib.Prelude.Map.insert instance_lib.Prelude.Map.lookup instance_lib.Prelude.Map.remove
    instance_lib.State.remove_all instance_lib.State.evict instance_lib.State.pushed bytes_eq
    contains_token session_count
every_bearer_dropped = refl

abbrev is_device_2 : Option MemberEntry → Bool
is_device_2 none = false
is_device_2 (some found) =
    bytes_eq found.client_pubkey (pk 1)
    && bytes_eq found.session_token (codes "device-2")
    && bytes_eq found.member_hash (replicate 32 7)

abbrev lookup_by_token_reports_the_identity_behind_that_bearer : Bool
lookup_by_token_reports_the_identity_behind_that_bearer =
    let (store, ok) = inserted (pk 1) (codes "device-1" ∷ codes "device-2" ∷ []) empty_store in
    is_device_2 (get_by_token (codes "device-2") store)

identity_reported : lookup_by_token_reports_the_identity_behind_that_bearer ≡ true
unfolding get_by_token instance_lib.Prelude.Map.lookup insert instance_lib.Prelude.Map.insert
    instance_lib.State.remove_all instance_lib.State.evict instance_lib.State.pushed bytes_eq
identity_reported = refl

-- Calls at the given instants, and whether all were granted.
abbrev all_granted : Pubkey → List ℕ → Inner → Inner × Bool
all_granted a [] store = (store, true)
all_granted a (now ∷ later) store =
    let (store', ok) = allow_attestation a now store in
    let (store'', oks) = all_granted a later store' in (store'', ok && oks)

-- Calls that are a microsecond apart.
abbrev attestation_bucket_caps_the_burst_per_pubkey : Bool
attestation_bucket_caps_the_burst_per_pubkey =
    let (spent, ok) = all_granted (pk 1) (1000 ∷ 2000 ∷ 3000 ∷ 4000 ∷ 5000 ∷ []) empty_store in
    let (after, sixth) = allow_attestation (pk 1) 6000 spent in
    let (last, other) = allow_attestation (pk 2) 7000 after in ok && not sixth && other

burst_capped : attestation_bucket_caps_the_burst_per_pubkey ≡ true
unfolding allow_attestation instance_lib.Prelude.Map.lookup instance_lib.Prelude.Map.insert bytes_eq
burst_capped = refl
