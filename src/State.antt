-- ===== src/State.antt =====
-- src/state.rs: the RAM-only member store. The lock is held for the whole of each method, so a
-- method is one function from the store to the new store and its result.
pub mod Sessions
pub mod Insert
pub mod Invariant
pub mod Revoke
pub mod RateLimit
pub mod Bearers
pub mod Frame
pub mod Registry
mod Tests
mod UnitTests
use Prim.Native.Nat.{min}
use instance_lib.Prelude.{
  ℕ, ◌+◌, ◌-◌, ◌*◌, ◌^◌, Bool, true, false, ◌||◌, Option, none, some, List, [], ◌∷◌, ◌++◌, ltb, leb,
  if◌then◌else◌, length, any, Bytes, bytes_eq, is_some,
}
use instance_lib.Float.{one, nearest, f64_add, f64_sub, f64_mul, as_secs_f64}
use instance_lib.Prelude.Map.{Map, lookup, insert as map_insert, remove}

-- X9.63 uncompressed P-256: 0x04 || X || Y.
abbrev pub Pubkey : Type 0
Pubkey = Bytes

-- sha256(sub || originalTransactionId).
abbrev pub MemberHash : Type 0
MemberHash = Bytes

abbrev pub device_cap : ℕ
device_cap = 3

-- Amounts of a bucket are `f64`, as Float counts them, and instants are nanoseconds.
abbrev pub whole_token : ℕ
whole_token = one

abbrev pub attest_burst : ℕ
attest_burst = 5 * one

-- 0.1.
unfoldable pub attest_refill_per_sec : ℕ
unfolding nearest
attest_refill_per_sec = nearest one 10

pub record MemberEntry : Type 0 where
  pub client_pubkey : Pubkey
  pub member_hash : MemberHash
  pub session_token : Bytes
  pub original_tx_id : Bytes

-- `sessions` holds the live bearers, oldest first.
pub record Member : Type 0 where
  pub member_hash : MemberHash
  pub original_tx_id : Bytes
  pub sessions : List Bytes

-- A bucket: its amount, and when it was last refilled.
abbrev pub Bucket : Type 0
Bucket = ℕ × ℕ

pub record Inner : Type 0 where
  pub by_pubkey : Map Member
  pub by_token : Map Pubkey
  pub seen_nonces : List Bytes
  pub attest_buckets : Map Bucket

abbrev pub empty_store : Inner
empty_store = record { by_pubkey = []; by_token = []; seen_nonces = []; attest_buckets = [] }

abbrev sessions_of : Option Member → List Bytes
sessions_of none = []
sessions_of (some m) = m.sessions

-- The live bearers of a pubkey, oldest first.
unfoldable pub sessions : Pubkey → Inner → List Bytes
sessions pubkey g = sessions_of (lookup pubkey g.by_pubkey)

unfoldable pub session_count : Pubkey → Inner → ℕ
unfolding sessions
session_count pubkey g = length (sessions pubkey g)

-- The bucket of a pubkey, or a full one.
abbrev pub bucket_or_full : Option Bucket → ℕ → Bucket
bucket_or_full none now = (attest_burst, now)
bucket_or_full (some b) now = b

-- `duration_since` is zero for an instant that lies ahead, as `-` is.
unfoldable pub refilled : Bucket → ℕ → ℕ
unfolding f64_add f64_mul as_secs_f64 attest_refill_per_sec
refilled b now =
    min (f64_add b.0 (f64_mul (as_secs_f64 (now - b.1)) attest_refill_per_sec)) attest_burst

abbrev pub spend : Pubkey → ℕ → ℕ → Inner → Inner × Bool
spend pubkey now amount g =
    if leb whole_token amount
    then (
      record g {
        attest_buckets = map_insert pubkey (f64_sub amount whole_token, now) g.attest_buckets;
      },
      true,
    )
    else (record g { attest_buckets = map_insert pubkey (amount, now) g.attest_buckets }, false)

unfoldable pub allow_attestation : Pubkey → ℕ → Inner → Inner × Bool
unfolding refilled f64_sub
allow_attestation pubkey now g =
    spend pubkey now (refilled (bucket_or_full (lookup pubkey g.attest_buckets) now) now) g

-- The loop of `insert`: what is popped from the front, in that order, and what stays.
unfoldable pub evict : List Bytes → List Bytes × List Bytes
evict [] = ([], [])
evict (s ∷ ss) =
    let rest = evict ss in
    if ltb device_cap (length (s ∷ ss)) then (s ∷ rest.0, rest.1) else ([], s ∷ ss)

unfoldable pub remove_all {ℓ} : {V : Type ℓ} → List Bytes → Map V → Map V
remove_all [] m = m
remove_all (t ∷ ts) m = remove_all ts (remove t m)

-- The sessions of the entry's pubkey after `or_insert_with` and `push_back`.
unfoldable pub pushed : MemberEntry → Inner → List Bytes
unfolding sessions
pushed entry g = sessions entry.client_pubkey g ++ entry.session_token ∷ []

unfoldable pub insert : MemberEntry → Inner → Inner × Bool
insert entry g =
    let (evicted, kept) = evict (pushed entry g) in
    (
      record g {
        by_pubkey =
            map_insert entry.client_pubkey
              (record {
                member_hash = entry.member_hash;
                original_tx_id = entry.original_tx_id;
                sessions = kept;
              })
              g.by_pubkey;
        by_token =
            map_insert entry.session_token entry.client_pubkey (remove_all evicted g.by_token);
      },
      true,
    )

abbrev entry_of : Bytes → Pubkey → Option Member → Option MemberEntry
entry_of token pk none = none
entry_of token pk (some m) = some (record {
  client_pubkey = pk;
  member_hash = m.member_hash;
  session_token = token;
  original_tx_id = m.original_tx_id;
})

unfoldable pub get_by_token : Bytes → Inner → Option MemberEntry
get_by_token token g = elim (lookup token g.by_token) [
  | none ↦ none
  | some pk ↦ entry_of token pk (lookup pk g.by_pubkey)
]

unfoldable pub contains_token : Bytes → Inner → Bool
contains_token token g = is_some (lookup token g.by_token)

-- `find(|(_, m)| &m.member_hash == hash)`, over the entries in the map's iteration order.
unfoldable pub find_hash : MemberHash → Map Member → Option Pubkey
find_hash hash [] = none
find_hash hash ((pk, m) ∷ rest) =
    if bytes_eq m.member_hash hash then some pk else find_hash hash rest

abbrev drop_member : Pubkey → Option Member → Inner → Inner
drop_member pk none g = g
drop_member pk (some m) g = record g {
  by_pubkey = remove pk g.by_pubkey;
  by_token = remove_all m.sessions g.by_token;
}

-- `iter` is the order in which the hash map hands out its entries, which is not specified.
unfoldable pub revoke_by_member_hash : (Map Member → Map Member) → MemberHash → Inner → Inner × Bool
revoke_by_member_hash iter hash g = elim (find_hash hash (iter g.by_pubkey)) [
  | none ↦ (g, false)
  | some pk ↦ (drop_member pk (lookup pk g.by_pubkey) g, true)
]

-- `HashSet::insert`: whether the nonce is new.
unfoldable pub note_nonce : Bytes → Inner → Inner × Bool
note_nonce nonce g =
    if any (bytes_eq nonce) g.seen_nonces
    then (g, false)
    else (record g { seen_nonces = nonce ∷ g.seen_nonces }, true)
