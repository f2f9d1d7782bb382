-- ===== src/State/Registry.antt =====
-- What the member store promises, with no bearer index and no order of the maps: a registry is a
-- function from pubkeys to members, a set of spent nonces, and an allowance for each pubkey.
pub mod Refinement
pub mod Runs
use instance_lib.Prelude.{
  ◌↔◌, leb, not, [], ◌-◌, ◌⊎◌, length, ◌∷◌, ◌≢◌, bytes_eq, In, ◌++◌, some, if◌then◌else◌, true,
  drop, false, List, Bool, Option, Bytes, ◌≡◌, ℕ, none,
}
use instance_lib.Float.{f64_sub}
use instance_lib.State.{
  MemberEntry, Member, MemberHash, Pubkey, Bucket, device_cap, whole_token, refilled,
  bucket_or_full, sessions_of,
}

pub record Registry : Type 0 where
  pub members : Pubkey → Option Member
  pub spent : Bytes → Bool
  pub allowance : Pubkey → Option Bucket

abbrev pub empty_registry : Registry
empty_registry = record { members = λ pk. none; spent = λ n. false; allowance = λ pk. none }

-- A function, changed at one text.
abbrev pub update {ℓ} : {A : Type ℓ} → Bytes → A → (Bytes → A) → Bytes → A
update k a f j = if bytes_eq k j then a else f j

-- The last `n` of a list.
abbrev pub newest : ℕ → List Bytes → List Bytes
newest n ss = drop (length ss - n) ss

-- The calls of a client, and what it is told.
pub data Op : Type 0 where
  insert_op : MemberEntry → Op
  revoke_op : MemberHash → Op
  nonce_op : Bytes → Op
  attest_op : Pubkey → ℕ → Op
  token_op : Bytes → Op
  live_op : Bytes → Op
  count_op : Pubkey → Op

pub data Answer : Type 0 where
  flag : Bool → Answer
  holder : Option MemberEntry → Answer
  number : ℕ → Answer

abbrev pub enrolled : MemberEntry → Option Member → Member
enrolled entry before = record {
  member_hash = entry.member_hash;
  original_tx_id = entry.original_tx_id;
  sessions = newest device_cap (sessions_of before ++ entry.session_token ∷ []);
}

-- Who holds a bearer: the pubkey among whose sessions it is, with that member's data.
abbrev pub Holds : Registry → Bytes → MemberEntry → Type 0
Holds r t e =
    (m : Member) × (r.members e.client_pubkey ≡ some m)
    × In t m.sessions
    × (e.session_token ≡ t)
    × (e.member_hash ≡ m.member_hash)
    × (e.original_tx_id ≡ m.original_tx_id)

-- The amount that is there at an instant.
abbrev pub amount : Registry → Pubkey → ℕ → ℕ
amount r pk now = refilled (bucket_or_full (r.allowance pk) now) now

-- The answers and the registries that a call may lead to. Only a revoke leaves a choice: which of
-- the members with the hash.
abbrev pub Allows : Registry → Op → Answer → Registry → Type 0
Allows r (insert_op e) a r' =
    (a ≡ flag true)
    × (r' ≡ record r {
      members = update e.client_pubkey (some (enrolled e (r.members e.client_pubkey))) r.members;
    })
Allows r (revoke_op hash) a r' =
    ((a ≡ flag false)
      × (r' ≡ r)
      × ((pk : Pubkey) (m : Member) → r.members pk ≡ some m → m.member_hash ≢ hash))
    ⊎ ((a ≡ flag true)
        × ((pk : Pubkey) × (m : Member) × (r.members pk ≡ some m)
            × (m.member_hash ≡ hash)
            × (r' ≡ record r { members = update pk none r.members })))
Allows r (nonce_op n) a r' =
    (a ≡ flag (not (r.spent n))) × (r' ≡ record r { spent = update n true r.spent })
Allows r (attest_op pk now) a r' =
    let granted = leb whole_token (amount r pk now) in
    (a ≡ flag granted)
    × (r' ≡ record r {
      allowance =
          update pk
            (some
              ((if granted then f64_sub (amount r pk now) whole_token else amount r pk now), now))
            r.allowance;
    })
Allows r (token_op t) a r' =
    (r' ≡ r)
    × ((o : Option MemberEntry) × (a ≡ holder o) × ((e : MemberEntry) → (o ≡ some e) ↔ Holds r t e))
Allows r (live_op t) a r' =
    (r' ≡ r) × ((b : Bool) × (a ≡ flag b) × ((b ≡ true) ↔ ((e : MemberEntry) × Holds r t e)))
Allows r (count_op pk) a r' = (r' ≡ r) × (a ≡ number (length (sessions_of (r.members pk))))

-- A run of calls with its answers.
abbrev pub Permits : Registry → List Op → List Answer → Registry → Type 0
Permits r [] [] r' = r' ≡ r
Permits r [] (a ∷ as') r' = ⊥
Permits r (op ∷ ops) [] r' = ⊥
Permits r (op ∷ ops) (a ∷ as') r' = (mid : Registry) × Allows r op a mid × Permits mid ops as' r'
