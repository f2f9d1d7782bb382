-- ===== src/System/Invariant.antt =====
-- What a run keeps: the invariant, and what it assumes of the crates.
use instance_lib.Prelude.{
  if◌then◌else◌, ℕ, ◌≤◌, ◌+◌, arith, true, bytes_eq, any, ◌∷◌, some, AreBytes, In, [], List, Bytes,
  ◌++◌, ◌≡◌,
}
use instance_lib.Prelude.Map.{lookup}
use instance_lib.Codec.Hex.{hex_decode}
use instance_lib.Manifest.{Manifest, ManifestMember}
use instance_lib.State.{Member, Pubkey}
use instance_lib.State.Invariant.{IsConsistent}
use instance_lib.State.Revoke.{IsIteration}
use instance_lib.Manage.{ManageAction}
use instance_lib.System.{Service, World}

-- The manifest has an entry for the pubkey and the hash.
abbrev pub IsListed : Manifest → Pubkey → Bytes → Type 0
IsListed manifest pk hash =
    (m : ManifestMember) × In m manifest.members
    × (hex_decode m.pubkey ≡ some pk)
    × (hex_decode m.hash ≡ some hash)

-- What is assumed of the crates: digests and the octets of keys are bytes, and the iteration of a
-- map hands out its entries and no others.
pub record IsSane (s : Service) : Type 0 where
  pub digests : (data' : Bytes) → AreBytes (s.sha256 data')
  pub octets : (cert : s.x.Cert) → AreBytes (s.x.public_key cert)
  pub complete : IsIteration s.deps.iter

-- How often an action with the nonce stands in a list.
abbrev pub times : Bytes → List ManageAction → ℕ
times nonce [] = 0
times nonce (a ∷ as') = (if bytes_eq a.nonce nonce then 1 else 0) + times nonce as'

pub times-append :
    (nonce : Bytes) (xs ys : List ManageAction)
    → times nonce (xs ++ ys) ≡ times nonce xs + times nonce ys
times-append nonce [] ys = omega arith
times-append nonce (a ∷ xs) ys = omega (arith, times-append nonce xs ys)

-- How often an action with the nonce went through the guard.
abbrev pub passed : Bytes → World → ℕ
passed nonce w = times nonce w.pending + times nonce w.applied

-- The two maps agree, every member is a member of the cohort, every live bearer was drawn, and a
-- nonce went through the guard at most once, and is spent then.
pub record IsSound (s : Service) (w : World) : Type 0 where
  pub consistent : IsConsistent w.members
  pub cohort :
      (pk : Pubkey) (m : Member)
      → lookup pk w.members.by_pubkey ≡ some m
      → IsListed s.manifest pk m.member_hash
  pub minted : (t : Bytes) (pk : Pubkey) → lookup t w.members.by_token ≡ some pk → In t w.drawn
  pub once : (nonce : Bytes) → passed nonce w ≤ 1
  pub spent :
      (nonce : Bytes) → 1 ≤ passed nonce w → any (bytes_eq nonce) w.members.seen_nonces ≡ true
