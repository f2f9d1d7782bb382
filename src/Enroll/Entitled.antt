-- ===== src/Enroll/Entitled.antt =====
-- The `/enroll` handler on a device that is entitled to a bearer.
use instance_lib.Prelude.{
  ℕ, Bytes, List, Option, some, true, ◌≡◌, ◌<◌, refl, ap, All, AreBytes, In, In→any,
}
use instance_lib.Http.{json}
use instance_lib.X509.{X509}
use instance_lib.Jwt.{Jwt, AppleClaims, StoreKitPayload}
use instance_lib.Manifest.{Manifest, ManifestMember}
use instance_lib.State.{Pubkey}
use instance_lib.App.{AppState}
use instance_lib.Codec.Hex.{hex_decode}
use instance_lib.Codec.Hex.Compare.{eq_ignore_ascii_case-hex_encode_iff}
use instance_lib.Codec.Base64.{b64url_nopad}
use instance_lib.Codec.Uuid.{uuid_v5}
use instance_lib.Codec.Uuid.Compare.{octets, without_hyphens, uuid_eq-uuid_v5_iff}
use instance_lib.Enroll.{
  EnrollRequest, names_account, hash_member, in_manifest, admit, check_jwt, check_jws, handler,
}
use instance_lib.Enroll.Handler.{mint_lem}

module _ (x : X509) (jwt : Jwt) (sha256 : Bytes → Bytes) (lowercase : ℕ → List ℕ)
    {Verifier : Type 0} (state : AppState jwt.Key Verifier) where
  -- Both credentials verify, the transaction names the subject in any spelling of its UUID, and the
  -- manifest lists the device's point with the member's hash, in hex of either case.
  pub record IsEntitled (pk : Pubkey) (req : EnrollRequest) : Type 0 where
    pub claims : AppleClaims jwt.Value
    pub tx : StoreKitPayload
    pub apple : check_jwt x jwt sha256 lowercase state req ≡ some claims
    pub storekit : check_jws x jwt sha256 lowercase state req ≡ some tx
    pub got : Bytes
    pub named : tx.app_account_token ≡ some got
    pub ascii : All (λ c. c < 128) got
    pub account :
        hex_decode (without_hyphens got)
        ≡ some (octets state.anchors.appaccount_namespace claims.sub)
    pub entry : ManifestMember
    pub held : In entry state.manifest.members
    pub point : hex_decode entry.pubkey ≡ some pk
    pub hash : hex_decode entry.hash ≡ some (hash_member x jwt sha256 claims.sub tx)
    pub point_bytes : AreBytes pk
    pub hash_bytes : AreBytes (hash_member x jwt sha256 claims.sub tx)

  named_account :
      (sub got : Bytes) (given : Option Bytes)
      → given ≡ some got
      → All (λ c. c < 128) got
      → hex_decode (without_hyphens got) ≡ some (octets state.anchors.appaccount_namespace sub)
      → names_account x jwt sha256 lowercase (uuid_v5 state.anchors.appaccount_namespace sub) given
        ≡ true
  unfolding names_account
  named_account sub got given e ascii account =
      rw e
        ((uuid_eq-uuid_v5_iff lowercase state.anchors.appaccount_namespace sub got ascii).1 account)

  listed :
      (manifest : Manifest) (m : ManifestMember) (pk hash : Bytes)
      → In m manifest.members
      → AreBytes pk
      → AreBytes hash
      → hex_decode m.pubkey ≡ some pk
      → hex_decode m.hash ≡ some hash
      → in_manifest x jwt sha256 manifest pk hash ≡ true
  unfolding in_manifest
  listed manifest m pk hash held small small' e e' =
      let same = (eq_ignore_ascii_case-hex_encode_iff m.pubkey pk small).1 e in
      let same' = (eq_ignore_ascii_case-hex_encode_iff m.hash hash small').1 e' in
      In→any _ manifest.members held (rw (same, same') refl)

  -- An entitled device gets its bearer, whatever the store holds.
  pub entitled-answer :
      (random : Bytes) (pk : Pubkey) (req : EnrollRequest)
      → IsEntitled pk req
      → (handler x jwt sha256 lowercase state random (some pk) req).1 ≡ json (b64url_nopad random)
  unfolding handler admit
  entitled-answer random pk req i =
      let account =
        named_account i.claims.sub i.got i.tx.app_account_token i.named i.ascii i.account in
      let cohort =
        listed state.manifest i.entry pk _ i.held i.point_bytes i.hash_bytes i.point i.hash in
      rw (handler, i.apple, i.storekit, admit, account, cohort)
        (ap (λ r. r.1) (mint_lem x jwt sha256 lowercase state random pk i.claims.sub i.tx))
