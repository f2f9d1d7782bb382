-- ===== src/Enroll/Handler.antt =====
-- The `/enroll` handler, branch by branch.
use instance_lib.Prelude.{
  none, Option-cases, inl, inr, Bool-cases, Option, arith, any→In, In, refl, true, ◌⊎◌, some, List,
  ◌≡◌, AreBytes, ℕ, Bytes,
}
use instance_lib.Codec.Hex.{hex_decode}
use instance_lib.Codec.Hex.Compare.{eq_ignore_ascii_case-hex_encode_iff}
use instance_lib.Codec.Base64.{b64url_nopad}
use instance_lib.Codec.Uuid.{uuid_v5}
use instance_lib.Http.{Response, json, status}
use instance_lib.X509.{X509}
use instance_lib.Jwt.{Jwt, AppleClaims, StoreKitPayload}
use instance_lib.Manifest.{Manifest, ManifestMember}
use instance_lib.State.{Inner, MemberEntry, Pubkey, insert}
use instance_lib.App.{AppState}
use instance_lib.Enroll.{
  List, ℕ, EnrollRequest, names_account, hash_member, in_manifest, mint, admit, check_jwt,
  check_jws, handler,
}

module _ (x : X509) (jwt : Jwt) (sha256 : Bytes → Bytes) where
  -- An entry of the manifest stands for the pubkey and the hash.
  pub in_manifest-listed :
      (manifest : Manifest) (pk hash : Bytes)
      → AreBytes pk
      → AreBytes hash
      → in_manifest x jwt sha256 manifest pk hash ≡ true
      → (m : ManifestMember) × In m manifest.members
        × (hex_decode m.pubkey ≡ some pk)
        × (hex_decode m.hash ≡ some hash)
  unfolding in_manifest
  in_manifest-listed manifest pk hash hp hh e =
      let (m, held, both) = any→In _ manifest.members e in
      (
        m,
        held,
        (eq_ignore_ascii_case-hex_encode_iff m.pubkey pk hp).0 (ground arith),
        (eq_ignore_ascii_case-hex_encode_iff m.hash hash hh).0 (ground arith),
      )

  module _ {Verifier : Type 0} (lowercase : ℕ → List ℕ) (state : AppState jwt.Key Verifier) where
    abbrev pub entry_for : Bytes → Pubkey → Bytes → StoreKitPayload → MemberEntry
    entry_for random pk sub tx = record {
      client_pubkey = pk;
      member_hash = hash_member x jwt sha256 sub tx;
      session_token = b64url_nopad random;
      original_tx_id = tx.original_transaction_id;
    }

    -- What a request that gets a bearer has shown, and what becomes of the store.
    pub record IsEnrolled (random : Bytes) (pk : Pubkey) (req : EnrollRequest) (token : Bytes)
        (members : Inner) : Type 0 where
      pub claims : AppleClaims jwt.Value
      pub tx : StoreKitPayload
      pub apple : check_jwt x jwt sha256 lowercase state req ≡ some claims
      pub storekit : check_jws x jwt sha256 lowercase state req ≡ some tx
      pub account :
          names_account x jwt sha256 lowercase
            (uuid_v5 state.anchors.appaccount_namespace claims.sub)
            tx.app_account_token
          ≡ true
      pub cohort :
          in_manifest x jwt sha256 state.manifest pk (hash_member x jwt sha256 claims.sub tx) ≡ true
      pub minted : token ≡ b64url_nopad random
      pub stored : members ≡ (insert (entry_for random pk claims.sub tx) state.members).0

    -- A refusal: one of the two codes, and the store as it was.
    abbrev pub IsRefused : Inner × Response Bytes → Type 0
    IsRefused r = (r.0 ≡ state.members) × ((status r.1 ≡ 401) ⊎ (status r.1 ≡ 403))

    abbrev pub IsGranted : Bytes → Pubkey → EnrollRequest → Inner × Response Bytes → Type 0
    IsGranted random pk req r =
        (token : Bytes) × (r.1 ≡ json token) × IsEnrolled random pk req token r.0

    pub mint_lem :
        (random : Bytes) (pk : Pubkey) (sub : Bytes) (tx : StoreKitPayload)
        → mint x jwt sha256 lowercase state random pk sub tx
          ≡ ((insert (entry_for random pk sub tx) state.members).0, json (b64url_nopad random))
    unfolding mint insert
    mint_lem random pk sub tx = refl

    admit_lem :
        (random : Bytes) (pk : Pubkey) (req : EnrollRequest) (claims : AppleClaims jwt.Value)
        (tx : StoreKitPayload)
        → check_jwt x jwt sha256 lowercase state req ≡ some claims
        → check_jws x jwt sha256 lowercase state req ≡ some tx
        → let r = admit x jwt sha256 lowercase state random pk claims.sub tx in
          IsRefused r ⊎ IsGranted random pk req r
    unfolding admit
    admit_lem random pk req claims tx e f =
        elim (Bool-cases (
          names_account x jwt sha256 lowercase
            (uuid_v5 state.anchors.appaccount_namespace claims.sub) tx.app_account_token)) [
              | inr other ↦ inl (rw (other, admit) (refl, inr refl))
              | inl account ↦
                  elim (Bool-cases (
                    in_manifest x jwt sha256 state.manifest pk
                      (hash_member x jwt sha256 claims.sub tx))) [
                        | inr out ↦ inl (rw (account, out, admit) (refl, inr refl))
                        | inl cohort ↦ inr (
                            rw (account, cohort, mint_lem random pk claims.sub tx)
                              (
                                b64url_nopad random,
                                refl,
                                record {
                                  claims = claims;
                                  tx = tx;
                                  apple = e;
                                  storekit = f;
                                  account = account;
                                  cohort = cohort;
                                  minted = refl;
                                  stored = refl;
                                },
                              ))
                      ]
            ]

    -- A request without a client certificate is refused. Any other is refused with 401 or 403
    -- and leaves the store alone, or it gets a bearer: then its Apple token and its transaction
    -- were verified, the transaction names the token's subject, the manifest lists the pubkey
    -- with the member hash, and the store is the old one with this one bearer inserted.
    pub handler_lem :
        (random : Bytes) (client : Option Pubkey) (req : EnrollRequest)
        → let r = handler x jwt sha256 lowercase state random client req in
          IsRefused r ⊎ ((pk : Pubkey) × (client ≡ some pk) × IsGranted random pk req r)
    unfolding handler
    handler_lem random none req = inl (refl, inr refl)
    handler_lem random (some pk) req =
        elim (Option-cases (check_jwt x jwt sha256 lowercase state req)) [
          | inl e ↦ inl (rw (e, handler) (refl, inl refl))
          | inr (claims, e) ↦ elim (Option-cases (check_jws x jwt sha256 lowercase state req)) [
            | inl f ↦ inl (rw (e, handler, f, handler) (refl, inl refl))
            | inr (tx, f) ↦
                rw (e, handler, f, handler)
                  (elim (admit_lem random pk req claims tx e f) [
                    | inl refused ↦ inl refused
                    | inr granted ↦ inr (pk, refl, granted)
                  ])
          ]
        ]
