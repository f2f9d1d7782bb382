-- ===== src/Enroll/Account.antt =====
-- The account that a purchase names, over several enrolments.
use instance_lib.Prelude.{
  ℕ, Bytes, List, Option, none, some, ◌≡◌, inl, inr, refl, sym, ap, ◌∙◌, true, false≢true,
  some-injective, arith, subst,
}
use instance_lib.Http.{json}
use instance_lib.X509.{X509}
use instance_lib.Jwt.{Jwt, AppleClaims, StoreKitPayload}
use instance_lib.State.{Inner, Pubkey}
use instance_lib.App.{AppState}
use instance_lib.Codec.Uuid.{uuid_v5, uuid_eq}
use instance_lib.Codec.Uuid.Compare.{octets, uuid_eq-binds}
use instance_lib.Enroll.{EnrollRequest, names_account, check_jwt, verify_storekit_jws, handler}
use instance_lib.Enroll.Handler.{IsEnrolled, handler_lem}

module _ (x : X509) (jwt : Jwt) (sha256 : Bytes → Bytes) (lowercase : ℕ → List ℕ)
    {Verifier : Type 0} (state : AppState jwt.Key Verifier) where
  -- An answer with a bearer comes of an enrolment that was granted.
  pub granted-IsEnrolled :
      (random : Bytes) (client : Option Pubkey) (req : EnrollRequest) (token : Bytes)
      → let (members, answer) = handler x jwt sha256 lowercase state random client req in
        answer ≡ json token
        → (pk : Pubkey) × IsEnrolled x jwt sha256 lowercase state random pk req token members
  granted-IsEnrolled random client req token said =
      elim (handler_lem x jwt sha256 lowercase state random client req) [
        | inl (same, inl code) ↦ absurd (omega (arith, rw said at code))
        | inl (same, inr code) ↦ absurd (omega (arith, rw said at code))
        | inr (pk, known, (t, said', e)) ↦
            let same : t ≡ token = cc (said, said') in
            (
              pk,
              subst
                  (λ u.
                    IsEnrolled x jwt sha256 lowercase state random pk req u
                      (handler x jwt sha256 lowercase state random client req).0)
                  same e,
            )
      ]

  names_account-got :
      (expected : Bytes) (given : Option Bytes)
      → names_account x jwt sha256 lowercase expected given ≡ true
      → (got : Bytes) × (given ≡ some got) × (uuid_eq lowercase expected got ≡ true)
  unfolding names_account
  names_account-got expected none e = absurd (false≢true e)
  names_account-got expected (some got) e = (got, refl, e)

  abbrev namespace : Bytes
  namespace = state.anchors.appaccount_namespace

  accounts_agree :
      (sub sub' : Bytes) (given : Option Bytes)
      → names_account x jwt sha256 lowercase (uuid_v5 namespace sub) given ≡ true
      → names_account x jwt sha256 lowercase (uuid_v5 namespace sub') given ≡ true
      → octets namespace sub ≡ octets namespace sub'
  accounts_agree sub sub' given e e' =
      let (got, is_got, same) = names_account-got (uuid_v5 namespace sub) given e in
      let (got', is_got', same') = names_account-got (uuid_v5 namespace sub') given e' in
      let one : got' ≡ got = some-injective _ _ (sym is_got' ∙ is_got) in
      uuid_eq-binds lowercase namespace sub sub' got same
        (subst (λ g. uuid_eq lowercase (uuid_v5 namespace sub') g ≡ true) one same')

module _ (x : X509) (jwt : Jwt) (sha256 : Bytes → Bytes) (lowercase : ℕ → List ℕ)
    {Verifier : Type 0} (state : AppState jwt.Key Verifier) where
  -- Two requests with the same StoreKit transaction that both get a bearer, whatever the store holds
  -- at either time: their Apple subjects were verified, and the UUIDs of the two subjects have the
  -- same 16 octets, so that a purchase enrols no second subject but one whose digest agrees with
  -- that of the first in all bits that a UUID keeps.
  pub purchase_binds :
      (members members' : Inner) (random random' : Bytes) (client client' : Option Pubkey)
      (req req' : EnrollRequest) (token token' : Bytes)
      → req.storekit_jws ≡ req'.storekit_jws
      → (handler x jwt sha256 lowercase (record state { members = members }) random client req).1
        ≡ json token
      → (handler x jwt sha256 lowercase
          (record state { members = members' })
          random'
          client'
          req').1
        ≡ json token'
      → (claims claims' : AppleClaims jwt.Value) × (check_jwt x jwt sha256 lowercase state req
          ≡ some claims)
        × (check_jwt x jwt sha256 lowercase state req' ≡ some claims')
        × (octets state.anchors.appaccount_namespace claims.sub
            ≡ octets state.anchors.appaccount_namespace claims'.sub)
  purchase_binds members members' random random' client client' req req' token token' jws said
        said' =
      let (pk, e) =
        granted-IsEnrolled x jwt sha256 lowercase (record state { members = members }) random client
          req token said in
      let (pk', e') =
        granted-IsEnrolled x jwt sha256 lowercase (record state { members = members' }) random'
          client' req' token' said' in
      let same : e'.tx ≡ e.tx = some-injective _ _ (
        sym e'.storekit
        ∙ ap
            (λ j.
              verify_storekit_jws x jwt sha256 j state.anchors.storekit_root_sha256
                state.anchors.storekit_bundle_id)
            (sym jws)
        ∙ e.storekit) in
      (
        e.claims,
        e'.claims,
        e.apple,
        e'.apple,
        accounts_agree x jwt sha256 lowercase state e.claims.sub e'.claims.sub
            e.tx.app_account_token e.account
            (subst
              (λ (tx : StoreKitPayload).
                names_account x jwt sha256 lowercase
                  (uuid_v5 state.anchors.appaccount_namespace e'.claims.sub) tx.app_account_token
                ≡ true)
              same e'.account),
      )
