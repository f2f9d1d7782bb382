-- ===== src/AppleJwks/Keys.antt =====
-- `load_apple_jwt_keys`: which key a `kid` stands for.
use instance_lib.Prelude.{
  Bool-cases, Option-cases, ap, arith, bytes_eq, bytes_eq_iff, codes, if◌then◌else◌, inl, inr, some,
  none, refl, true, sym, In, In-append_right, List, Bytes, Option, [], ◌++◌, ◌∷◌, ◌≡◌, ◌∙◌, ◌⊎◌,
  ◌↔◌,
}
use instance_lib.Prelude.Map.{Map, lookup, lookup-insert}
use instance_lib.Jwt.{Jwt}
use instance_lib.AppleJwks.{
  Jwk, Jwks, is_usable, is_some_text, is_other_use, put_key, load_from, load_apple_jwt_keys,
}

-- An RSA key that is not marked for another use than signatures.
abbrev IsSigning : Jwk → Type 0
IsSigning k =
    (k.kty ≡ some (codes "RSA")) × ((k.use_field ≡ none) ⊎ (k.use_field ≡ some (codes "sig")))

kty_lem : (k : Jwk) → is_usable k ≡ true → k.kty ≡ some (codes "RSA")
unfolding is_usable
kty_lem k h = elim (Option-cases k.kty) [
  | inl e ↦ absurd (cc (rw e at h))
  | inr (kty, e) ↦ let same = (bytes_eq_iff kty (codes "RSA")).0 (ground arith) in e ∙ ap some same
]

use_lem : (k : Jwk) → is_usable k ≡ true → (k.use_field ≡ none) ⊎ (k.use_field ≡ some (codes "sig"))
unfolding is_usable
use_lem k h = elim (Option-cases k.use_field) [
  | inl e ↦ inl e
  | inr (u, e) ↦
      let same = (bytes_eq_iff u (codes "sig")).0 (ground arith) in inr (e ∙ ap some same)
]

IsSigning-is_usable : (k : Jwk) → IsSigning k → is_usable k ≡ true
unfolding is_usable is_some_text is_other_use bytes_eq
IsSigning-is_usable k (kty, inl e) = rw (kty, e) refl
IsSigning-is_usable k (kty, inr e) = rw (kty, e) refl

module _ (jwt : Jwt) where
  -- What makes a key of the document the one of a `kid`.
  abbrev pub IsKeyOf : Bytes → jwt.Key → Jwk → Type 0
  IsKeyOf kid key k = (k.kid ≡ kid) × IsSigning k × (jwt.from_rsa_components k.n k.e ≡ some key)

  abbrev HasNone : Bytes → List Jwk → Type 0
  HasNone kid ks = (j : Jwk) → In j ks → (key : jwt.Key) → ¬ IsKeyOf kid key j

  -- The last one of the document.
  pub record IsLast (doc : List Jwk) (kid : Bytes) (key : jwt.Key) : Type 0 where
    pub before : List Jwk
    pub k : Jwk
    pub later : List Jwk
    pub split : doc ≡ before ++ k ∷ later
    pub is_key : IsKeyOf kid key k
    pub no_other : HasNone kid later

  abbrev stepped : Jwk → Map jwt.Key → Map jwt.Key
  stepped k out = if is_usable k then put_key jwt k (jwt.from_rsa_components k.n k.e) out else out

  step_cases :
      (kid : Bytes) (k : Jwk) (out : Map jwt.Key)
      → ((key : jwt.Key) × IsKeyOf kid key k × (lookup kid (stepped k out) ≡ some key))
        ⊎ (((key : jwt.Key) → ¬ IsKeyOf kid key k) × (lookup kid (stepped k out) ≡ lookup kid out))
  step_cases kid k out = elim (Bool-cases (is_usable k)) [
    | inr e ↦ inr (rw e (λ key i. cc (IsSigning-is_usable k i.1, e), refl))
    | inl e ↦ elim (Option-cases (jwt.from_rsa_components k.n k.e)) [
      | inl bad ↦ inr (rw (e, bad) (λ key i. cc (i.2), refl))
      | inr (dk, good) ↦ elim (Bool-cases (bytes_eq k.kid kid)) [
        | inl same ↦ inl (
          dk,
          ((bytes_eq_iff k.kid kid).0 same, (kty_lem k e, use_lem k e), good),
          rw (e, good, lookup-insert kid k.kid dk out, same) refl,
        )
        | inr other ↦ inr (
          λ key i. cc ((bytes_eq_iff k.kid kid).1 i.0, other),
          rw (e, good, lookup-insert kid k.kid dk out, other) refl,
        )
      ]
    ]
  ]

  IsLast-later :
      (j : Jwk) (ks : List Jwk) (kid : Bytes) (key : jwt.Key)
      → IsLast ks kid key
      → IsLast (j ∷ ks) kid key
  IsLast-later j ks kid key i = record {
    before = j ∷ i.before;
    k = i.k;
    later = i.later;
    split = ap (λ rest. j ∷ rest) i.split;
    is_key = i.is_key;
    no_other = i.no_other;
  }

  none_first :
      (kid : Bytes) (k : Jwk) (ks : List Jwk)
      → ((key : jwt.Key) → ¬ IsKeyOf kid key k)
      → HasNone kid ks
      → HasNone kid (k ∷ ks)
  none_first kid k ks first rest j (inl same) = rw (← same) first
  none_first kid k ks first rest j (inr h) = rest j h

  load_from_cases :
      (ks : List Jwk) (out : Map jwt.Key) (kid : Bytes)
      → ((key : jwt.Key) × IsLast ks kid key × (lookup kid (load_from jwt ks out) ≡ some key))
        ⊎ (HasNone kid ks × (lookup kid (load_from jwt ks out) ≡ lookup kid out))
  unfolding load_from
  load_from_cases [] out kid = inr (λ j h. absurd h, refl)
  load_from_cases (k ∷ ks) out kid = elim (load_from_cases ks (stepped k out) kid) [
    | inl (key, i, e) ↦ inl (key, IsLast-later k ks kid key i, e)
    | inr (rest, e) ↦ elim (step_cases kid k out) [
      | inl (key, i, f) ↦ inl (
        key,
        record { before = []; k = k; later = ks; split = refl; is_key = i; no_other = rest },
        e ∙ f,
      )
      | inr (first, f) ↦ inr (none_first kid k ks first rest, e ∙ f)
    ]
  ]

  IsLast-In : (ks : List Jwk) (kid : Bytes) (key : jwt.Key) → (i : IsLast ks kid key) → In i.k ks
  IsLast-In ks kid key i = rw i.split (In-append_right i.k i.before (i.k ∷ i.later) (inl refl))

  step_key :
      (kid : Bytes) (k : Jwk) (key : jwt.Key) (out : Map jwt.Key)
      → IsKeyOf kid key k
      → lookup kid (stepped k out) ≡ some key
  step_key kid k key out held = elim (step_cases kid k out) [
    | inl (other, i, e) ↦ e ∙ sym i.2 ∙ held.2
    | inr (never, e) ↦ absurd (never key held)
  ]

  load_from_last :
      (before : List Jwk) (kid : Bytes) (key : jwt.Key) (k : Jwk) (later : List Jwk)
      (out : Map jwt.Key)
      → IsKeyOf kid key k
      → HasNone kid later
      → lookup kid (load_from jwt (before ++ k ∷ later) out) ≡ some key
  unfolding load_from
  load_from_last [] kid key k later out held alone =
      elim (load_from_cases later (stepped k out) kid) [
        | inl (other, i, e) ↦ absurd (alone i.k (IsLast-In later kid other i) other i.is_key)
        | inr (rest, e) ↦ e ∙ step_key kid k key out held
      ]
  load_from_last (b ∷ before) kid key k later out held alone =
      load_from_last before kid key k later (stepped b out) held alone

  load_from_iff :
      (ks : List Jwk) (kid : Bytes) (key : jwt.Key)
      → (lookup kid (load_from jwt ks []) ≡ some key) ↔ IsLast ks kid key
  unfolding lookup
  load_from_iff ks kid key = (
    λ h. elim (load_from_cases ks [] kid) [
      | inl (other, i, e) ↦ let same : other ≡ key = cc in rw (← same) i
      | inr (rest, e) ↦ absurd (cc)
    ],
    λ i. rw i.split (load_from_last i.before kid key i.k i.later [] i.is_key i.no_other),
  )

  -- There is a set of pinned keys only where the document parses. It holds a key under a `kid` exactly
  -- where the key is built from the last one of the document that has this `kid`, is an RSA key, is
  -- not marked for another use than signatures and has components that make a key.
  pub load_apple_jwt_keys_iff :
      (parse_jwks : Bytes → Option Jwks) (jwks_json : Bytes) (keys : Map jwt.Key)
      → load_apple_jwt_keys jwt parse_jwks jwks_json ≡ some keys
      → (doc : Jwks) × (parse_jwks jwks_json ≡ some doc)
        × ((kid : Bytes) (key : jwt.Key) → (lookup kid keys ≡ some key) ↔ IsLast doc.keys kid key)
  unfolding load_apple_jwt_keys
  load_apple_jwt_keys_iff parse_jwks jwks_json keys e = elim (Option-cases (parse_jwks jwks_json)) [
    | inl f ↦ absurd (cc (rw f at e))
    | inr (doc, f) ↦
        let same : load_from jwt doc.keys [] ≡ keys = cc (rw f at e) in
        (doc, f, λ kid key. rw (← same) (load_from_iff doc.keys kid key))
  ]
