-- ===== src/Codec/Base64/Errors.antt =====
-- When the base64 decoder gives up.
use instance_lib.Prelude.{
  ◌⊎◌, ◌≤◌, true, arith, ◌-◌, ℕ, Bytes, In, ◌≡◌, ◌↔◌, ◌∷◌, [], none, some, Option, false, inl, inr,
  Bool-cases, Option-cases, leb, ◌+◌, subst, refl,
}
use mathlib.Core.Option
use instance_lib.Codec.Base64.{shifted_in, b64_val, is_skipped, b64_bytes, b64_decode_any}

-- A letter, a figure, one of `+`, `-`, `/` and `_`, or one of `=`, line feed and carriage return.
abbrev pub IsAllowed : ℕ → Type 0
IsAllowed c =
    (65 ≤ c × c ≤ 90)
    ⊎ (97 ≤ c × c ≤ 122)
    ⊎ (48 ≤ c × c ≤ 57)
    ⊎ (c ≡ 43)
    ⊎ (c ≡ 45)
    ⊎ (c ≡ 47)
    ⊎ (c ≡ 95)
    ⊎ (c ≡ 61)
    ⊎ (c ≡ 10)
    ⊎ (c ≡ 13)

-- The text has a character that is not allowed.
abbrev pub HasFlaw : Bytes → Type 0
HasFlaw s = (c : ℕ) × In c s × ¬ IsAllowed c

skipped-IsAllowed : (c : ℕ) → is_skipped c ≡ true → IsAllowed c
unfolding is_skipped
skipped-IsAllowed c h = ground arith

digit-IsAllowed : (c v : ℕ) → b64_val c ≡ some v → IsAllowed c
unfolding b64_val
digit-IsAllowed c v h = ground arith

neither : (c : ℕ) → is_skipped c ≡ false → b64_val c ≡ none → ¬ IsAllowed c
unfolding is_skipped b64_val
neither c skip bad = ground arith

later : (c : ℕ) (s : Bytes) → IsAllowed c → HasFlaw (c ∷ s) → HasFlaw s
later c s fine (d, inl e, bad) = absurd (bad (subst IsAllowed e fine))
later c s fine (d, inr held, bad) = (d, held, bad)

sooner : (c : ℕ) (s : Bytes) → HasFlaw s → HasFlaw (c ∷ s)
sooner c s (d, held, bad) = (d, inr held, bad)

map-none : {A B : Type 0} (f : A → B) (o : Option A) → Option.map f o ≡ none → o ≡ none
map-none f none e = refl
map-none f (some a) e = absurd (cc)

b64_bytes-none : (acc nbits : ℕ) (s : Bytes) → (b64_bytes acc nbits s ≡ none) ↔ HasFlaw s
unfolding b64_bytes
b64_bytes-none acc nbits [] = (λ e. absurd (cc), λ (c, held, bad). absurd held)
b64_bytes-none acc nbits (c ∷ s) = elim (Bool-cases (is_skipped c)) [
  | inl skip ↦
      let rest = b64_bytes-none acc nbits s in
      (
        λ e. sooner c s (rest.0 (rw (skip, b64_bytes) at e)),
        λ h. rw (b64_bytes, skip) (rest.1 (later c s (skipped-IsAllowed c skip) h)),
      )
  | inr digit ↦ elim (Option-cases (b64_val c)) [
    | inl bad ↦ (λ e. (c, inl refl, neither c digit bad), λ h. rw (b64_bytes, digit, bad) refl)
    | inr (v, e) ↦
        let fine = digit-IsAllowed c v e in
        elim (Bool-cases (leb 8 (nbits + 6))) [
          | inl whole ↦
              let rest = b64_bytes-none (shifted_in acc v) (nbits + 6 - 8) s in
              (
                λ h. sooner c s (rest.0 (map-none _ _ (rw (digit, e, whole, b64_bytes) at h))),
                λ h. rw (b64_bytes, digit, e, whole, rest.1 (later c s fine h)) refl,
              )
          | inr part ↦
              let rest = b64_bytes-none (shifted_in acc v) (nbits + 6) s in
              (
                λ h. sooner c s (rest.0 (rw (digit, e, part, b64_bytes) at h)),
                λ h. rw (b64_bytes, digit, e, part) (rest.1 (later c s fine h)),
              )
        ]
  ]
]

-- A text does not decode exactly where it has a character that is none of the letters, the figures,
-- `+`, `-`, `/`, `_`, `=`, the line feed and the carriage return: a space or a tab, say.
pub b64_decode_any-none_iff : (s : Bytes) → (b64_decode_any s ≡ none) ↔ HasFlaw s
unfolding b64_decode_any
b64_decode_any-none_iff s = b64_bytes-none 0 0 s
