-- ===== src/State/RateLimit.antt =====
-- `MemberStore::allow_attestation` over time: what a member gets, whatever the others do.
use instance_lib.Prelude.{
  refl, subst, inr, inl, ℕ, ◌+◌, ◌-◌, ◌*◌, ◌^◌, ◌≤◌, ◌≡◌, ◌&&◌, Option, none, some, false, List, [],
  ◌∷◌, arith, bytes_eq, bytes_eq_iff, if◌then◌else◌, Bool-cases, leb,
}
use Prim.Native.Nat.{min}
use instance_lib.Prelude.Map.{lookup, lookup-insert, lookup-insert_self}
use instance_lib.Float.{one, f64_add, f64_sub, f64_mul, as_secs_f64}
use instance_lib.Float.Bounds.{f64_add-le, f64_sub-le, f64_mul-le, as_secs_f64-le}
use instance_lib.State.{
  Inner, Pubkey, Bucket, allow_attestation, whole_token, attest_burst, attest_refill_per_sec,
  refilled, bucket_or_full, spend,
}

a_tenth : attest_refill_per_sec ≡ 3602879701896397 * 2 ^ 1019
unfolding attest_refill_per_sec
a_tenth = refl

refilled-le_burst : (b : Bucket) (now : ℕ) → refilled b now ≤ attest_burst
unfolding refilled
refilled-le_burst b now = omega arith

refilled-le_sum :
    (b : Bucket) (now : ℕ)
    → refilled b now ≤ f64_add b.0 (f64_mul (as_secs_f64 (now - b.1)) (3602879701896397 * 2 ^ 1019))
unfolding refilled
refilled-le_sum b now =
    subst (λ r. refilled b now ≤ f64_add b.0 (f64_mul (as_secs_f64 (now - b.1)) r)) a_tenth
      (omega arith)

-- A refill adds a unit of 10^-10 tokens for each nanosecond, and what rounding adds.
refilled-le :
    (b : Bucket) (now : ℕ)
    → refilled b now * 10 ^ 25
      ≤ min b.0 attest_burst * 10 ^ 25 + (now - b.1) * one * (10 ^ 15 + 1) + 5552 * 10 ^ 6 * one
refilled-le b now =
    let t = as_secs_f64 (now - b.1) in
    let added = f64_mul t (3602879701896397 * 2 ^ 1019) in
    omega (
      arith,
      refilled-le_burst b now,
      refilled-le_sum b now,
      f64_add-le b.0 added,
      f64_mul-le t (3602879701896397 * 2 ^ 1019),
      as_secs_f64-le (now - b.1),
    )

-- What a bucket counts for; no bucket is a full one.
abbrev level : Option Bucket → ℕ
level none = attest_burst
level (some b) = min b.0 attest_burst

-- When a bucket was refilled last.
abbrev pub since : Option Bucket → Option ℕ
since none = none
since (some b) = some b.1

abbrev elapsed : Option ℕ → ℕ → ℕ
elapsed none now = 0
elapsed (some t) now = now - t

refill :
    (o : Option Bucket) (now : ℕ)
    → refilled (bucket_or_full o now) now * 10 ^ 25
      ≤ level o * 10 ^ 25 + elapsed (since o) now * one * (10 ^ 15 + 1) + 5552 * 10 ^ 6 * one
refill none now = omega (arith, refilled-le (attest_burst, now) now)
refill (some b) now = refilled-le b now

-- A grant takes a token off what the bucket counts for, but for what rounding adds.
spend-level :
    (pk : Pubkey) (now amount : ℕ) (g : Inner)
    → amount ≤ attest_burst
    → let (g', allowed) = spend pk now amount g in
      ((if allowed then whole_token else 0) * 10 ^ 25
          + level (lookup pk g'.attest_buckets) * 10 ^ 25
        ≤ amount * 10 ^ 25 + 4442 * 10 ^ 6 * one)
      × (since (lookup pk g'.attest_buckets) ≡ some now)
spend-level pk now amount g h = elim (Bool-cases (leb whole_token amount)) [
  | inl e ↦
      rw (e, lookup-insert_self pk (f64_sub amount whole_token, now) g.attest_buckets)
        (
          let enough : whole_token ≤ amount = ground arith in
              omega (arith, f64_sub-le amount whole_token, enough),
          refl,
        )
  | inr e ↦ rw (e, lookup-insert_self pk (amount, now) g.attest_buckets) (omega arith, refl)
]

-- A member's own call.
own_call :
    (pk : Pubkey) (now : ℕ) (g : Inner)
    → let (g', allowed) = allow_attestation pk now g in
      ((if allowed then whole_token else 0) * 10 ^ 25
          + level (lookup pk g'.attest_buckets) * 10 ^ 25
        ≤ level (lookup pk g.attest_buckets) * 10 ^ 25
          + elapsed (since (lookup pk g.attest_buckets)) now * one * (10 ^ 15 + 1)
          + 10 ^ 10 * one)
      × (since (lookup pk g'.attest_buckets) ≡ some now)
unfolding allow_attestation
own_call pk now g =
    let o = lookup pk g.attest_buckets in
    let amount = refilled (bucket_or_full o now) now in
    let (taken, when) =
      spend-level pk now amount g (refilled-le_burst (bucket_or_full o now) now) in
    (omega (arith, refill o now, taken), when)

-- Others' calls leave a bucket alone.
others_call :
    (pk q : Pubkey) (now : ℕ) (g : Inner)
    → bytes_eq q pk ≡ false
    → lookup pk (allow_attestation q now g).0.attest_buckets ≡ lookup pk g.attest_buckets
unfolding allow_attestation
others_call pk q now g h = go (refilled (bucket_or_full (lookup q g.attest_buckets) now) now)
  where
    go :
        (amount : ℕ)
        → lookup pk (spend q now amount g).0.attest_buckets ≡ lookup pk g.attest_buckets
    go amount = elim (Bool-cases (leb whole_token amount)) [
      | inl e ↦ rw (e, lookup-insert pk q (f64_sub amount whole_token, now) g.attest_buckets, h)
      | inr e ↦ rw (e, lookup-insert pk q (amount, now) g.attest_buckets, h)
    ]

-- A run of calls by any members, each with the instant that it read: how many of them `pk` is granted,
-- and how many it makes.
unfoldable pub grants : Pubkey → List (Pubkey × ℕ) → Inner → ℕ
grants pk [] g = 0
grants pk ((q, now) ∷ calls) g =
    let (g', allowed) = allow_attestation q now g in
    let rest = grants pk calls g' in if bytes_eq q pk && allowed then 1 + rest else rest

abbrev pub asked : Pubkey → List (Pubkey × ℕ) → ℕ
asked pk [] = 0
asked pk ((q, now) ∷ calls) = let rest = asked pk calls in if bytes_eq q pk then 1 + rest else rest

-- The nanoseconds that pass from one call of `pk` to its next one, in all, where the instants go
-- forward; the first call counts from `last`, where there is one.
abbrev pub waited : Pubkey → Option ℕ → List (Pubkey × ℕ) → ℕ
waited pk last [] = 0
waited pk last ((q, now) ∷ calls) =
    if bytes_eq q pk then elapsed last now + waited pk (some now) calls else waited pk last calls

grants-le_level :
    (pk : Pubkey) (calls : List (Pubkey × ℕ)) (g : Inner)
    → grants pk calls g * one * 10 ^ 25
      ≤ level (lookup pk g.attest_buckets) * 10 ^ 25
        + waited pk (since (lookup pk g.attest_buckets)) calls * one * (10 ^ 15 + 1)
        + asked pk calls * (10 ^ 10 * one)
unfolding grants
grants-le_level pk [] g = omega arith
grants-le_level pk ((q, now) ∷ calls) g = elim (Bool-cases (bytes_eq q pk)) [
  | inr other ↦
      let rest = grants-le_level pk calls (allow_attestation q now g).0 in
      let same = others_call pk q now g other in rw other (rw same at rest)
  | inl same ↦
      let rest = grants-le_level pk calls (allow_attestation pk now g).0 in
      let (taken, when) = own_call pk now g in
      let later = rw when at rest in
      rw (same, (bytes_eq_iff q pk).0 same)
        (elim (Bool-cases (allow_attestation pk now g).1) [
          | inl granted ↦ let cost = rw granted at taken in rw granted (omega (arith, later, cost))
          | inr refused ↦ let cost = rw refused at taken in rw refused (omega (arith, later, cost))
        ])
]

-- In a run of calls by any members, at instants that may go back and whatever the store held at the
-- start, a member is granted at most the burst of five, one for each ten seconds that passed from one of
-- its calls to the next one, the first of them from the last refill of its bucket, counted where the
-- instants go forward, and what `f64` rounds up: of these seconds one part in 10^15, and for each call
-- of the member 10^-15 of a token.
pub grants_bounded :
    (pk : Pubkey) (calls : List (Pubkey × ℕ)) (g : Inner)
    → grants pk calls g * 10 ^ 25
      ≤ 5 * 10 ^ 25
        + waited pk (since (lookup pk g.attest_buckets)) calls * (10 ^ 15 + 1)
        + asked pk calls * 10 ^ 10
grants_bounded pk calls g =
    omega (arith, grants-le_level pk calls g, full (lookup pk g.attest_buckets))
  where
    full : (o : Option Bucket) → level o ≤ attest_burst
    full none = omega arith
    full (some b) = omega arith
