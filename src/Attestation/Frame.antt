-- ===== src/Attestation/Frame.antt =====
-- What an attestation does to the store.
use instance_lib.Prelude.{arith, ◌≡◌, refl, inr, inl, Bool-cases, some, ℕ, Option, Bytes, none}
use instance_lib.Prelude.Map.{lookup}
use instance_lib.State.{spend, refilled, bucket_or_full, Inner, Pubkey, allow_attestation}
use instance_lib.State.Frame.{SameMembers, allow_attestation-SameMembers}
use instance_lib.Attestation.{handler}
use instance_lib.Attestation.Quote.{Tsm, Kernel}
use instance_lib.Attestation.Gpus.{Helper}

pub handler-SameMembers :
    (sha256 : Bytes → Bytes) (kernel : Kernel) (helper : Helper) (client : Option Pubkey) (now : ℕ)
    (spki : Bytes) (given : Option Bytes) (members : Inner) (tsm : Tsm kernel)
    → SameMembers members (handler sha256 kernel helper client now spki given members tsm).0
unfolding handler
handler-SameMembers sha256 kernel helper none now spki given members tsm = record {
  pubkeys = refl;
  tokens = refl;
}
handler-SameMembers sha256 kernel helper (some pk) now spki given members tsm =
    elim (Bool-cases (allow_attestation pk now members).1) [
      | inl within ↦ rw (within, handler) (allow_attestation-SameMembers pk now members)
      | inr over ↦ rw (over, handler) (allow_attestation-SameMembers pk now members)
    ]

seen-spend :
    (pk : Pubkey) (now amount : ℕ) (g : Inner)
    → (spend pk now amount g).0.seen_nonces ≡ g.seen_nonces
seen-spend pk now amount g = ground arith

seen-allow_attestation :
    (pk : Pubkey) (now : ℕ) (g : Inner) → (allow_attestation pk now g).0.seen_nonces ≡ g.seen_nonces
unfolding allow_attestation
seen-allow_attestation pk now g =
    seen-spend pk now (refilled (bucket_or_full (lookup pk g.attest_buckets) now) now) g

pub seen-handler :
    (sha256 : Bytes → Bytes) (kernel : Kernel) (helper : Helper) (client : Option Pubkey) (now : ℕ)
    (spki : Bytes) (given : Option Bytes) (members : Inner) (tsm : Tsm kernel)
    → (handler sha256 kernel helper client now spki given members tsm).0.seen_nonces
      ≡ members.seen_nonces
unfolding handler
seen-handler sha256 kernel helper none now spki given members tsm = refl
seen-handler sha256 kernel helper (some pk) now spki given members tsm =
    elim (Bool-cases (allow_attestation pk now members).1) [
      | inl within ↦ rw (within, handler) (seen-allow_attestation pk now members)
      | inr over ↦ rw (over, handler) (seen-allow_attestation pk now members)
    ]
