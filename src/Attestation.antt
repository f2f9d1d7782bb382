-- ===== src/Attestation.antt =====
-- src/attestation.rs: the `/attestation` handler. The kernel's report interface, the helper command
-- and its JSON are arguments of the model. Its base64 encoder stands in Codec.Base64.
pub mod Quote
pub mod Gpus
pub mod Reports
pub mod Laws
pub mod Fuel
pub mod Lifts
pub mod Pem
pub mod Frame
pub mod Entries
mod Tests
mod UnitTests
use instance_lib.Prelude.{
  ◌==◌, zero, length, ◌+◌, guard, not, suc, ◌>>◌, true, if◌then◌else◌, [], ◌∷◌, some, Bool, codes,
  ◌>>=◌, ◌++◌, List, Option, ℕ, Bytes, map, none,
}
use instance_lib.Codec.Hex.{hex_decode}
use instance_lib.Codec.Base64.{b64_encode}
use instance_lib.Http.{Response, json, err, bad_request, too_many_requests, service_unavailable}
use instance_lib.State.{Inner, Pubkey, allow_attestation}
use instance_lib.Attestation.Quote.{Tsm, Kernel, tdx_quote, pck_chain_from_quote}
use instance_lib.Attestation.Gpus.{Helper, gpu_reports_all}

-- The version-2 envelope, its texts in base64.
pub record Envelope : Type 0 where
  pub cpu_report : Bytes
  pub cpu_chain : List Bytes
  pub gpu_reports : List Bytes
  pub gpu_chains : List (List Bytes)

-- What the blocking part gives: the quote, its chain, and a report with its chain for each GPU.
pub record Evidence : Type 0 where
  pub quote : Bytes
  pub cpu_chain : List Bytes
  pub gpus : List (Bytes × List Bytes)

abbrev pub expected_gpu_count : ℕ
expected_gpu_count = 8

-- The 64 bytes of REPORTDATA.
abbrev pub report_data : Bytes → Bytes → Bytes
report_data nonce spki = nonce ++ spki

abbrev pub envelope_of : Evidence → Envelope
envelope_of v = record {
  cpu_report = b64_encode v.quote;
  cpu_chain = map b64_encode v.cpu_chain;
  gpu_reports = map (λ (g : Bytes × List Bytes). b64_encode g.0) v.gpus;
  gpu_chains = map (λ (g : Bytes × List Bytes). map b64_encode g.1) v.gpus;
}

-- `Some(b) if b.len() == 32`.
unfoldable pub nonce_of : Bytes → Option Bytes
nonce_of nonce_hex = do b ← hex_decode nonce_hex; guard (length b == 32); some b

module _ (sha256 : Bytes → Bytes) where
  unfoldable pub derive_gpu_nonce : Bytes → Bytes → ℕ → Bytes
  derive_gpu_nonce nonce spki_sha256 index = sha256 (nonce ++ (spki_sha256 ++ (index ∷ [])))

  -- `(from..from + count).map(…)`.
  unfoldable pub gpu_nonces : Bytes → Bytes → ℕ → ℕ → List Bytes
  gpu_nonces nonce spki from zero = []
  gpu_nonces nonce spki from (suc count) =
      derive_gpu_nonce nonce spki from ∷ gpu_nonces nonce spki (from + 1) count

  module _ (kernel : Kernel) (helper : Helper) where
    abbrev with_gpus : Bytes → Option (List (Bytes × List Bytes)) → Option Evidence
    with_gpus quote none = none
    with_gpus quote (some gpus) =
        some (record { quote = quote; cpu_chain = pck_chain_from_quote quote; gpus = gpus })

    -- After the quote: the helper runs only where there is one.
    abbrev with_quote : List Bytes → Option Bytes → Option Evidence
    with_quote nonces none = none
    with_quote nonces (some quote) = with_gpus quote (gpu_reports_all helper nonces)

    -- The closure of `spawn_blocking`.
    unfoldable pub gather : Bytes → List Bytes → Tsm kernel → Tsm kernel × Option Evidence
    gather data' nonces tsm =
        let (tsm', quoted) = tdx_quote kernel data' tsm in (tsm', with_quote nonces quoted)

    abbrev answer : Option Evidence → Response Envelope
    answer none = err service_unavailable (codes "attestation unavailable")
    answer (some v) = json (envelope_of v)

    -- The request after the rate limit.
    unfoldable pub attest : Bytes → Option Bytes → Tsm kernel → Tsm kernel × Response Envelope
    attest spki none tsm = (tsm, err bad_request (codes "missing nonce"))
    attest spki (some nonce_hex) tsm = elim (nonce_of nonce_hex) [
      | none ↦ (tsm, err bad_request (codes "nonce must be 32 bytes hex"))
      | some nonce ↦
          let (tsm', found) =
            gather (report_data nonce spki) (gpu_nonces nonce spki 0 expected_gpu_count) tsm in
          (tsm', answer found)
    ]

    -- Whether the client's pubkey, where there is one, is within its rate.
    abbrev pub within_rate : Option Pubkey → ℕ → Inner → Inner × Bool
    within_rate none now members = (members, true)
    within_rate (some pk) now members = allow_attestation pk now members

    unfoldable pub handler :
        Option Pubkey
        → ℕ
        → Bytes
        → Option Bytes
        → Inner
        → Tsm kernel
        → Inner × (Tsm kernel × Response Envelope)
    handler client now spki nonce members tsm =
        let (members', allowed) = within_rate client now members in
        if not allowed
        then (members', (tsm, err too_many_requests (codes "attestation rate limit")))
        else (members', attest spki nonce tsm)
