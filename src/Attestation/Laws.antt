-- ===== src/Attestation/Laws.antt =====
-- What stands behind an attestation that is answered.
use instance_lib.Prelude.{
  subst, map, ap, sym, false≢true, ◌↔◌, true, ◌∙◌, guard-eq-some, refl, inr, ◌==◌, inl, guard,
  Option-cases, Bool-cases, >>=-eq-some, arith, ◌++◌, some, length, Option, ◌≡◌, ℕ, Bytes, List,
  none,
}
use instance_lib.Codec.Hex.{hex_decode}
use instance_lib.Http.{json}
use instance_lib.State.{Inner, Pubkey}
use instance_lib.Attestation.{
  Envelope, envelope_of, nonce_of, gpu_nonces, gather, attest, handler, within_rate,
}
use instance_lib.Attestation.Quote.{pck_chain_from_quote, Tsm, Kernel, tdx_quote}
use instance_lib.Attestation.Gpus.{Helper, gpu_reports_all}
use instance_lib.Attestation.Reports.{
  IsReported, challenges_of, gpu_reports_all-IsReported, IsReported-gpu_reports_all,
  gpu_nonces-challenges_of,
}
use instance_lib.Codec.Base64.{b64_encode}

nonce_of_lem :
    (text nonce : Bytes)
    → nonce_of text ≡ some nonce
    → (hex_decode text ≡ some nonce) × (length nonce ≡ 32)
unfolding nonce_of
nonce_of_lem text nonce e =
    let (b, e1, k1) = >>=-eq-some (hex_decode text) _ e in
    let (u, e2, k2) = >>=-eq-some (guard (length b == 32)) _ k1 in
    let size = guard-eq-some (length b == 32) e2 in (ground arith, ground arith)

nonce_of_exact :
    (text nonce : Bytes)
    → hex_decode text ≡ some nonce
    → length nonce ≡ 32
    → nonce_of text ≡ some nonce
unfolding nonce_of
nonce_of_exact text nonce e size =
    let exact : (length nonce == 32) ≡ true = ground arith in rw (e, exact) refl

module _ (sha256 : Bytes → Bytes) (kernel : Kernel) (helper : Helper) where
  -- What stands behind an attestation that is answered, and the envelope it is answered with.
  pub record IsAttested (spki : Bytes) (given : Option Bytes) (tsm : Tsm kernel) (env : Envelope)
      : Type 0 where
    pub text : Bytes
    pub asked : given ≡ some text
    pub nonce : Bytes
    pub decoded : (hex_decode text ≡ some nonce) × (length nonce ≡ 32)
    pub quote : Bytes
    pub quoted : (tdx_quote kernel (nonce ++ spki) tsm).1 ≡ some quote
    pub gpus : List (Bytes × List Bytes)
    pub reported : IsReported helper (challenges_of sha256 nonce spki) gpus
    pub cpu_report : env.cpu_report ≡ b64_encode quote
    pub cpu_chain : env.cpu_chain ≡ map b64_encode (pck_chain_from_quote quote)
    pub gpu_reports : env.gpu_reports ≡ map (λ (g : Bytes × List Bytes). b64_encode g.0) gpus
    pub gpu_chains : env.gpu_chains ≡ map (λ (g : Bytes × List Bytes). map b64_encode g.1) gpus

  abbrev sent : Bytes → List (Bytes × List Bytes) → Envelope
  sent quote gpus =
      envelope_of (record { quote = quote; cpu_chain = pck_chain_from_quote quote; gpus = gpus })

  attested :
      (spki text nonce quote : Bytes) (gpus : List (Bytes × List Bytes)) (tsm : Tsm kernel)
      → nonce_of text ≡ some nonce
      → (tdx_quote kernel (nonce ++ spki) tsm).1 ≡ some quote
      → gpu_reports_all helper (gpu_nonces sha256 nonce spki 0 8) ≡ some gpus
      → IsAttested spki (some text) tsm (sent quote gpus)
  attested spki text nonce quote gpus tsm good quoted reported = record {
    text = text;
    asked = refl;
    nonce = nonce;
    decoded = nonce_of_lem text nonce good;
    quote = quote;
    quoted = quoted;
    gpus = gpus;
    reported =
        gpu_reports_all-IsReported helper (challenges_of sha256 nonce spki) gpus (
          ap (gpu_reports_all helper) (sym (gpu_nonces-challenges_of sha256 nonce spki))
          ∙ reported);
    cpu_report = refl;
    cpu_chain = refl;
    gpu_reports = refl;
    gpu_chains = refl;
  }

  pub attest-IsAttested :
      (spki : Bytes) (given : Option Bytes) (tsm : Tsm kernel) (env : Envelope)
      → (attest sha256 kernel helper spki given tsm).1 ≡ json env
      → IsAttested spki given tsm env
  unfolding attest gather
  attest-IsAttested spki none tsm env e = absurd (cc)
  attest-IsAttested spki (some text) tsm env e = elim (Option-cases (nonce_of text)) [
    | inl bad ↦ absurd (cc (rw (bad, attest) at e))
    | inr (nonce, good) ↦
        let e' = rw (good, attest) at e in
        elim (Option-cases ((tdx_quote kernel (nonce ++ spki) tsm).1)) [
          | inl bad ↦ absurd (cc (rw bad at e'))
          | inr (quote, q) ↦
              let e'' = rw q at e' in
              elim (Option-cases (gpu_reports_all helper (gpu_nonces sha256 nonce spki 0 8))) [
                | inl bad ↦ absurd (cc (rw bad at e''))
                | inr (gpus, r) ↦
                    let same : sent quote gpus ≡ env = ground (arith, rw r at e'') in
                    subst (IsAttested spki (some text) tsm) same
                      (attested spki text nonce quote gpus tsm good q r)
              ]
        ]
  ]

  attest_answers :
      (spki text nonce quote : Bytes) (gpus : List (Bytes × List Bytes)) (tsm : Tsm kernel)
      → nonce_of text ≡ some nonce
      → (tdx_quote kernel (nonce ++ spki) tsm).1 ≡ some quote
      → gpu_reports_all helper (gpu_nonces sha256 nonce spki 0 8) ≡ some gpus
      → (attest sha256 kernel helper spki (some text) tsm).1 ≡ json (sent quote gpus)
  unfolding attest gather
  attest_answers spki text nonce quote gpus tsm good quoted reported =
      rw (attest, good, quoted, reported) refl

  sent_is :
      (spki : Bytes) (given : Option Bytes) (tsm : Tsm kernel) (env : Envelope)
      (i : IsAttested spki given tsm env)
      → sent i.quote i.gpus ≡ env
  sent_is spki given tsm env i = λ k. record {
    cpu_report = sym i.cpu_report k;
    cpu_chain = sym i.cpu_chain k;
    gpu_reports = sym i.gpu_reports k;
    gpu_chains = sym i.gpu_chains k;
  }

  IsAttested-attest :
      (spki : Bytes) (given : Option Bytes) (tsm : Tsm kernel) (env : Envelope)
      → IsAttested spki given tsm env
      → (attest sha256 kernel helper spki given tsm).1 ≡ json env
  IsAttested-attest spki given tsm env i =
      ap (λ g. (attest sha256 kernel helper spki g tsm).1) i.asked
      ∙ attest_answers spki i.text i.nonce i.quote i.gpus tsm
          (nonce_of_exact i.text i.nonce i.decoded.0 i.decoded.1) i.quoted
          (ap (gpu_reports_all helper) (gpu_nonces-challenges_of sha256 i.nonce spki)
            ∙ IsReported-gpu_reports_all helper (challenges_of sha256 i.nonce spki) i.gpus
                i.reported)
      ∙ ap json (sent_is spki given tsm env i)

  -- The handler sends an envelope exactly where the client, if its pubkey is known, is within its
  -- rate and asked with a nonce of 32 bytes in hex, the kernel gave a quote over that nonce followed by
  -- the digest of the TLS key, and the helper command, that of the environment or the built-in one,
  -- asked for a report on each of the digests of that nonce, that key digest and one byte 0 to 7, in
  -- this order, succeeded with eight reports that are base64 and not empty, each with a chain of
  -- certificates in base64 that is not empty. The envelope holds the base64 of the quote, of the
  -- quote's certificates, and of these reports and chains, in their order.
  pub handler_iff :
      (client : Option Pubkey) (now : ℕ) (spki : Bytes) (given : Option Bytes) (members : Inner)
      (tsm : Tsm kernel) (env : Envelope)
      → ((handler sha256 kernel helper client now spki given members tsm).1.1 ≡ json env) ↔ (
          ((within_rate sha256 kernel helper client now members).1 ≡ true)
          × IsAttested spki given tsm env)
  unfolding handler
  handler_iff client now spki given members tsm env =
      elim (Bool-cases (within_rate sha256 kernel helper client now members).1) [
        | inr over ↦ (
          λ e. absurd (cc (rw (over, handler) at e)),
          λ (within, i). absurd (false≢true (sym over ∙ within)),
        )
        | inl within ↦ (
          λ e. (within, attest-IsAttested spki given tsm env (rw (within, handler) at e)),
          λ (w, i). rw (within, handler) (IsAttested-attest spki given tsm env i),
        )
      ]
