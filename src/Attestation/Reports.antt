-- ===== src/Attestation/Reports.antt =====
-- src/attestation.rs: what stands behind the GPU reports of `gpu_reports_all`, in terms of the helper
-- command alone.
use instance_lib.Prelude.{
  ◌⊎◌, ◌↔◌, ◌==◌, ◌||◌, not, map, ◌≢◌, refl, sym, ap, ◌∙◌, Option, none, some, Option-cases, inl,
  inr, true, ==_iff, Bytes, List, [], ◌∷◌, ◌++◌, ◌≡◌, length, arith, guard, guard-eq-some,
  >>=-eq-some, codes, traverse, subst, ◌>>◌,
}
use instance_lib.Codec.Hex.{hex_encode}
use instance_lib.Codec.Base64.{b64_decode_any}
use instance_lib.Attestation.{derive_gpu_nonce, gpu_nonces}
use instance_lib.Attestation.Gpus.{
  Gpu, Output, Helper, helper_cmd, arguments, decode_gpu, gpu_reports_all, is_empty,
}

traverse-some_iff :
    {A B : Type 0} (f : A → Option B) (xs : List A) (ys : List B)
    → (traverse f xs ≡ some ys) ↔ (map f xs ≡ map some ys)
traverse-some_iff f [] [] = (λ e. refl, λ e. refl)
traverse-some_iff f [] (y ∷ ys) = (λ e. absurd (cc), λ e. absurd (cc))
traverse-some_iff f (x ∷ xs) [] = (
  λ e. elim (Option-cases (f x)) [
    | inl bad ↦ absurd (cc (rw (traverse, bad) at e))
    | inr (y, good) ↦ elim (Option-cases (traverse f xs)) [
      | inl later ↦ absurd (cc (rw (traverse, good, later) at e))
      | inr (ys, later) ↦ absurd (cc (rw (traverse, good, later) at e))
    ]
  ],
  λ e. absurd (cc),
)
traverse-some_iff f (x ∷ xs) (y ∷ ys) =
    let rest = traverse-some_iff f xs ys in
    (
      λ e. elim (Option-cases (f x)) [
        | inl bad ↦ absurd (cc (rw (traverse, bad) at e))
        | inr (z, good) ↦ elim (Option-cases (traverse f xs)) [
          | inl later ↦ absurd (cc (rw (traverse, good, later) at e))
          | inr (zs, later) ↦
              let whole = rw (traverse, good, later) at e in
              let there : traverse f xs ≡ some ys = cc in let tail = rest.0 there in cc
        ]
      ],
      λ e.
          let there : map f xs ≡ map some ys = cc in
          let good : f x ≡ some y = cc in rw (traverse, good, rest.1 there) refl,
    )

abbrev pub concat : List (List Bytes) → List Bytes
concat [] = []
concat (xs ∷ xss) = xs ++ concat xss

-- One report: both of its texts are base64, and neither the report nor the chain is empty.
abbrev pub IsDecoded : Gpu → Bytes × List Bytes → Type 0
IsDecoded g (report, chain) =
    (b64_decode_any g.report ≡ some report)
    × (map b64_decode_any g.cert_chain ≡ map some chain)
    × (report ≢ [])
    × (chain ≢ [])

-- In the helper's order, and as many as it gave.
abbrev pub AreDecoded : List Gpu → List (Bytes × List Bytes) → Type 0
AreDecoded [] [] = Unit
AreDecoded [] (d ∷ ds) = ⊥
AreDecoded (g ∷ gs) [] = ⊥
AreDecoded (g ∷ gs) (d ∷ ds) = IsDecoded g d × AreDecoded gs ds

-- The helper, asked with the challenges in their order, succeeded and gave these reports.
pub record IsReported (helper : Helper) (challenges : List Bytes) (gpus : List (Bytes × List Bytes))
    : Type 0 where
  pub cmd : Bytes
  pub named :
      (helper.cmd_var ≡ some cmd)
      ⊎ ((helper.cmd_var ≡ none) × (cmd ≡ codes "/run/current-system/sw/bin/iron-gpu-report"))
  pub args : List Bytes
  pub asked : args ≡ concat (map (λ c. codes "--nonce-hex" ∷ hex_encode c ∷ []) challenges)
  pub out : Output
  pub ran : helper.run cmd args ≡ some out
  pub succeeded : out.success ≡ true
  pub found : List Gpu
  pub parsed : helper.parse out.stdout ≡ some found
  pub count : length found ≡ length challenges
  pub decoded : AreDecoded found gpus

arguments-concat :
    (nonces : List Bytes)
    → arguments nonces ≡ concat (map (λ c. codes "--nonce-hex" ∷ hex_encode c ∷ []) nonces)
unfolding arguments
arguments-concat [] = refl
arguments-concat (nonce ∷ nonces) =
    ap (λ s. codes "--nonce-hex" ∷ hex_encode nonce ∷ s) (arguments-concat nonces)

full_only :
    (report : Bytes) (chain : List Bytes) (d : Bytes × List Bytes)
    → (do guard (not (is_empty report || is_empty chain)); some (report, chain)) ≡ some d
    → ((report, chain) ≡ d) × (report ≢ []) × (chain ≢ [])
full_only [] chain d e = absurd (cc)
full_only (b ∷ report) [] d e = absurd (cc)
full_only (b ∷ report) (c ∷ chain) d e = (cc, λ h. absurd (cc), λ h. absurd (cc))

full_kept :
    (report : Bytes) (chain : List Bytes)
    → report ≢ []
    → chain ≢ []
    → (not (is_empty report || is_empty chain)) ≡ true
full_kept [] chain h k = absurd (h refl)
full_kept (b ∷ report) [] h k = absurd (k refl)
full_kept (b ∷ report) (c ∷ chain) h k = refl

decode_gpu-IsDecoded : (g : Gpu) (d : Bytes × List Bytes) → decode_gpu g ≡ some d → IsDecoded g d
unfolding decode_gpu
decode_gpu-IsDecoded g d e =
    let (r, e1, k1) = >>=-eq-some (b64_decode_any g.report) _ e in
    let (c, e2, k2) = >>=-eq-some (traverse b64_decode_any g.cert_chain) _ k1 in
    let (whole, full, chained) = full_only r c d k2 in
    subst (IsDecoded g) whole
      (e1, (traverse-some_iff b64_decode_any g.cert_chain c).0 e2, full, chained)

IsDecoded-decode_gpu : (g : Gpu) (d : Bytes × List Bytes) → IsDecoded g d → decode_gpu g ≡ some d
unfolding decode_gpu
IsDecoded-decode_gpu g (report, chain) (r, c, some_report, some_chain) =
    let chained = (traverse-some_iff b64_decode_any g.cert_chain chain).1 c in
    rw (r, chained, full_kept report chain some_report some_chain) refl

traverse-AreDecoded :
    (gs : List Gpu) (ds : List (Bytes × List Bytes))
    → (traverse decode_gpu gs ≡ some ds) ↔ AreDecoded gs ds
traverse-AreDecoded gs ds =
    let mapped = traverse-some_iff decode_gpu gs ds in
    (λ e. decoded gs ds (mapped.0 e), λ h. mapped.1 (mapped_back gs ds h))
  where
    decoded :
        (gs : List Gpu) (ds : List (Bytes × List Bytes))
        → map decode_gpu gs ≡ map some ds
        → AreDecoded gs ds
    decoded [] [] e = tt
    decoded [] (d ∷ ds) e = absurd (cc)
    decoded (g ∷ gs) [] e = absurd (cc)
    decoded (g ∷ gs) (d ∷ ds) e = (decode_gpu-IsDecoded g d (cc), decoded gs ds (cc))

    mapped_back :
        (gs : List Gpu) (ds : List (Bytes × List Bytes))
        → AreDecoded gs ds
        → map decode_gpu gs ≡ map some ds
    mapped_back [] [] h = refl
    mapped_back [] (d ∷ ds) h = absurd h
    mapped_back (g ∷ gs) [] h = absurd h
    mapped_back (g ∷ gs) (d ∷ ds) (here, h) =
        let first = IsDecoded-decode_gpu g d here in let rest = mapped_back gs ds h in cc

helper_cmd-named :
    (var : Option Bytes)
    → (var ≡ some (helper_cmd var))
      ⊎ ((var ≡ none) × (helper_cmd var ≡ codes "/run/current-system/sw/bin/iron-gpu-report"))
helper_cmd-named none = inr (refl, refl)
helper_cmd-named (some cmd) = inl refl

named-helper_cmd :
    (var : Option Bytes) (cmd : Bytes)
    → (var ≡ some cmd) ⊎ ((var ≡ none) × (cmd ≡ codes "/run/current-system/sw/bin/iron-gpu-report"))
    → helper_cmd var ≡ cmd
named-helper_cmd var cmd (inl e) = ap helper_cmd e
named-helper_cmd var cmd (inr (e, k)) = ap helper_cmd e ∙ sym k

module _ (helper : Helper) (challenges : List Bytes) (gpus : List (Bytes × List Bytes)) where
  pub gpu_reports_all-IsReported :
      gpu_reports_all helper challenges ≡ some gpus → IsReported helper challenges gpus
  unfolding gpu_reports_all
  gpu_reports_all-IsReported e =
      let (out, e1, k1) = >>=-eq-some (helper.run _ _) _ e in
      let (u, e2, k2) = >>=-eq-some (guard out.success) _ k1 in
      let (found, e3, k3) = >>=-eq-some (helper.parse out.stdout) _ k2 in
      let (v, e4, k4) = >>=-eq-some (guard (length found == length challenges)) _ k3 in
      let same = guard-eq-some (length found == length challenges) e4 in
      record {
        cmd = helper_cmd helper.cmd_var;
        named = helper_cmd-named helper.cmd_var;
        args = arguments challenges;
        asked = arguments-concat challenges;
        out = out;
        ran = e1;
        succeeded = guard-eq-some out.success e2;
        found = found;
        parsed = e3;
        count = ground arith;
        decoded = (traverse-AreDecoded found gpus).0 k4;
      }

  pub IsReported-gpu_reports_all :
      IsReported helper challenges gpus → gpu_reports_all helper challenges ≡ some gpus
  unfolding gpu_reports_all
  IsReported-gpu_reports_all i =
      let same : (length i.found == length challenges) ≡ true = (==_iff _ _).1 i.count in
      let ran : helper.run (helper_cmd helper.cmd_var) (arguments challenges) ≡ some i.out =
        ap (λ c. helper.run c (arguments challenges))
          (named-helper_cmd helper.cmd_var i.cmd i.named)
        ∙ ap (helper.run i.cmd) (arguments-concat challenges ∙ sym i.asked)
        ∙ i.ran in
      rw (ran, i.succeeded, i.parsed, same) ((traverse-AreDecoded i.found gpus).1 i.decoded)

-- The eight challenges for a nonce and the digest of a key, by the number of the GPU.
abbrev pub challenges_of : (Bytes → Bytes) → Bytes → Bytes → List Bytes
challenges_of sha256 nonce key =
    map (λ i. sha256 (nonce ++ (key ++ (i ∷ [])))) (0 ∷ 1 ∷ 2 ∷ 3 ∷ 4 ∷ 5 ∷ 6 ∷ 7 ∷ [])

pub gpu_nonces-challenges_of :
    (sha256 : Bytes → Bytes) (nonce key : Bytes)
    → gpu_nonces sha256 nonce key 0 8 ≡ challenges_of sha256 nonce key
unfolding gpu_nonces derive_gpu_nonce
gpu_nonces-challenges_of sha256 nonce key = refl
