-- ===== src/Attestation/Gpus.antt =====
-- src/attestation.rs: `gpu_reports_all`. The helper command and its JSON are arguments.
use instance_lib.Prelude.{
  none, some, ◌==◌, ◌||◌, not, length, [], guard, traverse, ◌>>◌, false, codes, ◌∷◌, true, ◌>>=◌,
  Bool, Option, Bytes, List,
}
use instance_lib.Codec.Hex.{hex_encode}
use instance_lib.Codec.Base64.{b64_decode_any}

pub record Gpu : Type 0 where
  pub report : Bytes
  pub cert_chain : List Bytes

-- A finished command.
pub record Output : Type 0 where
  pub success : Bool
  pub stdout : Bytes

-- GPU_REPORT_CMD.
abbrev pub gpu_report_cmd : Bytes
gpu_report_cmd = codes "/run/current-system/sw/bin/iron-gpu-report"

-- The command, by the value of IRON_GPU_REPORT_CMD.
abbrev pub helper_cmd : Option Bytes → Bytes
helper_cmd none = gpu_report_cmd
helper_cmd (some cmd) = cmd

-- The environment's IRON_GPU_REPORT_CMD, running a command with its arguments, and reading what it
-- printed.
pub record Helper : Type 0 where
  pub cmd_var : Option Bytes
  pub run : Bytes → List Bytes → Option Output
  pub parse : Bytes → Option (List Gpu)

-- `--nonce-hex` and a nonce, for each.
unfoldable pub arguments : List Bytes → List Bytes
arguments [] = []
arguments (nonce ∷ nonces) = codes "--nonce-hex" ∷ hex_encode nonce ∷ arguments nonces

abbrev pub is_empty {ℓ} : {A : Type ℓ} → List A → Bool
is_empty [] = true
is_empty (x ∷ xs) = false

-- The closure of the last `map`.
unfoldable pub decode_gpu : Gpu → Option (Bytes × List Bytes)
decode_gpu g = do
  report ← b64_decode_any g.report
  chain ← traverse b64_decode_any g.cert_chain
  guard (not (is_empty report || is_empty chain))
  some (report, chain)

module _ (helper : Helper) where
  unfoldable pub gpu_reports_all : List Bytes → Option (List (Bytes × List Bytes))
  gpu_reports_all nonces = do
    out ← helper.run (helper_cmd helper.cmd_var) (arguments nonces)
    guard out.success
    gpus ← helper.parse out.stdout
    guard (length gpus == length nonces)
    traverse decode_gpu gpus
