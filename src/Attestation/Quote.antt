-- ===== src/Attestation/Quote.antt =====
-- src/attestation.rs: `tdx_quote` and `pck_chain_from_quote`. The kernel's configfs is an argument.
use mathlib.Core.Option
use instance_lib.Prelude.{
  zero, ◌-◌, ◌++◌, between, ◌^◌, suc, ◌%◌, ltb, ◌==◌, length, not, Bool, if◌then◌else◌, ◌∷◌, List,
  some, codes, ◌+◌, [], Option, Bytes, ℕ, none,
}
use instance_lib.Prelude.Decimal.{decimal}
use instance_lib.Codec.Base64.{b64_decode_any}

-- TSM_REPORT_ROOT.
abbrev pub tsm_report_root : Bytes
tsm_report_root = codes "/sys/kernel/config/tsm/report"

-- `Path::join` with a relative path.
abbrev pub join : Bytes → Bytes → Bytes
join dir path = dir ++ (b'/' ∷ path)

-- The directory of a report entry, by the process and the number in the sequence.
unfoldable pub entry_dir : ℕ → ℕ → Bytes
unfolding decimal
entry_dir process_id seq =
    join tsm_report_root (codes "iron-" ++ (decimal process_id ++ (codes "-" ++ decimal seq)))

-- The file system: `Fs` is its state, and a call, by the path, gives the new state and whether it
-- succeeded. `process_id` is `std::process::id()`.
pub record Kernel : Type 1 where
  pub Fs : Type 0
  pub process_id : ℕ
  pub create_dir : Bytes → Fs → Fs × Bool
  pub write : Bytes → Bytes → Fs → Fs × Bool
  pub read : Bytes → Fs → Fs × Option Bytes
  pub remove_dir : Bytes → Fs → Fs

-- The calls on the entry with a number.
module _ (kernel : Kernel) where
  abbrev pub dir_of : ℕ → Bytes
  dir_of seq = entry_dir kernel.process_id seq

  abbrev pub create_entry : ℕ → kernel.Fs → kernel.Fs × Bool
  create_entry seq fs = kernel.create_dir (dir_of seq) fs

  abbrev pub write_inblob : ℕ → Bytes → kernel.Fs → kernel.Fs × Bool
  write_inblob seq report_data fs = kernel.write (join (dir_of seq) (codes "inblob")) report_data fs

  abbrev pub read_outblob : ℕ → kernel.Fs → kernel.Fs × Option Bytes
  read_outblob seq fs = kernel.read (join (dir_of seq) (codes "outblob")) fs

  abbrev pub remove_entry : ℕ → kernel.Fs → kernel.Fs
  remove_entry seq fs = kernel.remove_dir (dir_of seq) fs

-- The file system and the counter `SEQ`, which wraps around at 64 bits.
pub record Tsm (kernel : Kernel) : Type 0 where
  pub fs : kernel.Fs
  pub seq : ℕ

abbrev pub quote_of : Option Bytes → Option Bytes
quote_of none = none
quote_of (some []) = none
quote_of (some (b ∷ quote)) = some (b ∷ quote)

module _ (kernel : Kernel) where
  -- The inner closure: write the report data, read the quote, refuse an empty one.
  unfoldable pub write_and_read : ℕ → Bytes → kernel.Fs → kernel.Fs × Option Bytes
  write_and_read dir report_data fs =
      let (written, ok) = write_inblob kernel dir report_data fs in
      if not ok
      then (written, none)
      else let (read, quote) = read_outblob kernel dir written in (read, quote_of quote)

  unfoldable pub tdx_quote : Bytes → Tsm kernel → Tsm kernel × Option Bytes
  tdx_quote report_data tsm =
      let next = (tsm.seq + 1) % 2 ^ 64 in
      let (created, ok) = create_entry kernel tsm.seq tsm.fs in
      if not ok
      then (record { fs = created; seq = next }, none)
      else let (used, result) = write_and_read tsm.seq report_data created in
        (record { fs = remove_entry kernel tsm.seq used; seq = next }, result)

-- The decoder of `String::from_utf8_lossy`: the bytes of a character that is not complete, how many
-- it lacks, and the range of the next one.
pub record Partial : Type 0 where
  pub pending : Bytes
  pub missing : ℕ
  pub low : ℕ
  pub high : ℕ

abbrev pub idle : Partial
idle = record { pending = []; missing = 0; low = 0x80; high = 0xbf }

-- U+FFFD.
abbrev pub replacement : Bytes
replacement = 0xef ∷ 0xbf ∷ 0xbd ∷ []

abbrev pub awaiting : ℕ → ℕ → ℕ → ℕ → Bytes × Partial
awaiting b missing low high =
    ([], record { pending = b ∷ []; missing = missing; low = low; high = high })

-- The first byte of a character.
unfoldable pub start_char : ℕ → Bytes × Partial
start_char b =
    if ltb b 0x80
    then (b ∷ [], idle)
    else if between 0xc2 0xdf b
    then awaiting b 1 0x80 0xbf
    else if b == 0xe0
    then awaiting b 2 0xa0 0xbf
    else if b == 0xed
    then awaiting b 2 0x80 0x9f
    else if between 0xe1 0xef b
    then awaiting b 2 0x80 0xbf
    else if b == 0xf0
    then awaiting b 3 0x90 0xbf
    else if b == 0xf4
    then awaiting b 3 0x80 0x8f
    else if between 0xf1 0xf3 b
    then awaiting b 3 0x80 0xbf
    else (replacement, idle)

-- One byte more of a character, or the end of a broken one.
unfoldable pub next_char : Partial → ℕ → Bytes × Partial
unfolding start_char
next_char p b =
    if p.missing == 0
    then start_char b
    else if between p.low p.high b
    then (if p.missing == 1 then (p.pending ++ (b ∷ []), idle) else (
      [],
      record { pending = p.pending ++ (b ∷ []); missing = p.missing - 1; low = 0x80; high = 0xbf },
    ))
    else let (out, p') = start_char b in (replacement ++ out, p')

unfoldable pub lossy_from : Partial → Bytes → Bytes
unfolding next_char
lossy_from p [] = if p.missing == 0 then [] else replacement
lossy_from p (b ∷ s) = let (out, p') = next_char p b in out ++ lossy_from p' s

unfoldable pub from_utf8_lossy : Bytes → Bytes
unfolding lossy_from
from_utf8_lossy s = lossy_from idle s

abbrev pub begin_mark : Bytes
begin_mark = codes "-----BEGIN CERTIFICATE-----"

abbrev pub end_mark : Bytes
end_mark = codes "-----END CERTIFICATE-----"

-- What follows the prefix, where the text has it.
unfoldable pub after_prefix : Bytes → Bytes → Option Bytes
after_prefix [] s = some s
after_prefix (p ∷ prefix) [] = none
after_prefix (p ∷ prefix) (c ∷ s) = if p == c then after_prefix prefix s else none

-- `find`, as the texts before and after the first place where the mark stands.
unfoldable pub split_at : Bytes → Bytes → Option (Bytes × Bytes)
unfolding after_prefix
split_at mark [] = Option.map (λ rest. ([], rest)) (after_prefix mark [])
split_at mark (c ∷ s) = elim (after_prefix mark (c ∷ s)) [
  | some rest ↦ some ([], rest)
  | none ↦ Option.map (λ (found : Bytes × Bytes). (c ∷ found.0, found.1)) (split_at mark s)
]

-- A block that decodes to something is pushed.
abbrev pub block_ders : Option Bytes → List Bytes
block_ders none = []
block_ders (some []) = []
block_ders (some (b ∷ der)) = (b ∷ der) ∷ []

-- The loop. Each round takes the two marks off the text, so its length is fuel enough.
unfoldable pub pem_blocks : ℕ → Bytes → List Bytes
unfolding split_at
pem_blocks zero rest = []
pem_blocks (suc fuel) rest = elim (split_at begin_mark rest) [
  | none ↦ []
  | some (before, after) ↦ elim (split_at end_mark after) [
    | none ↦ []
    | some (block, rest') ↦ block_ders (b64_decode_any block) ++ pem_blocks fuel rest'
  ]
]

unfoldable pub pck_chain_from_quote : Bytes → List Bytes
unfolding from_utf8_lossy pem_blocks
pck_chain_from_quote quote = let text = from_utf8_lossy quote in pem_blocks (length text) text
