-- ===== src/Attestation/Entries/Names.antt =====
-- The directories of report entries, by their numbers.
use instance_lib.Prelude.{ℕ, ◌++◌, ◌≡◌, ◌≢◌, codes, append_cancel_left}
use instance_lib.Prelude.Decimal.{decimal, decimal_injective}
use instance_lib.Attestation.Quote.{entry_dir}

-- One process gives two numbers two directories.
pub entry_dir_injective :
    (process_id d e : ℕ) → entry_dir process_id d ≡ entry_dir process_id e → d ≡ e
unfolding entry_dir
entry_dir_injective process_id d e same =
    let names =
      append_cancel_left (codes "/sys/kernel/config/tsm/report/iron-")
        (decimal process_id ++ (codes "-" ++ decimal d))
        (decimal process_id ++ (codes "-" ++ decimal e)) same in
    let numbers =
      append_cancel_left (decimal process_id) (codes "-" ++ decimal d) (codes "-" ++ decimal e)
        names in
    decimal_injective d e (append_cancel_left (codes "-") (decimal d) (decimal e) numbers)

pub entry_dir-apart : (process_id d e : ℕ) → e ≢ d → entry_dir process_id e ≢ entry_dir process_id d
entry_dir-apart process_id d e other same = other (entry_dir_injective process_id e d same)
