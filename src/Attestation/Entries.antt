-- ===== src/Attestation/Entries.antt =====
-- src/attestation.rs: `tdx_quote` as concurrent requests run it. Each call of the kernel and the
-- counter's `fetch_add` is a step of its own, so a run is any interleaving of the calls of requests.
pub mod Configfs
pub mod Names
pub mod Isolation
pub mod Alone
mod Tests
use instance_lib.Prelude.{
  ℕ, Bytes, Option, some, none, true, false, ◌≡◌, ◌==◌, ◌+◌, ◌<◌, ◌^◌, if◌then◌else◌, Bool,
}
use instance_lib.Attestation.Quote.{
  Kernel, create_entry, write_inblob, read_outblob, remove_entry, quote_of,
}

-- Where the quote of one request stands: the number of its entry, once it has one, and the result.
pub data Phase : Type 0 where
  fresh : Phase
  numbered : ℕ → Phase
  created : ℕ → Phase
  written : ℕ → Phase
  closing : ℕ → Option Bytes → Phase
  done : Option Bytes → Phase

-- The file system, the counter, and the phase of each request.
pub record Quotes (kernel : Kernel) : Type 0 where
  pub fs : kernel.Fs
  pub seq : ℕ
  pub phase : ℕ → Phase

abbrev pub at : ℕ → Phase → (ℕ → Phase) → ℕ → Phase
at i p phase j = if i == j then p else phase j

-- After `create_dir`, and after the write.
abbrev pub after_create : ℕ → Bool → Phase
after_create d true = created d
after_create d false = done none

abbrev pub after_write : ℕ → Bool → Phase
after_write d true = written d
after_write d false = closing d none

module _ (kernel : Kernel) (report_data : ℕ → Bytes) where
  abbrev pub moved : ℕ → Phase → kernel.Fs → Quotes kernel → Quotes kernel
  moved i p fs w = record w { fs = fs; phase = at i p w.phase }

  -- The counter wraps around at 2 ^ 64, and a run is over before it does.
  pub data Call (w : Quotes kernel) (i : ℕ) : Quotes kernel → Type 0 where
    numbers :
        w.phase i ≡ fresh
        → w.seq + 1 < 2 ^ 64
        → Call w i (record w { seq = w.seq + 1; phase = at i (numbered w.seq) w.phase })
    creates :
        (d : ℕ)
        → w.phase i ≡ numbered d
        → Call w i (
            moved i
              (after_create d (create_entry kernel d w.fs).1)
              (create_entry kernel d w.fs).0
              w)
    writes :
        (d : ℕ)
        → w.phase i ≡ created d
        → Call w i (
            moved i
              (after_write d (write_inblob kernel d (report_data i) w.fs).1)
              (write_inblob kernel d (report_data i) w.fs).0
              w)
    reads :
        (d : ℕ)
        → w.phase i ≡ written d
        → Call w i (
            moved i
              (closing d (quote_of (read_outblob kernel d w.fs).1))
              (read_outblob kernel d w.fs).0
              w)
    removes :
        (d : ℕ) (result : Option Bytes)
        → w.phase i ≡ closing d result
        → Call w i (moved i (done result) (remove_entry kernel d w.fs) w)

  -- A run of the requests' calls.
  pub data Calls (w : Quotes kernel) : Quotes kernel → Type 0 where
    still : Calls w w
    more : {u v : Quotes kernel} (i : ℕ) → Calls w u → Call u i v → Calls w v

-- The counter starts at 0, and no request has an entry.
abbrev pub idle_quotes : (kernel : Kernel) → kernel.Fs → Quotes kernel
idle_quotes kernel fs = record { fs = fs; seq = 0; phase = λ i. fresh }
