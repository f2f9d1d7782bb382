-- ===== src/Attestation/Entries/Tests.antt =====
-- Two requests, whose calls come in turns.
use instance_lib.Prelude.{
  bytes_eq, bytes_eq_iff, take, length, length-append, codes, ap, some-injective, zero, suc, ◌++◌,
  ◌-◌, ◌∙◌, ℕ, Bytes, Option, some, none, true, [], ◌∷◌, ◌≡◌, ◌≢◌, ◌+◌, if◌then◌else◌, inl, inr,
  Bool-cases, arith, refl, sym,
}
use instance_lib.Prelude.Decimal.{decimal}
use instance_lib.Attestation.Quote.{
  Kernel, tdx_quote, join, entry_dir, create_entry, write_inblob, remove_entry,
}
use instance_lib.Attestation.Entries.{
  numbered, created, written, closing, done, Quotes, at, moved, numbers, creates, writes, reads,
  removes, Calls, still, more, idle_quotes,
}
use instance_lib.Attestation.Entries.Configfs.{IsConfigfs}
use instance_lib.Attestation.Entries.Isolation.{quote-Over}
use instance_lib.Attestation.Entries.Alone.{tdx_quote-Calls, tsm_of}

-- The data of each entry, by its directory.
abbrev Blobs : Type 0
Blobs = Bytes → Option Bytes

abbrev put : Bytes → Option Bytes → Blobs → Blobs
put dir o fs other = if bytes_eq dir other then o else fs other

-- The directory of a path whose last part, with its separator, has a length.
abbrev parent : ℕ → Bytes → Bytes
parent n path = take (length path - n) path

-- A quote is the data itself.
abbrev blob_kernel : Kernel
blob_kernel = record {
  Fs = Blobs;
  process_id = 17;
  create_dir = λ dir fs. (put dir none fs, true);
  write = λ path r fs. (put (parent 7 path) (some r) fs, true);
  read = λ path fs. (fs, fs (parent 8 path));
  remove_dir = λ dir fs. put dir none fs;
}

take-append : (xs ys : Bytes) (n : ℕ) → n ≡ length xs → take n (xs ++ ys) ≡ xs
take-append [] ys zero e = refl
take-append [] ys (suc n) e = absurd (omega arith)
take-append (x ∷ xs) ys zero e = absurd (omega arith)
take-append (x ∷ xs) ys (suc n) e = ap (λ s. x ∷ s) (take-append xs ys n (omega arith))

parent-join : (dir name : Bytes) (n : ℕ) → n ≡ 1 + length name → parent n (join dir name) ≡ dir
parent-join dir name n e =
    take-append dir (b'/' ∷ name) _ (omega (arith, length-append dir (b'/' ∷ name)))

put_self : (dir : Bytes) (o : Option Bytes) (fs : Blobs) → put dir o fs dir ≡ o
put_self dir o fs = rw ((bytes_eq_iff dir dir).1 refl) refl

put_frame :
    (dir other : Bytes) (o : Option Bytes) (fs : Blobs)
    → other ≢ dir
    → put dir o fs other ≡ fs other
put_frame dir other o fs differs = elim (Bool-cases (bytes_eq dir other)) [
  | inl same ↦ absurd (differs (sym ((bytes_eq_iff dir other).0 same)))
  | inr apart ↦ rw apart refl
]

blob-IsConfigfs : IsConfigfs blob_kernel (λ q r. q ≡ r)
blob-IsConfigfs = record {
  inblob = λ dir fs. fs dir;
  write_sets = λ dir r fs ok.
      ap (λ d. put d (some r) fs dir) (parent-join dir (codes "inblob") 7 refl)
      ∙ put_self dir (some r) fs;
  read_quotes = λ dir fs q r read held.
      some-injective _ _ (sym read ∙ ap fs (parent-join dir (codes "outblob") 8 refl) ∙ held);
  create_frame = λ dir other fs differs. put_frame dir other none fs differs;
  write_frame = λ dir other r fs differs.
      ap (λ d. put d (some r) fs other) (parent-join dir (codes "inblob") 7 refl)
      ∙ put_frame dir other (some r) fs differs;
  read_frame = λ dir other fs differs. refl;
  remove_frame = λ dir other fs differs. put_frame dir other none fs differs;
}

abbrev data_of : ℕ → Bytes
data_of i = (i + 1) ∷ []

abbrev start : Quotes blob_kernel
start = idle_quotes blob_kernel (λ dir. none)

abbrev both_numbered : Quotes blob_kernel
both_numbered = record start { seq = 2; phase = at 1 (numbered 1) (at 0 (numbered 0) start.phase) }

abbrev create : ℕ → Quotes blob_kernel → Quotes blob_kernel
create i w = moved blob_kernel data_of i (created i) (create_entry blob_kernel i w.fs).0 w

abbrev write : ℕ → Quotes blob_kernel → Quotes blob_kernel
write i w =
    moved blob_kernel data_of i (written i) (write_inblob blob_kernel i (data_of i) w.fs).0 w

abbrev both_written : Quotes blob_kernel
both_written = write 1 (write 0 (create 0 (create 1 both_numbered)))

abbrev first_done : Quotes blob_kernel
first_done =
    moved blob_kernel data_of 0 (done (some (data_of 0)))
      (remove_entry blob_kernel 0 both_written.fs)
      (moved blob_kernel data_of 0 (closing 0 (some (data_of 0))) both_written.fs both_written)

numbered-Calls : Calls blob_kernel data_of start both_numbered
numbered-Calls = more 1 (more 0 still (numbers refl (omega arith))) (numbers refl (omega arith))

written-Calls : Calls blob_kernel data_of start both_written
written-Calls =
    more 1
      (more 0 (more 0 (more 1 numbered-Calls (creates 1 refl)) (creates 0 refl)) (writes 0 refl))
      (writes 1 refl)

done-Calls : Calls blob_kernel data_of start first_done
unfolding entry_dir decimal bytes_eq
done-Calls = more 0 (more 0 written-Calls (reads 0 refl)) (removes 0 (some (data_of 0)) refl)

quote-Over_example : data_of 0 ≡ data_of 0
quote-Over_example =
    quote-Over blob_kernel data_of (λ q r. q ≡ r) blob-IsConfigfs (λ dir. none) first_done
      done-Calls 0 (data_of 0) refl

tdx_quote-Calls_example :
    let (tsm, result) = tdx_quote blob_kernel (data_of 0) (tsm_of blob_kernel data_of start) in
    (v : Quotes blob_kernel) × Calls blob_kernel data_of start v
    × (v.phase 0 ≡ done result)
    × (tsm_of blob_kernel data_of v ≡ tsm)
tdx_quote-Calls_example = tdx_quote-Calls blob_kernel data_of start 0 refl (omega arith)
