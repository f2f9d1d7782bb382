-- ===== src/Attestation/Entries/Configfs.antt =====
-- What the kernel documents of configfs-tsm, on which src/attestation.rs relies.
use instance_lib.Prelude.{Bytes, Option, some, true, ◌≡◌, ◌≢◌, codes}
use instance_lib.Attestation.Quote.{Kernel, join}

-- An entry's quote is over the data that was last written
-- to that entry, and what is done to one entry leaves the data of the others alone. `inblob` is the
-- data of the entry with a directory, and `Over q r` says that `q` is a quote over `r`.
pub record IsConfigfs (kernel : Kernel) (Over : Bytes → Bytes → Type 0) : Type 0 where
  pub inblob : Bytes → kernel.Fs → Option Bytes
  pub write_sets :
      (dir r : Bytes) (fs : kernel.Fs)
      → (kernel.write (join dir (codes "inblob")) r fs).1 ≡ true
      → inblob dir (kernel.write (join dir (codes "inblob")) r fs).0 ≡ some r
  pub read_quotes :
      (dir : Bytes) (fs : kernel.Fs) (q r : Bytes)
      → (kernel.read (join dir (codes "outblob")) fs).1 ≡ some q
      → inblob dir fs ≡ some r
      → Over q r
  pub create_frame :
      (dir other : Bytes) (fs : kernel.Fs)
      → other ≢ dir
      → inblob other (kernel.create_dir dir fs).0 ≡ inblob other fs
  pub write_frame :
      (dir other r : Bytes) (fs : kernel.Fs)
      → other ≢ dir
      → inblob other (kernel.write (join dir (codes "inblob")) r fs).0 ≡ inblob other fs
  pub read_frame :
      (dir other : Bytes) (fs : kernel.Fs)
      → other ≢ dir
      → inblob other (kernel.read (join dir (codes "outblob")) fs).0 ≡ inblob other fs
  pub remove_frame :
      (dir other : Bytes) (fs : kernel.Fs)
      → other ≢ dir
      → inblob other (kernel.remove_dir dir fs) ≡ inblob other fs
