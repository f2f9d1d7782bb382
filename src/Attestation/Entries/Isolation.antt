-- ===== src/Attestation/Entries/Isolation.antt =====
-- The entries of concurrent requests, and the quotes that come of them.
use instance_lib.Prelude.{
  [], ◌∷◌, ap, ◌∙◌, ℕ, Bytes, Option, some, none, true, false, ◌≡◌, ◌≢◌, ◌==◌, ==_iff, ◌<◌, ◌≤◌,
  inl, inr, Bool-cases, arith, refl, sym, subst, some-injective, Bool,
}
use instance_lib.Attestation.Quote.{Kernel, quote_of, dir_of, create_entry, write_inblob}
use instance_lib.Attestation.Entries.Configfs.{IsConfigfs}
use instance_lib.Attestation.Entries.Names.{entry_dir-apart}
use instance_lib.Attestation.Entries.{
  Phase, fresh, numbered, created, written, closing, done, Quotes, at, after_create, after_write,
  Call, numbers, creates, writes, reads, removes, Calls, still, more, idle_quotes,
}

-- The entry that a phase works with, and the quote that it has.
abbrev owns : Phase → Option ℕ
owns fresh = none
owns (numbered d) = some d
owns (created d) = some d
owns (written d) = some d
owns (closing d result) = some d
owns (done result) = none

abbrev entry_of : Phase → ℕ
entry_of fresh = 0
entry_of (numbered d) = d
entry_of (created d) = d
entry_of (written d) = d
entry_of (closing d result) = d
entry_of (done result) = 0

abbrev result_of : Phase → Option Bytes
result_of fresh = none
result_of (numbered d) = none
result_of (created d) = none
result_of (written d) = none
result_of (closing d result) = result
result_of (done result) = result

module _ (kernel : Kernel) (report_data : ℕ → Bytes) (Over : Bytes → Bytes → Type 0)
    (configfs : IsConfigfs kernel Over) where
  abbrev held : ℕ → kernel.Fs → Option Bytes
  held d fs = configfs.inblob (dir_of kernel d) fs

  apart_dirs : (d k : ℕ) → k ≢ d → dir_of kernel k ≢ dir_of kernel d
  apart_dirs d k other = entry_dir-apart kernel.process_id d k other

  -- What holds of a request in a phase: written data stands in the entry, a result is over the data.
  record IsBound (i : ℕ) (p : Phase) (fs : kernel.Fs) : Type 0 where
    holds : (d : ℕ) → p ≡ written d → held d fs ≡ some (report_data i)
    quoted : (q : Bytes) → result_of p ≡ some q → Over q (report_data i)

  record IsIsolated (w : Quotes kernel) : Type 0 where
    counted : (i d : ℕ) → owns (w.phase i) ≡ some d → d < w.seq
    apart : (i j d : ℕ) → owns (w.phase i) ≡ some d → owns (w.phase j) ≡ some d → i ≡ j
    bound : (i : ℕ) → IsBound i (w.phase i) w.fs

  -- A request moves on, with an entry that is its own or none, and touches no other entry.
  record IsMove (w : Quotes kernel) (i : ℕ) (p : Phase) (fs : kernel.Fs) (seq : ℕ) : Type 0 where
    entry : ℕ
    grows : w.seq ≤ seq
    below : entry < seq
    alone : (j : ℕ) → owns (w.phase j) ≡ some entry → j ≡ i
    keeps : (d : ℕ) → owns p ≡ some d → d ≡ entry
    frame : (e : ℕ) → e ≢ entry → held e fs ≡ held e w.fs
    binds : IsBound i p fs

  move-IsIsolated :
      (w : Quotes kernel) (i : ℕ) (p : Phase) (fs : kernel.Fs) (seq : ℕ)
      → IsIsolated w
      → IsMove w i p fs seq
      → IsIsolated (record { fs = fs; seq = seq; phase = at i p w.phase })
  move-IsIsolated w i p fs seq iso m = record {
    counted = λ j d o. elim (Bool-cases (i == j)) [
      | inl here ↦ let e = m.keeps d (rw here at o) in let b = m.below in rw e b
      | inr other ↦ let b = iso.counted j d (rw other at o) in let g = m.grows in omega arith
    ];
    apart = λ j k d o o'. elim (Bool-cases (i == j)) [
      | inl here ↦ elim (Bool-cases (i == k)) [
        | inl there ↦ sym ((==_iff i j).0 here) ∙ (==_iff i k).0 there
        | inr other ↦
            let e = m.keeps d (rw here at o) in
            sym ((==_iff i j).0 here) ∙ sym (m.alone k (rw e at (rw other at o')))
      ]
      | inr elsewhere ↦ elim (Bool-cases (i == k)) [
        | inl there ↦
            let e = m.keeps d (rw there at o') in
            m.alone j (rw e at (rw elsewhere at o)) ∙ (==_iff i k).0 there
        | inr other ↦ iso.apart j k d (rw elsewhere at o) (rw other at o')
      ]
    ];
    bound = λ j. elim (Bool-cases (i == j)) [
      | inl here ↦ rw here (subst (λ k. IsBound k p fs) ((==_iff i j).0 here) m.binds)
      | inr other ↦ rw other (record {
        holds = λ d e.
            m.frame d (λ same. cc (other, (==_iff i j).1 (sym (m.alone j (rw e (ap some same))))))
            ∙ (iso.bound j).holds d e;
        quoted = (iso.bound j).quoted;
      })
    ];
  }

  -- A request that has an entry goes on with it.
  owner-IsMove :
      (w : Quotes kernel) (i d : ℕ) (p : Phase) (fs : kernel.Fs)
      → IsIsolated w
      → owns (w.phase i) ≡ some d
      → ((e : ℕ) → owns p ≡ some e → e ≡ d)
      → ((e : ℕ) → e ≢ d → held e fs ≡ held e w.fs)
      → IsBound i p fs
      → IsMove w i p fs w.seq
  owner-IsMove w i d p fs iso o keeps frame binds = record {
    entry = d;
    grows = omega arith;
    below = iso.counted i d o;
    alone = λ j h. iso.apart j i d h o;
    keeps = keeps;
    frame = frame;
    binds = binds;
  }

  quote_of-some : (o : Option Bytes) (q : Bytes) → quote_of o ≡ some q → o ≡ some q
  quote_of-some none q e = absurd (cc)
  quote_of-some (some []) q e = absurd (cc)
  quote_of-some (some (b ∷ quote)) q e = e

  created-IsMove :
      (w : Quotes kernel) (i d : ℕ)
      → IsIsolated w
      → w.phase i ≡ numbered d
      → (ok : Bool) → IsMove w i (after_create d ok) (create_entry kernel d w.fs).0 w.seq
  created-IsMove w i d iso e true =
      owner-IsMove w i d (created d) _ iso (rw e refl) (λ k h. sym (some-injective _ _ h))
        (λ k other.
          configfs.create_frame (dir_of kernel d) (dir_of kernel k) w.fs (apart_dirs d k other))
        (record { holds = λ k h. absurd (cc); quoted = λ q h. absurd (cc) })
  created-IsMove w i d iso e false =
      owner-IsMove w i d (done none) _ iso (rw e refl) (λ k h. absurd (cc))
        (λ k other.
          configfs.create_frame (dir_of kernel d) (dir_of kernel k) w.fs (apart_dirs d k other))
        (record { holds = λ k h. absurd (cc); quoted = λ q h. absurd (cc) })

  written-IsMove :
      (w : Quotes kernel) (i d : ℕ)
      → IsIsolated w
      → w.phase i ≡ created d
      → (ok : Bool) → (write_inblob kernel d (report_data i) w.fs).1 ≡ ok
      → IsMove w i (after_write d ok) (write_inblob kernel d (report_data i) w.fs).0 w.seq
  written-IsMove w i d iso e true wrote =
      owner-IsMove w i d (written d) _ iso (rw e refl) (λ k h. sym (some-injective _ _ h))
        (λ k other.
          configfs.write_frame (dir_of kernel d) (dir_of kernel k) (report_data i) w.fs
            (apart_dirs d k other))
        (record {
          holds = λ k h.
              let same : d ≡ k = ap entry_of h in
              subst
                (λ n. held n (write_inblob kernel d (report_data i) w.fs).0 ≡ some (report_data i))
                same (configfs.write_sets (dir_of kernel d) (report_data i) w.fs wrote);
          quoted = λ q h. absurd (cc);
        })
  written-IsMove w i d iso e false wrote =
      owner-IsMove w i d (closing d none) _ iso (rw e refl) (λ k h. sym (some-injective _ _ h))
        (λ k other.
          configfs.write_frame (dir_of kernel d) (dir_of kernel k) (report_data i) w.fs
            (apart_dirs d k other))
        (record { holds = λ k h. absurd (cc); quoted = λ q h. absurd (cc) })

  Call-IsIsolated :
      (w : Quotes kernel) (i : ℕ) (v : Quotes kernel)
      → IsIsolated w
      → Call kernel report_data w i v
      → IsIsolated v
  Call-IsIsolated w i _ iso (numbers e small) = move-IsIsolated w i _ _ _ iso (record {
    entry = w.seq;
    grows = omega arith;
    below = omega arith;
    alone = λ j h. absurd (let b = iso.counted j w.seq h in omega arith);
    keeps = λ d h. sym (some-injective _ _ h);
    frame = λ k other. refl;
    binds = record { holds = λ k h. absurd (cc); quoted = λ q h. absurd (cc) };
  })
  Call-IsIsolated w i _ iso (creates d e) =
      move-IsIsolated w i _ _ _ iso (created-IsMove w i d iso e (create_entry kernel d w.fs).1)
  Call-IsIsolated w i _ iso (writes d e) =
      move-IsIsolated w i _ _ _ iso
        (written-IsMove w i d iso e (write_inblob kernel d (report_data i) w.fs).1 refl)
  Call-IsIsolated w i _ iso (reads d e) = move-IsIsolated w i _ _ _ iso (
      owner-IsMove w i d _ _ iso (rw e refl) (λ k h. sym (some-injective _ _ h))
        (λ k other.
          configfs.read_frame (dir_of kernel d) (dir_of kernel k) w.fs (apart_dirs d k other))
        (record {
          holds = λ k h. absurd (cc);
          quoted = λ q h.
              configfs.read_quotes (dir_of kernel d) w.fs q (report_data i) (quote_of-some _ q h)
                ((iso.bound i).holds d e);
        }))
  Call-IsIsolated w i _ iso (removes d result e) = move-IsIsolated w i _ _ _ iso (
      owner-IsMove w i d _ _ iso (rw e refl) (λ k h. absurd (cc))
        (λ k other.
          configfs.remove_frame (dir_of kernel d) (dir_of kernel k) w.fs (apart_dirs d k other))
        (record { holds = λ k h. absurd (cc); quoted = λ q h. (iso.bound i).quoted q (rw e h) }))

  Calls-IsIsolated :
      (w v : Quotes kernel) → IsIsolated w → Calls kernel report_data w v → IsIsolated v
  Calls-IsIsolated w _ iso still = iso
  Calls-IsIsolated w v iso (more i before turn) =
      Call-IsIsolated _ i v (Calls-IsIsolated w _ iso before) turn

  -- Where the kernel does what it documents of configfs-tsm: in any interleaving of the calls of any
  -- requests, before the counter wraps around, a request that is done with a quote has one over its own
  -- report data.
  pub quote-Over :
      (fs : kernel.Fs) (w : Quotes kernel)
      → Calls kernel report_data (idle_quotes kernel fs) w
      → (i : ℕ) (q : Bytes) → w.phase i ≡ done (some q)
      → Over q (report_data i)
  quote-Over fs w run i q e =
      let iso =
        Calls-IsIsolated (idle_quotes kernel fs) w
          (record {
            counted = λ j d o. absurd (cc);
            apart = λ j k d o o'. absurd (cc);
            bound = λ j. record { holds = λ d h. absurd (cc); quoted = λ p h. absurd (cc) };
          })
          run in
      (iso.bound i).quoted q (rw e refl)
