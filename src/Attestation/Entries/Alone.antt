-- ===== src/Attestation/Entries/Alone.antt =====
-- A request whose calls nothing comes between.
use instance_lib.Prelude.{
  ℕ, Bytes, Option, none, ◌≡◌, ==_iff, ◌+◌, ◌<◌, ◌%◌, ◌^◌, inl, inr, Bool-cases, arith, refl, ap,
  ◌∙◌,
}
use instance_lib.Attestation.Quote.{
  Kernel, create_entry, write_inblob, remove_entry, Tsm, write_and_read, tdx_quote,
}
use instance_lib.Attestation.Entries.{
  Phase, fresh, numbered, created, closing, done, Quotes, at, after_create, after_write, numbers,
  creates, writes, reads, removes, Calls, still, more,
}

at_self : (i : ℕ) (p : Phase) (phase : ℕ → Phase) → at i p phase i ≡ p
at_self i p phase = rw ((==_iff i i).1 refl) refl

module _ (kernel : Kernel) (report_data : ℕ → Bytes) where
  abbrev pub tsm_of : Quotes kernel → Tsm kernel
  tsm_of w = record { fs = w.fs; seq = w.seq }

  -- What `tdx_quote` does from the creation of the entry on.
  abbrev Ends : Quotes kernel → ℕ → kernel.Fs → Option Bytes → Type 0
  Ends u i fs result =
      (v : Quotes kernel) × Calls kernel report_data u v
      × (v.phase i ≡ done result)
      × (v.fs ≡ fs)
      × (v.seq ≡ u.seq)

  closes :
      (u : Quotes kernel) (i d : ℕ) (result : Option Bytes)
      → u.phase i ≡ closing d result
      → Ends u i (remove_entry kernel d u.fs) result
  closes u i d result e = (_, more i still (removes d result e), at_self i _ u.phase, refl, refl)

  after :
      {u v : Quotes kernel} {w : Quotes kernel}
      → Calls kernel report_data u v
      → Calls kernel report_data v w
      → Calls kernel report_data u w
  after r still = r
  after r (more i s turn) = more i (after r s) turn

  uses :
      (u : Quotes kernel) (i d : ℕ)
      → u.phase i ≡ created d
      → let (used, result) = write_and_read kernel d (report_data i) u.fs in
        Ends u i (remove_entry kernel d used) result
  unfolding write_and_read
  uses u i d e = elim (Bool-cases (write_inblob kernel d (report_data i) u.fs).1) [
    | inr bad ↦
        let first : Calls kernel report_data u _ = more i still (writes d e) in
        let (v, r, p, f, s) = closes _ i d none (at_self i _ u.phase ∙ ap (after_write d) bad) in
        rw bad (v, after first r, p, f, s)
    | inl ok ↦
        let first : Calls kernel report_data u _ = more i still (writes d e) in
        let second : Calls kernel report_data u _ =
          more i first (reads d (at_self i _ u.phase ∙ ap (after_write d) ok)) in
        let phase = at i (after_write d (write_inblob kernel d (report_data i) u.fs).1) u.phase in
        let (v, r, p, f, s) = closes _ i d _ (at_self i _ phase) in
        rw ok (v, after second r, p, f, s)
  ]

  -- Before the counter wraps around: a request that starts afresh and is not interrupted ends with the
  -- result of `tdx_quote`, and leaves the file system and the counter as `tdx_quote` does.
  pub tdx_quote-Calls :
      (w : Quotes kernel) (i : ℕ)
      → w.phase i ≡ fresh
      → w.seq + 1 < 2 ^ 64
      → let (tsm, result) = tdx_quote kernel (report_data i) (tsm_of w) in
        (v : Quotes kernel) × Calls kernel report_data w v
        × (v.phase i ≡ done result)
        × (tsm_of v ≡ tsm)
  unfolding tdx_quote
  tdx_quote-Calls w i e small =
      let first : Calls kernel report_data w _ = more i still (numbers e small) in
      let second : Calls kernel report_data w _ =
        more i first (creates w.seq (at_self i _ w.phase)) in
      let counted : (w.seq + 1) % 2 ^ 64 ≡ w.seq + 1 = omega arith in
      let phase = at i (numbered w.seq) w.phase in
      elim (Bool-cases (create_entry kernel w.seq w.fs).1) [
        | inr bad ↦
            rw (bad, counted) (_, second, at_self i _ phase ∙ ap (after_create w.seq) bad, refl)
        | inl ok ↦
            let (v, r, p, f, s) = uses _ i w.seq (at_self i _ phase ∙ ap (after_create w.seq) ok) in
            rw (ok, counted) (v, after second r, p, cc (f, s))
      ]
