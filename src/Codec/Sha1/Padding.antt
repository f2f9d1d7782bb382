-- ===== src/Codec/Sha1/Padding.antt =====
-- The padding of SHA-1.
use instance_lib.Prelude.{
  inr, inl, Bool-cases, ==_iff, length-append, true, ◌-◌, ℕ, Bytes, ◌≡◌, ◌∷◌, [], ◌++◌, ◌+◌, ◌%◌,
  ◌*◌, ◌^◌, ◌<◌, ◌≤◌, ◌==◌, length, replicate, suc, zero, arith, append-nil, append_assoc, sym, ◌∙◌,
  refl,
}
use instance_lib.Codec.Sha1.Fips.{message}
use instance_lib.Codec.Sha1.{pad_zeros, padded, to_be_bytes}

-- Where `k` zeros are missing and there are rounds enough, the loop appends them and stops.
pad_zeros_lem :
    (k fuel : ℕ) (msg : Bytes)
    → k ≤ fuel
    → k < 64
    → (length msg + k) % 64 ≡ 56
    → pad_zeros fuel msg ≡ msg ++ replicate k 0
unfolding pad_zeros
pad_zeros_lem zero zero msg h small e = sym (append-nil msg)
pad_zeros_lem zero (suc fuel) msg h small e =
    let full : (length msg % 64 == 56) ≡ true =
      (==_iff (length msg % 64) 56).1 (omega (arith, e)) in
    rw full (sym (append-nil msg))
pad_zeros_lem (suc k) zero msg h small e = absurd (omega arith)
pad_zeros_lem (suc k) (suc fuel) msg h small e = elim (Bool-cases (length msg % 64 == 56)) [
  | inl full ↦
      let ends : length msg % 64 ≡ 56 = (==_iff (length msg % 64) 56).0 full in
      absurd (omega (arith, ends, e))
  | inr short ↦
      let rest =
        pad_zeros_lem k fuel (msg ++ 0 ∷ []) (omega arith) (omega arith)
          (omega (arith, length-append msg (0 ∷ []), e)) in
      rw short (rest ∙ append_assoc msg (0 ∷ []) (replicate k 0))
]

length-replicate : (k x : ℕ) → length (replicate k x) ≡ k
length-replicate zero x = refl
length-replicate (suc k) x = omega (arith, length-replicate k x)

length-to_be_bytes : (n x : ℕ) → length (to_be_bytes n x) ≡ n
unfolding to_be_bytes
length-to_be_bytes zero x = refl
length-to_be_bytes (suc n) x = omega (arith, length-to_be_bytes n x)

-- The zeros are as few as fill the last block.
pub padded-message : (data' : Bytes) → padded data' ≡ message data'
unfolding padded
padded-message data' =
    let size = length-append data' (0x80 ∷ []) in
    let whole =
      pad_zeros_lem ((119 - length data' % 64) % 64) 64 (data' ++ 0x80 ∷ []) (omega arith)
        (omega arith) (omega (arith, size)) in
    rw whole refl

pub length-message : (data' : Bytes) → length (message data') % 64 ≡ 0
length-message data' =
    let k = (119 - length data' % 64) % 64 in
    let msg = data' ++ 0x80 ∷ [] in
    omega (
      arith,
      length-append data' (0x80 ∷ []),
      length-append msg (replicate k 0),
      length-replicate k 0,
      length-append (msg ++ replicate k 0) (to_be_bytes 8 (length data' * 8 % 2 ^ 64)),
      length-to_be_bytes 8 (length data' * 8 % 2 ^ 64),
    )
