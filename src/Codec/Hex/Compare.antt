-- ===== src/Codec/Hex/Compare.antt =====
-- Hex texts, compared up to case.
use instance_lib.Prelude.{
  inr, sym, inl, ◌==◌, length-map, Bool-cases, ◌∙◌, length, subst, bytes_eq_iff, ◌↔◌, ◌+◌, ℕ,
  >>=-eq-some, true, ap, ◌%◌, ◌^◌, ◌*◌, bit_or, ◌<◌, refl, [], arith, ◌∷◌, some, map, ◌≡◌, AreBytes,
  Bytes,
}
use instance_lib.Codec.Hex.{
  hex_encode, hex_val, hex_pairs, hex_decode, to_ascii_lowercase, eq_ignore_ascii_case,
}
use instance_lib.Codec.Hex.Laws.{
  digit, high, low, hex_val_lower, lower_hex_val, lower_digit, joined, length-hex_encode,
}
use instance_lib.Prelude.Bits.{bit_and_15}

pub lower-hex_encode :
    (bs : Bytes) → AreBytes bs → map to_ascii_lowercase (hex_encode bs) ≡ hex_encode bs
unfolding hex_encode
lower-hex_encode [] h = refl
lower-hex_encode (b ∷ bs) h = cc (
  lower_digit (high b) (omega arith),
  lower_digit (low b) (omega (arith, bit_and_15 b)),
  lower-hex_encode bs h.1,
)

-- What an even text decodes to, from its lower case.
hex_pairs_of_lower :
    (s bs : Bytes) → AreBytes bs → map to_ascii_lowercase s ≡ hex_encode bs → hex_pairs s ≡ some bs
unfolding hex_encode hex_pairs
hex_pairs_of_lower [] [] h e = refl
hex_pairs_of_lower [] (b ∷ bs) h e = cc
hex_pairs_of_lower (c ∷ []) [] h e = cc
hex_pairs_of_lower (c ∷ []) (b ∷ bs) h e = cc
hex_pairs_of_lower (c ∷ d ∷ s) [] h e = cc
hex_pairs_of_lower (c ∷ d ∷ s) (b ∷ bs) h e =
    let small : low b < 16 = omega (arith, bit_and_15 b) in
    let whole : bit_or (high b * 2 ^ 4 % 2 ^ 8) (low b) ≡ b =
      omega (arith, joined (high b) (low b) (omega arith) small, bit_and_15 b) in
    rw
      (
        lower_hex_val c (high b) (omega arith) (cc),
        lower_hex_val d (low b) small (cc),
        hex_pairs_of_lower s bs h.1 (cc),
      )
      (ap (λ x. some (x ∷ bs)) whole)

high-joined : (hi lo : ℕ) → lo < 16 → high (hi * 16 + lo) ≡ hi
high-joined hi lo h = omega arith

low-joined : (hi lo : ℕ) → lo < 16 → low (hi * 16 + lo) ≡ lo
low-joined hi lo h = omega (arith, bit_and_15 (hi * 16 + lo))

abbrev IsEncoding : Bytes → Bytes → Type 0
IsEncoding s bs = AreBytes bs × (map to_ascii_lowercase s ≡ hex_encode bs)

IsEncoding-cons :
    (c d hi lo : ℕ) (s out : Bytes)
    → hex_val c ≡ some hi
    → hex_val d ≡ some lo
    → IsEncoding s out
    → IsEncoding (c ∷ d ∷ s) (bit_or (hi * 2 ^ 4 % 2 ^ 8) lo ∷ out)
unfolding hex_encode
IsEncoding-cons c d hi lo s out e f (bytes, later) =
    let (lower_c, small_hi) = hex_val_lower c hi e in
    let (lower_d, small_lo) = hex_val_lower d lo f in
    rw (joined hi lo small_hi small_lo) (
      (omega arith, bytes),
      cc (
        lower_c,
        lower_d,
        later,
        ap digit (high-joined hi lo small_lo),
        ap digit (low-joined hi lo small_lo),
      ),
    )

-- Every text that decodes is the encoding of its bytes, up to case.
hex_pairs-IsEncoding : (s bs : Bytes) → hex_pairs s ≡ some bs → IsEncoding s bs
unfolding hex_pairs hex_encode
hex_pairs-IsEncoding [] [] e = (tt, refl)
hex_pairs-IsEncoding [] (b ∷ bs) e = absurd (cc)
hex_pairs-IsEncoding (c ∷ []) bs e = absurd (cc)
hex_pairs-IsEncoding (c ∷ d ∷ s) bs e =
    let (hi, e1, k) = >>=-eq-some (hex_val c) _ e in
    let (lo, e2, k') = >>=-eq-some (hex_val d) _ k in
    let (out, e3, k'') = >>=-eq-some (hex_pairs s) _ k' in
    let same : bit_or (hi * 2 ^ 4 % 2 ^ 8) lo ∷ out ≡ bs = cc in
    subst (IsEncoding (c ∷ d ∷ s)) same
      (IsEncoding-cons c d hi lo s out e1 e2 (hex_pairs-IsEncoding s out e3))

-- A text equals the hex of some bytes, ASCII case aside, exactly where it decodes to these bytes.
pub eq_ignore_ascii_case-hex_encode_iff :
    (s bs : Bytes)
    → AreBytes bs
    → (eq_ignore_ascii_case s (hex_encode bs) ≡ true) ↔ (hex_decode s ≡ some bs)
unfolding eq_ignore_ascii_case hex_decode
eq_ignore_ascii_case-hex_encode_iff s bs h = (
  λ e.
      let same = (bytes_eq_iff (map to_ascii_lowercase s) _).0 e ∙ lower-hex_encode bs h in
      let even : length s % 2 ≡ 0 =
        omega (arith, ap length same, length-map s to_ascii_lowercase, length-hex_encode bs) in
      rw even (hex_pairs_of_lower s bs h same),
  λ e. elim (Bool-cases (length s % 2 == 0)) [
    | inl even ↦
        let (_, same) = hex_pairs-IsEncoding s bs (rw even at e) in
        (bytes_eq_iff (map to_ascii_lowercase s) _).1 (same ∙ sym (lower-hex_encode bs h))
    | inr odd ↦ absurd (cc (rw odd at e))
  ],
)
