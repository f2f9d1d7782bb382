-- ===== src/Attestation/Pem/Lossy.antt =====
-- The lossy decoder of a quote: binary data, then ASCII.
use instance_lib.Prelude.{
  ℕ, Bytes, false, [], ◌∷◌, ◌++◌, ◌≡◌, ◌<◌, ◌≤◌, ◌==◌, between, All, refl, Bool-cases, inl, inr,
  arith, ap, append_assoc, sym, ◌∙◌,
}
use instance_lib.Attestation.Quote.{
  Partial, idle, start_char, next_char, lossy_from, from_utf8_lossy,
}

-- A byte that goes on a character is not ASCII.
abbrev IsOpen : Partial → Type 0
IsOpen p = 128 ≤ p.low

start_char-IsOpen : (b : ℕ) → IsOpen (start_char b).1
unfolding start_char
start_char-IsOpen b = ground arith

next_char-IsOpen : (p : Partial) (b : ℕ) → IsOpen p → IsOpen (next_char p b).1
unfolding next_char
next_char-IsOpen p b h = ground (arith, start_char-IsOpen b)

start_ascii : (c : ℕ) → c < 128 → start_char c ≡ (c ∷ [], idle)
unfolding start_char
start_ascii c h = ground arith

-- An ASCII byte comes through, after what ends a broken character.
next_ascii :
    (p : Partial) (c : ℕ) → IsOpen p → c < 128 → next_char p c ≡ (lossy_from p [] ++ c ∷ [], idle)
unfolding next_char lossy_from
next_ascii p c h small = elim (Bool-cases (p.missing == 0)) [
  | inl whole ↦ rw (next_char, whole) (start_ascii c small)
  | inr part ↦
      let outside : between p.low p.high c ≡ false = ground arith in
      rw (next_char, part, outside, start_ascii c small) refl
]

lossy_ascii : (s : Bytes) → All (λ c. c < 128) s → lossy_from idle s ≡ s
unfolding lossy_from
lossy_ascii [] h = refl
lossy_ascii (c ∷ s) (small, h) =
    rw (next_ascii idle c (omega arith) small) (ap (λ out. c ∷ out) (lossy_ascii s h))

lossy_from-append :
    (p : Partial) (head : Bytes) (c : ℕ) (s : Bytes)
    → IsOpen p
    → All (λ b. b < 128) (c ∷ s)
    → lossy_from p (head ++ c ∷ s) ≡ lossy_from p head ++ c ∷ s
unfolding lossy_from
lossy_from-append p [] c s h (small, ascii) =
    rw (next_ascii p c h small, lossy_ascii s ascii) (append_assoc (lossy_from p []) (c ∷ []) s)
lossy_from-append p (b ∷ head) c s h ascii =
    ap (λ rest. (next_char p b).0 ++ rest)
      (lossy_from-append (next_char p b).1 head c s (next_char-IsOpen p b h) ascii)
    ∙ sym (append_assoc (next_char p b).0 (lossy_from (next_char p b).1 head) (c ∷ s))

pub from_utf8_lossy-append :
    (head : Bytes) (c : ℕ) (s : Bytes)
    → All (λ b. b < 128) (c ∷ s)
    → from_utf8_lossy (head ++ c ∷ s) ≡ from_utf8_lossy head ++ c ∷ s
unfolding from_utf8_lossy
from_utf8_lossy-append head c s ascii = lossy_from-append idle head c s (omega arith) ascii
