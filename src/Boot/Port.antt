-- ===== src/Boot/Port.antt =====
-- The listener's port and the printed digest.
use instance_lib.Prelude.{
  ◌-◌, ◌+◌, ◌*◌, leb, ◌&&◌, inr, inl, between, ◌==◌, Bool-cases, Option-cases, ℕ, Bytes, Option,
  some, none, ◌≡◌, ◌≤◌, ◌∷◌, [], true, every, every-at, bytes_eq, bytes_eq_iff, AreBytes, arith,
  refl,
}
use instance_lib.Codec.Hex.{hex_encode}
use instance_lib.Boot.{u16_digits, parse_u16, port_of, padded_hex, to_hex}

u16_digits_bound :
    (acc : ℕ) (s : Bytes) (n : ℕ) → acc ≤ 65535 → u16_digits acc s ≡ some n → n ≤ 65535
unfolding u16_digits
u16_digits_bound acc [] n h e = ground arith
u16_digits_bound acc (c ∷ s) n h e =
    elim (Bool-cases (between b'0' b'9' c && leb (acc * 10 + (c - b'0')) 65535)) [
      | inr bad ↦ absurd (cc (rw (bad, u16_digits) at e))
      | inl good ↦
          u16_digits_bound (acc * 10 + (c - b'0')) s n (ground arith) (rw (good, u16_digits) at e)
    ]

parse_u16_bound : (s : Bytes) (n : ℕ) → parse_u16 s ≡ some n → n ≤ 65535
unfolding parse_u16
parse_u16_bound [] n e = cc
parse_u16_bound (c ∷ []) n e = u16_digits_bound 0 (c ∷ []) n (omega arith) e
parse_u16_bound (c ∷ d ∷ s) n e = elim (Bool-cases (c == b'+')) [
  | inl plus ↦ u16_digits_bound 0 (d ∷ s) n (omega arith) (rw plus at e)
  | inr other ↦ u16_digits_bound 0 (c ∷ d ∷ s) n (omega arith) (rw other at e)
]

pub port_of_bound : (setting : Option Bytes) → port_of setting ≤ 65535
unfolding port_of
port_of_bound none = omega arith
port_of_bound (some s) = elim (Option-cases (parse_u16 s)) [
  | inl e ↦ rw (e, port_of) (omega arith)
  | inr (n, e) ↦ rw (e, port_of) (parse_u16_bound s n e)
]

byte_table : every 256 (λ b. bytes_eq (padded_hex b) (hex_encode (b ∷ []))) ≡ true
unfolding every hex_encode bytes_eq
byte_table = refl

-- Where the octets are bytes, `to_hex` of src/main.rs, which formats each byte on its own, writes what
-- `hex_encode` of src/lib.rs writes.
pub to_hex-hex_encode : (bytes : Bytes) → AreBytes bytes → to_hex bytes ≡ hex_encode bytes
unfolding to_hex hex_encode
to_hex-hex_encode [] h = refl
to_hex-hex_encode (b ∷ bytes) (small, h) =
    let e =
      (bytes_eq_iff (padded_hex b) (hex_encode (b ∷ []))).0 (every-at 256 _ byte_table b small) in
    rw (e, to_hex-hex_encode bytes h) refl
