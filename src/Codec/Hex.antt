-- ===== src/Codec/Hex.antt =====
-- src/lib.rs: `hex_encode` and `hex_decode`, and `str::eq_ignore_ascii_case`, by which hex is compared.
pub mod Laws
pub mod Compare
use instance_lib.Prelude.{
  ◌*◌, bit_or, ◌>>=◌, [], bit_and, ◌^◌, ◌==◌, ◌/◌, ◌%◌, none, ◌-◌, ◌+◌, get_or, length, some,
  between, map, codes, Bool, ◌∷◌, Option, if◌then◌else◌, bytes_eq, Bytes, ℕ,
}

-- const HEX.
abbrev hex_digits : Bytes
hex_digits = codes "0123456789abcdef"

unfoldable pub hex_encode : Bytes → Bytes
hex_encode [] = []
hex_encode (b ∷ bytes) =
    get_or hex_digits (b / 2 ^ 4) 0 ∷ get_or hex_digits (bit_and b 0x0f) 0 ∷ hex_encode bytes

-- The closure `val`.
unfoldable pub hex_val : ℕ → Option ℕ
hex_val c =
    if between b'0' b'9' c
    then some (c - b'0')
    else if between b'a' b'f' c
    then some (c - b'a' + 10)
    else if between b'A' b'F' c
    then some (c - b'A' + 10)
    else none

-- The loop, two bytes a round. The length is even, so a byte is never left alone.
unfoldable pub hex_pairs : Bytes → Option Bytes
hex_pairs [] = some []
hex_pairs (c ∷ []) = none
hex_pairs (c ∷ d ∷ s) = do
  hi ← hex_val c
  lo ← hex_val d
  out ← hex_pairs s
  some (bit_or (hi * 2 ^ 4 % 2 ^ 8) lo ∷ out)

unfoldable pub hex_decode : Bytes → Option Bytes
unfolding hex_pairs hex_val
hex_decode s = if length s % 2 == 0 then hex_pairs s else none

-- `u8::to_ascii_lowercase`.
unfoldable pub to_ascii_lowercase : ℕ → ℕ
to_ascii_lowercase c = if between b'A' b'Z' c then c + 32 else c

unfoldable pub eq_ignore_ascii_case : Bytes → Bytes → Bool
unfolding to_ascii_lowercase bytes_eq
eq_ignore_ascii_case a b = bytes_eq (map to_ascii_lowercase a) (map to_ascii_lowercase b)
