-- ===== src/Codec/Uuid.antt =====
-- src/lib.rs: `uuid_v5` and `uuid_eq`.
pub mod Shape
pub mod Compare
use instance_lib.Prelude.{
  false, zero, ◌+◌, ◌*◌, get_or, suc, [], bytes_eq, ◌==◌, drop, true, bit_and, ◌%◌, bit_or, ltb,
  ◌-◌, ◌∷◌, Bool, List, ◌++◌, if◌then◌else◌, take, ℕ, Bytes,
}
use instance_lib.Codec.Hex.{hex_encode, to_ascii_lowercase}
use instance_lib.Codec.Sha1.{sha1}

-- `b[6] = (b[6] & 0x0f) | 0x50; b[8] = (b[8] & 0x3f) | 0x80`.
unfoldable pub stamped : Bytes → Bytes
stamped b =
    take 6 b
    ++ (bit_or (bit_and (get_or b 6 0) 0x0f) 0x50
        ∷ get_or b 7 0
        ∷ bit_or (bit_and (get_or b 8 0) 0x3f) 0x80
        ∷ drop 9 b)

-- `&h[from..to]`.
abbrev pub slice : ℕ → ℕ → Bytes → Bytes
slice from to h = take (to - from) (drop from h)

-- "{}-{}-{}-{}-{}".
unfoldable pub hyphenated : Bytes → Bytes
hyphenated h =
    slice 0 8 h
    ++ (b'-' ∷ slice 8 12 h
        ++ (b'-' ∷ slice 12 16 h ++ (b'-' ∷ slice 16 20 h ++ (b'-' ∷ slice 20 32 h))))

unfoldable pub uuid_v5 : Bytes → Bytes → Bytes
unfolding stamped hyphenated
uuid_v5 namespace name = hyphenated (hex_encode (stamped (take 16 (sha1 (namespace ++ name)))))

-- The decoder of `str::chars`: how many continuation bytes are missing, and the bits so far.
abbrev lead : ℕ → ℕ × ℕ
lead b = if ltb b 0xe0 then (1, b % 32) else if ltb b 0xf0 then (2, b % 16) else (3, b % 8)

unfoldable pub chars_from : ℕ → ℕ → Bytes → List ℕ
chars_from missing acc [] = []
chars_from zero acc (b ∷ s) = elim (ltb b 0x80) [
  | true ↦ b ∷ chars_from zero 0 s
  | false ↦ chars_from (lead b).0 (lead b).1 s
]
chars_from (suc zero) acc (b ∷ s) = (acc * 64 + b % 64) ∷ chars_from zero 0 s
chars_from (suc (suc n)) acc (b ∷ s) = chars_from (suc n) (acc * 64 + b % 64) s

unfoldable pub chars : Bytes → List ℕ
unfolding chars_from
chars s = chars_from 0 0 s

-- `char::to_lowercase`; `other` is the Unicode table beyond ASCII.
module _ (other : ℕ → List ℕ) where
  abbrev lowered : ℕ → List ℕ
  lowered c = if ltb c 0x80 then to_ascii_lowercase c ∷ [] else other c

  -- The closure `norm`, on characters.
  unfoldable pub norm : List ℕ → List ℕ
  norm [] = []
  norm (c ∷ s) = if c == b'-' then norm s else lowered c ++ norm s

  unfoldable pub uuid_eq : Bytes → Bytes → Bool
  unfolding norm chars bytes_eq to_ascii_lowercase
  uuid_eq a b = bytes_eq (norm (chars a)) (norm (chars b))
