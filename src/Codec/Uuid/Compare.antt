-- ===== src/Codec/Uuid/Compare.antt =====
-- src/lib.rs: `uuid_eq`, of the text of a UUIDv5 and any other.
use instance_lib.Prelude.{
  some-injective, subst, ◌-◌, false, ℕ, Bytes, List, true, [], ◌∷◌, ◌++◌, ◌≡◌, ◌<◌, ◌==◌, ◌↔◌, ◌%◌,
  ◌/◌, All, All-append, All-take, All-drop, AreBytes, if◌then◌else◌, Bool-cases, inl, inr, refl,
  sym, ap, ◌∙◌, map, take, drop, some, bytes_eq_iff, arith, every, every-at, ltb,
}
use instance_lib.Prelude.Bits.{bit_and_15}
use instance_lib.Codec.Hex.{hex_encode, hex_decode, to_ascii_lowercase, eq_ignore_ascii_case}
use instance_lib.Codec.Hex.Laws.{hex_decode-hex_encode, digit, high, low}
use instance_lib.Codec.Hex.Compare.{lower-hex_encode, eq_ignore_ascii_case-hex_encode_iff}
use instance_lib.Codec.Base64.Lines.{IsPlain, plain, plain-IsPlain}
use instance_lib.Codec.Sha1.{Digest, output, sha1, to_be_bytes}
use instance_lib.Codec.Uuid.{slice, stamped, hyphenated, uuid_v5, uuid_eq, norm, chars, chars_from}
use instance_lib.Codec.Uuid.Shape.{version_lem, variant_lem, sha1-output}

unfoldable pub without_hyphens : Bytes → Bytes
without_hyphens [] = []
without_hyphens (c ∷ s) = let rest = without_hyphens s in if c == b'-' then rest else c ∷ rest

-- The 16 octets of the UUID.
abbrev pub octets : Bytes → Bytes → Bytes
octets namespace name = stamped (take 16 (sha1 (namespace ++ name)))

chars_ascii : (s : Bytes) → All (λ c. c < 128) s → chars s ≡ s
unfolding chars chars_from
chars_ascii [] h = refl
chars_ascii (c ∷ s) (small, h) =
    let one : ltb c 0x80 ≡ true = ground arith in
    rw (one, chars_from) (ap (λ t. c ∷ t) (chars_ascii s h))

module _ (other : ℕ → List ℕ) where
  norm_ascii :
      (s : Bytes) → All (λ c. c < 128) s → norm other s ≡ map to_ascii_lowercase (without_hyphens s)
  unfolding norm without_hyphens
  norm_ascii [] h = refl
  norm_ascii (c ∷ s) (small, h) =
      let one : ltb c 0x80 ≡ true = ground arith in
      elim (Bool-cases (c == b'-')) [
        | inl hyphen ↦ rw (hyphen) (norm_ascii s h)
        | inr kept ↦ rw (kept, one) (ap (λ t. to_ascii_lowercase c ∷ t) (norm_ascii s h))
      ]

without_hyphens-append :
    (s t : Bytes) → without_hyphens (s ++ t) ≡ without_hyphens s ++ without_hyphens t
unfolding without_hyphens
without_hyphens-append [] t = refl
without_hyphens-append (c ∷ s) t = elim (Bool-cases (c == b'-')) [
  | inl hyphen ↦ rw (hyphen) (without_hyphens-append s t)
  | inr kept ↦ rw (kept) (ap (λ r. c ∷ r) (without_hyphens-append s t))
]

without_hyphens-IsPlain : (s : Bytes) → All IsPlain s → without_hyphens s ≡ s
unfolding without_hyphens
without_hyphens-IsPlain [] h = refl
without_hyphens-IsPlain (c ∷ s) ((small, kept), h) =
    let differs : (c == b'-') ≡ false = ground arith in
    rw (differs) (ap (λ r. c ∷ r) (without_hyphens-IsPlain s h))

-- Hyphens in between do not count.
hyphens_dropped :
    (s t u v w : Bytes)
    → without_hyphens (s ++ (b'-' ∷ t ++ (b'-' ∷ u ++ (b'-' ∷ v ++ (b'-' ∷ w)))))
      ≡ without_hyphens (s ++ (t ++ (u ++ (v ++ w))))
unfolding without_hyphens
hyphens_dropped s t u v w =
    without_hyphens-append s _
    ∙ ap (λ r. without_hyphens s ++ r)
        (without_hyphens-append t _
          ∙ ap (λ r. without_hyphens t ++ r)
              (without_hyphens-append u _
                ∙ ap (λ r. without_hyphens u ++ r)
                    (without_hyphens-append v _ ∙ sym (without_hyphens-append v w))
                ∙ sym (without_hyphens-append u _))
          ∙ sym (without_hyphens-append t _))
    ∙ sym (without_hyphens-append s _)

digits_plain : every 16 (λ v. plain (digit v)) ≡ true
unfolding every
digits_plain = refl

digit-IsPlain : (v : ℕ) → v < 16 → IsPlain (digit v)
digit-IsPlain v h = plain-IsPlain (digit v) (every-at 16 (λ d. plain (digit d)) digits_plain v h)

hex_encode-IsPlain : (bs : Bytes) → AreBytes bs → All IsPlain (hex_encode bs)
unfolding hex_encode
hex_encode-IsPlain [] h = tt
hex_encode-IsPlain (b ∷ bs) (small, h) = (
  digit-IsPlain (high b) (omega arith),
  (digit-IsPlain (low b) (omega (arith, bit_and_15 b)), hex_encode-IsPlain bs h),
)

hyphenated-ascii : (h : Bytes) → All (λ c. c < 128) h → All (λ c. c < 128) (hyphenated h)
unfolding hyphenated
hyphenated-ascii h a = All-append _ (slice 0 8 h) _ (piece 0 8) (
  omega arith,
  All-append _ (slice 8 12 h) _ (piece 8 12) (
    omega arith,
    All-append _ (slice 12 16 h) _ (piece 12 16)
        (omega arith, All-append _ (slice 16 20 h) _ (piece 16 20) (omega arith, piece 20 32)),
  ),
)
  where
    piece : (from to : ℕ) → All (λ c. c < 128) (slice from to h)
    piece from to = All-take _ (to - from) (drop from h) (All-drop _ from h a)

ascii : (s : Bytes) → All IsPlain s → All (λ c. c < 128) s
ascii [] h = tt
ascii (c ∷ s) (here, h) = (here.0, ascii s h)

abbrev octets_of : Digest → Bytes
octets_of h = stamped (take 16 (output h))

octets_of-AreBytes : (h : Digest) → AreBytes (octets_of h)
unfolding stamped to_be_bytes
octets_of-AreBytes h =
    rw (version_lem (h.b / 256 % 256), variant_lem (h.c / 16777216 % 256)) (omega arith)

whole :
    (h : Digest)
    → without_hyphens (hyphenated (hex_encode (octets_of h)))
      ≡ without_hyphens (hex_encode (octets_of h))
unfolding hyphenated stamped to_be_bytes hex_encode
whole h =
    let t = hex_encode (octets_of h) in
    hyphens_dropped (slice 0 8 t) (slice 8 12 t) (slice 12 16 t) (slice 16 20 t) (slice 20 32 t)

module _ (other : ℕ → List ℕ) where
  norm-uuid :
      (h : Digest)
      → norm other (chars (hyphenated (hex_encode (octets_of h)))) ≡ hex_encode (octets_of h)
  norm-uuid h =
      let small = octets_of-AreBytes h in
      let clean = hex_encode-IsPlain (octets_of h) small in
      let text = hyphenated-ascii (hex_encode (octets_of h)) (ascii _ clean) in
      ap (norm other) (chars_ascii _ text)
      ∙ norm_ascii other _ text
      ∙ ap (map to_ascii_lowercase) (whole h ∙ without_hyphens-IsPlain _ clean)
      ∙ lower-hex_encode (octets_of h) small

  norm-uuid_v5 :
      (namespace name : Bytes)
      → AreBytes (octets namespace name)
        × (norm other (chars (uuid_v5 namespace name)) ≡ hex_encode (octets namespace name))
  unfolding uuid_v5
  norm-uuid_v5 namespace name =
      let (h, e) = sha1-output (namespace ++ name) in
      subst
        (λ d.
          AreBytes (stamped (take 16 d))
          × (norm other (chars (hyphenated (hex_encode (stamped (take 16 d)))))
              ≡ hex_encode (stamped (take 16 d))))
        (sym e) (octets_of-AreBytes h, norm-uuid h)

  lower_iff :
      (s bs : Bytes)
      → AreBytes bs
      → (hex_encode bs ≡ map to_ascii_lowercase s) ↔ (hex_decode s ≡ some bs)
  unfolding eq_ignore_ascii_case
  lower_iff s bs small =
      let same = lower-hex_encode bs small in
      let decodes = eq_ignore_ascii_case-hex_encode_iff s bs small in
      (
        λ e. decodes.0 ((bytes_eq_iff (map to_ascii_lowercase s) _).1 (sym e ∙ sym same)),
        λ e. sym ((bytes_eq_iff (map to_ascii_lowercase s) _).0 (decodes.1 e) ∙ same),
      )

  -- The text of a UUIDv5 equals an ASCII text, case and hyphens aside, exactly where that text
  -- without its hyphens is hex that decodes to the 16 octets of the UUID.
  pub uuid_eq-uuid_v5_iff :
      (namespace name got : Bytes)
      → All (λ c. c < 128) got
      → (uuid_eq other (uuid_v5 namespace name) got ≡ true)
        ↔ (hex_decode (without_hyphens got) ≡ some (octets namespace name))
  unfolding uuid_eq
  uuid_eq-uuid_v5_iff namespace name got a =
      let (small, mine) = norm-uuid_v5 namespace name in
      let theirs = ap (norm other) (chars_ascii got a) ∙ norm_ascii other got a in
      let decodes = lower_iff (without_hyphens got) (octets namespace name) small in
      (
        λ e. decodes.0 (sym mine ∙ (bytes_eq_iff _ _).0 e ∙ theirs),
        λ e. (bytes_eq_iff _ _).1 (mine ∙ decodes.1 e ∙ sym theirs),
      )

  -- A text that equals the UUIDs of two names, case and hyphens aside, shows that their 16 octets
  -- are the same: the digests of the two names share all bits that a UUID keeps.
  pub uuid_eq-binds :
      (namespace name name' got : Bytes)
      → uuid_eq other (uuid_v5 namespace name) got ≡ true
      → uuid_eq other (uuid_v5 namespace name') got ≡ true
      → octets namespace name ≡ octets namespace name'
  unfolding uuid_eq
  uuid_eq-binds namespace name name' got e e' =
      let (small, mine) = norm-uuid_v5 namespace name in
      let (small', mine') = norm-uuid_v5 namespace name' in
      let same = sym mine ∙ (bytes_eq_iff _ _).0 e ∙ sym ((bytes_eq_iff _ _).0 e') ∙ mine' in
      some-injective _ _
        (sym (hex_decode-hex_encode _ small) ∙ ap hex_decode same ∙ hex_decode-hex_encode _ small')
