-- ===== src/Manifest/Laws.antt =====
-- Membership, by what the manifest's hex stands for.
use instance_lib.Prelude.{In→any, any→In, some, In, ◌↔◌, true, ◌≡◌, AreBytes, Bytes}
use instance_lib.Codec.Hex.{hex_encode, hex_decode, eq_ignore_ascii_case}
use instance_lib.Codec.Hex.Compare.{eq_ignore_ascii_case-hex_encode_iff}
use instance_lib.Manifest.{ManifestMember, Manifest, contains_pubkey}

-- A point whose octets are bytes is a member exactly where some entry's `pubkey` is hex, in either
-- case, for its bytes.
pub contains_pubkey_iff :
    (point : Bytes) (manifest : Manifest)
    → AreBytes point
    → (contains_pubkey point manifest ≡ true)
      ↔ ((m : ManifestMember) × In m manifest.members × (hex_decode m.pubkey ≡ some point))
unfolding contains_pubkey
contains_pubkey_iff point manifest h = (
  λ e.
      let (m, held, same) =
        any→In (λ (m : ManifestMember). eq_ignore_ascii_case m.pubkey (hex_encode point))
          manifest.members e in
      (m, held, (eq_ignore_ascii_case-hex_encode_iff m.pubkey point h).0 same),
  λ (m, held, e).
      In→any (λ (m : ManifestMember). eq_ignore_ascii_case m.pubkey (hex_encode point))
        manifest.members held ((eq_ignore_ascii_case-hex_encode_iff m.pubkey point h).1 e),
)
