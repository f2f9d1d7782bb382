-- ===== src/Mtls/Gate.antt =====
-- The gate as a whole: from the server's configuration to the point of a connection.
use instance_lib.Manifest.Laws.{contains_pubkey_iff}
use instance_lib.Prelude.{
  get_or, length, sym, subst, [], ◌∙◌, Option-cases, ◌∷◌, AreBytes, Option, Bytes, In, ◌≡◌, some,
  true, inl, inr, >>=-eq-some,
}
use instance_lib.State.{Pubkey}
use instance_lib.Codec.Hex.{hex_decode}
use instance_lib.Manifest.{Manifest, ManifestMember}
use instance_lib.X509.{X509}
use instance_lib.Mtls.{assertion, verify_client_cert, client_point_from_cert, accept, call}
use instance_lib.Mtls.Laws.{client_point_shape, client_point_octets, verify_client_cert_iff}
use instance_lib.Mtls.Rustls.{Rustls, Documented, IsChecked, tls13, verify_by}
use instance_lib.Mtls.Server.{manifest_verifier, server_config, accept_stream}

module _ (x : X509) (r : Rustls) where
  -- A client that is let in: the verifier accepts its leaf, the leaf has the point, which is
  -- uncompressed, the manifest lists it, and under TLS 1.3 the leaf signed a message of the handshake.
  pub record IsClient (manifest : Manifest) (point : Pubkey) : Type 0 where
    pub leaf : Bytes
    pub accepted : verify_client_cert x manifest leaf ≡ assertion
    pub read_from : client_point_from_cert x leaf ≡ some point
    pub size : length point ≡ 65
    pub uncompressed : get_or point 0 0 ≡ 0x04
    pub member : ManifestMember
    pub among : In member manifest.members
    pub listed : hex_decode member.pubkey ≡ some point
    pub message : Bytes
    pub signature : r.Signed
    pub signed : r.verify_tls13 message leaf signature (r.algorithms r.default_provider) ≡ true

module _ (x : X509) (octets : (cert : x.Cert) → AreBytes (x.public_key cert)) (r : Rustls)
    (documented : Documented r) where
  signed_by_tls13 :
      (manifest : Manifest) (tls : r.Tls)
      (c : IsChecked r (tls13 ∷ []) (manifest_verifier x r manifest r.default_provider) tls)
      → r.verify_tls13 c.message c.leaf c.signature (r.algorithms r.default_provider) ≡ true
  signed_by_tls13 manifest tls c = elim c.configured [
    | inl e ↦
        subst
          (λ v.
            verify_by v (manifest_verifier x r manifest r.default_provider) c.message c.leaf
              c.signature
            ≡ true)
          (sym e) c.signed
    | inr none_left ↦ absurd none_left
  ]

  checked-IsClient :
      (manifest : Manifest) (tls : r.Tls)
      → IsChecked r (tls13 ∷ []) (manifest_verifier x r manifest r.default_provider) tls
      → (point : Pubkey) × (accept x (r.peer_certificates tls) ≡ some point)
        × IsClient x r manifest point
  unfolding accept
  checked-IsClient manifest tls c =
      let (point, e, held) = (verify_client_cert_iff x manifest c.leaf).0 c.accepted in
      let (size, head) = client_point_shape x c.leaf point e in
      let (member, among, listed) =
        (contains_pubkey_iff point manifest (client_point_octets x octets c.leaf point e)).0 held in
      (
        point,
        rw c.presented e,
        record {
          leaf = c.leaf;
          accepted = c.accepted;
          read_from = e;
          size = size;
          uncompressed = head;
          member = member;
          among = among;
          listed = listed;
          message = c.message;
          signature = c.signature;
          signed = signed_by_tls13 manifest tls c;
        },
      )

  taken_lem :
      (config : r.Config) (stream : r.Stream) (tls : r.Tls) (pubkey : Option Pubkey)
      → accept_stream x r config stream ≡ some (tls, pubkey)
      → (r.handshake config stream ≡ some tls) × (pubkey ≡ accept x (r.peer_certificates tls))
  unfolding accept_stream
  taken_lem config stream tls pubkey taken = elim (Option-cases (r.handshake config stream)) [
    | inl e ↦ absurd (cc (rw e at taken))
    | inr (tls', e) ↦ let made = rw e at taken in (cc, cc)
  ]

  -- Where rustls does what it documents and the octets of keys are bytes: a stream that the acceptor
  -- of the server's configuration takes comes from a client with a point, every request of the
  -- connection carries that point over whatever it held before, an uncompressed one of 65 octets, the
  -- manifest lists it, and the leaf with the point signed a message of the handshake under TLS 1.3.
  pub accept_stream-IsClient :
      (manifest : Manifest) (cert_der : Bytes) (key_der : r.PrivateKey) (config : r.Config)
      (stream : r.Stream) (tls : r.Tls) (pubkey : Option Pubkey)
      → server_config x r manifest cert_der key_der ≡ some config
      → accept_stream x r config stream ≡ some (tls, pubkey)
      → (point : Pubkey) × (pubkey ≡ some point)
        × ((present : Option Pubkey) → call pubkey present ≡ some point)
        × IsClient x r manifest point
  unfolding server_config call
  accept_stream-IsClient manifest cert_der key_der config stream tls pubkey built taken =
      let (wants, versions, certs) = >>=-eq-some _ _ built in
      let (done, made) = taken_lem config stream tls pubkey taken in
      let (point, known, client) =
        checked-IsClient manifest tls (
          documented r.default_provider _ _ _ key_der wants config versions certs stream tls
            done) in
      (point, made ∙ known, λ present. rw (made, known), client)
