-- ===== src/Boot/Laws.antt =====
-- The boot's gate: who may connect to what it starts.
use instance_lib.Mtls.{call}
use instance_lib.Prelude.{
  In, sym, inr, inl, Option-cases, refl, some-injective, subst, >>=-elim, Bytes, Option, some, none,
  ◌≡◌, ◌≤◌, codes, AreBytes,
}
use instance_lib.X509.{X509}
use instance_lib.Jwt.{Jwt}
use instance_lib.State.{Pubkey, empty_store}
use instance_lib.Manifest.{default}
use instance_lib.Mtls.Rustls.{Rustls, Documented}
use instance_lib.Mtls.Server.{server_config, accept_stream}
use instance_lib.Mtls.Gate.{IsClient, accept_stream-IsClient}
use instance_lib.Boot.{Host, Booted, load_manifest, pinned_anchors, main, to_hex}
use instance_lib.Boot.Port.{port_of_bound}

module _ (x : X509) (jwt : Jwt) (sha256 : Bytes → Bytes) {Verifier : Type 0} (r : Rustls)
    (host : Host Verifier r.PrivateKey) where
  -- What a boot that did not panic has started.
  pub record IsStarted (b : Booted jwt.Key Verifier r.Config) : Type 0 where
    pub key_pair : host.KeyPair
    pub generated : host.generate ≡ some key_pair
    pub spki : b.state.boot.spki_sha256 ≡ sha256 (host.subject_public_key_info key_pair)
    pub params : host.Params
    pub cert_der : Bytes
    pub self_signed : host.self_signed params key_pair ≡ some cert_der
    pub configured :
        server_config x r b.state.manifest cert_der (host.pkcs8_key key_pair) ≡ some b.config
    pub loaded :
        load_manifest x jwt sha256 r host (host.var (codes "IRON_MANIFEST_PATH"))
        ≡ some b.state.manifest
    pub anchored : pinned_anchors x jwt sha256 r host ≡ some b.state.anchors
    pub empty : b.state.members ≡ empty_store
    pub printed : b.printed ≡ to_hex b.state.boot.spki_sha256
    pub port : b.port ≤ 65535

  pub main-IsStarted :
      (b : Booted jwt.Key Verifier r.Config) → main x jwt sha256 r host ≡ some b → IsStarted b
  unfolding main
  main-IsStarted b e = >>=-elim host.generate _ e (λ key_pair generated e.
      >>=-elim (host.certificate_params _) _ e (λ params made e.
        >>=-elim (host.self_signed params key_pair) _ e (λ cert_der signed e.
          >>=-elim (load_manifest x jwt sha256 r host _) _ e (λ manifest loaded e.
            >>=-elim (pinned_anchors x jwt sha256 r host) _ e (λ anchors pinned e.
              >>=-elim (server_config x r manifest cert_der _) _ e (λ tls configured e.
                subst IsStarted (some-injective _ _ e) (record {
                  key_pair = key_pair;
                  generated = generated;
                  spki = refl;
                  params = params;
                  cert_der = cert_der;
                  self_signed = signed;
                  configured = configured;
                  loaded = loaded;
                  anchored = pinned;
                  empty = refl;
                  printed = refl;
                  port = port_of_bound (host.var (codes "IRON_INSTANCE_PORT"));
                })))))))

  module _ (octets : (cert : x.Cert) → AreBytes (x.public_key cert)) (documented : Documented r)
      (b : Booted jwt.Key Verifier r.Config) (booted : main x jwt sha256 r host ≡ some b) where
    -- Where rustls does what it documents and the octets of keys are bytes: who connects to a service
    -- that booted has a point that the manifest of the routes' state lists, proved by a signature
    -- under TLS 1.3, and every request of the connection carries it.
    pub main_gate :
        (stream : r.Stream) (tls : r.Tls) (pubkey : Option Pubkey)
        → accept_stream x r b.config stream ≡ some (tls, pubkey)
        → (point : Pubkey) × (pubkey ≡ some point)
          × ((present : Option Pubkey) → call pubkey present ≡ some point)
          × IsClient x r b.state.manifest point
    main_gate stream tls pubkey taken =
        let started = main-IsStarted b booted in
        accept_stream-IsClient x octets r documented b.state.manifest started.cert_der
          (host.pkcs8_key started.key_pair) b.config stream tls pubkey started.configured taken

    -- Where rustls does what it documents and the octets of keys are bytes: a service that booted
    -- without IRON_MANIFEST_PATH takes no connection at all.
    pub main_closed :
        host.var (codes "IRON_MANIFEST_PATH") ≡ none
        → (stream : r.Stream) → accept_stream x r b.config stream ≡ none
    unfolding load_manifest
    main_closed unset stream = elim (Option-cases (accept_stream x r b.config stream)) [
      | inl e ↦ e
      | inr ((tls, pubkey), taken) ↦
          let (point, known, carried, client) = main_gate stream tls pubkey taken in
          let loaded = rw (unset, load_manifest) at (main-IsStarted b booted).loaded in
          let same : b.state.manifest ≡ default = sym (some-injective _ _ loaded) in
          absurd (subst (λ m. In client.member m.members) same client.among)
    ]
