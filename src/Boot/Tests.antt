-- ===== src/Boot/Tests.antt =====
-- src/main.rs: a boot with a manifest, and one without.
use instance_lib.Prelude.{◌∷◌, replicate, List, codes, Bytes, Option, some, none, [], ◌≡◌, refl}
use instance_lib.Mtls.{assertion, verify_client_cert, call}
use instance_lib.Mtls.Server.{accept_stream}
use instance_lib.Mtls.Gate.{IsClient}
use instance_lib.Manifest.{default}
use instance_lib.Codec.Hex.{hex_encode}
use instance_lib.Boot.{port_of}
use instance_lib.Http.{json}
use instance_lib.State.{Pubkey, empty_store}
use instance_lib.Attestation
use instance_lib.Attestation.{envelope_of}
use instance_lib.Boot.Attested.{IsBound, main_attests}
use instance_lib.Boot.Laws.{main_gate, main_closed}
use instance_lib.Fixtures.{
  plain_helper, plain_kernel, plain_deps, lower_other, manifest, byte_x509, byte_x509-AreBytes,
  plain_jwt, digest, point,
}
use instance_lib.Fixtures.Tls.{plain_rustls, plain_rustls-Documented}
use instance_lib.Fixtures.Hosts.{dev_host, dev_host-main, bare_host, bare_host-main, booted_with}
use instance_lib.System.{booted, at_store, client_of}
use instance_lib.System.Start.{main_starts, service_of}

ports :
    (port_of (some (codes "+8443")) ≡ 8443)
    × (port_of (some (codes "65536")) ≡ 443)
    × (port_of (some (codes "+")) ≡ 443)
    × (port_of (some []) ≡ 443)
unfolding port_of
ports = (refl, refl, refl, refl)

main_gate_example :
    (p : Pubkey) × (some (point 9) ≡ some p)
    × ((present : Option Pubkey) → call (some (point 9)) present ≡ some p)
    × IsClient byte_x509 plain_rustls manifest p
unfolding accept_stream instance_lib.Mtls.verify_client_cert
    instance_lib.Mtls.client_point_from_cert instance_lib.Manifest.contains_pubkey
    instance_lib.Codec.Hex.eq_ignore_ascii_case hex_encode instance_lib.Mtls.accept
main_gate_example =
    main_gate byte_x509 plain_jwt digest plain_rustls dev_host byte_x509-AreBytes
      plain_rustls-Documented (booted_with manifest 8443) dev_host-main ([], []) ([], [])
      (some (point 9)) refl

main_closed_example :
    accept_stream byte_x509 plain_rustls (booted_with default 443).config ([], []) ≡ none
main_closed_example =
    main_closed byte_x509 plain_jwt digest plain_rustls bare_host byte_x509-AreBytes
      plain_rustls-Documented (booted_with default 443) bare_host-main refl ([], [])

main_starts_example :
    let b = booted_with manifest 8443 in
    let s =
      service_of byte_x509 plain_jwt digest lower_other plain_deps plain_kernel plain_helper
        plain_rustls dev_host b in
    (b.state ≡ at_store s booted.members)
    × ((stream : plain_rustls.Stream) (tls : plain_rustls.Tls) (pubkey : Option Pubkey)
        → accept_stream byte_x509 plain_rustls b.config stream ≡ some (tls, pubkey)
        → (leaf : Bytes) × (verify_client_cert byte_x509 b.state.manifest leaf ≡ assertion)
          × ((chain : List Bytes) → call pubkey none ≡ client_of s leaf chain))
main_starts_example =
    main_starts byte_x509 plain_jwt digest lower_other plain_deps plain_kernel plain_helper
      plain_rustls dev_host byte_x509-AreBytes plain_rustls-Documented (booted_with manifest 8443)
      dev_host-main

dev_host-attests :
    (instance_lib.Attestation.handler digest plain_kernel plain_helper none 0
      (booted_with manifest 8443).state.boot.spki_sha256
      (some (hex_encode (replicate 32 2)))
      empty_store
      (record { fs = 0; seq = 5 })).1.1
    ≡ json (
        envelope_of (record {
          quote = codes "quote";
          cpu_chain = [];
          gpus = replicate 8 (codes "AB", codes "BC" ∷ []);
        }))
unfolding instance_lib.Attestation.handler instance_lib.Attestation.attest
    instance_lib.Attestation.nonce_of instance_lib.Codec.Hex.hex_decode hex_encode
    instance_lib.Attestation.gather instance_lib.Attestation.Quote.tdx_quote
    instance_lib.Attestation.Quote.write_and_read instance_lib.Attestation.Gpus.gpu_reports_all
    instance_lib.Attestation.gpu_nonces instance_lib.Attestation.Gpus.decode_gpu
    instance_lib.Codec.Base64.b64_decode_any instance_lib.Attestation.Quote.pck_chain_from_quote
dev_host-attests = refl

main_attests_example :
    IsBound byte_x509 plain_jwt digest plain_rustls dev_host plain_kernel plain_helper
      (booted_with manifest 8443)
      (some (hex_encode (replicate 32 2)))
      (record { fs = 0; seq = 5 })
      (envelope_of (record {
        quote = codes "quote";
        cpu_chain = [];
        gpus = replicate 8 (codes "AB", codes "BC" ∷ []);
      }))
main_attests_example =
    main_attests byte_x509 plain_jwt digest plain_rustls dev_host plain_kernel plain_helper
      (booted_with manifest 8443) dev_host-main none 0 (some (hex_encode (replicate 32 2)))
      empty_store (record { fs = 0; seq = 5 }) _ dev_host-attests
