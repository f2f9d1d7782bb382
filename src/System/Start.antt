-- ===== src/System/Start.antt =====
-- How the boot of src/main.rs and the runs of the service join.
use instance_lib.Prelude.{ap, ℕ, Bytes, List, Option, some, none, ◌≡◌, refl, AreBytes}
use instance_lib.X509.{X509}
use instance_lib.Jwt.{Jwt}
use instance_lib.State.{Pubkey}
use instance_lib.Attestation.Quote.{Kernel}
use instance_lib.Attestation.Gpus.{Helper}
use instance_lib.Manage.{ManageDeps}
use instance_lib.Mtls.{verify_client_cert, assertion, accept, call}
use instance_lib.Mtls.Rustls.{Rustls, Documented}
use instance_lib.Mtls.Server.{accept_stream}
use instance_lib.Boot.{Host, Booted, main}
use instance_lib.Boot.Laws.{main_gate, main-IsStarted}
use instance_lib.System.{Service, booted, at_store, client_of}

module _ (x : X509) (jwt : Jwt) (sha256 : Bytes → Bytes) (lowercase : ℕ → List ℕ)
    (deps : ManageDeps) (kernel : Kernel) (helper : Helper) (r : Rustls)
    (host : Host deps.Verifier r.PrivateKey) where
  abbrev pub service_of : Booted jwt.Key deps.Verifier r.Config → Service
  service_of b = record {
    x = x;
    jwt = jwt;
    sha256 = sha256;
    lowercase = lowercase;
    deps = deps;
    kernel = kernel;
    helper = helper;
    boot = b.state.boot;
    manifest = b.state.manifest;
    anchors = b.state.anchors;
  }

  -- Where rustls does what it documents and the octets of keys are bytes: a boot that does not panic
  -- hands the routes the state at which every run of the service starts, and for every connection
  -- that its acceptor takes there is a leaf that the verifier accepts and that gives the requests of
  -- the connection their pubkey, as the steps of a run ask.
  pub main_starts :
      ((cert : x.Cert) → AreBytes (x.public_key cert))
      → Documented r
      → (b : Booted jwt.Key deps.Verifier r.Config) → main x jwt sha256 r host ≡ some b
      → (b.state ≡ at_store (service_of b) booted.members)
        × ((stream : r.Stream) (tls : r.Tls) (pubkey : Option Pubkey)
            → accept_stream x r b.config stream ≡ some (tls, pubkey)
            → (leaf : Bytes) × (verify_client_cert x b.state.manifest leaf ≡ assertion)
              × ((chain : List Bytes) → call pubkey none ≡ client_of (service_of b) leaf chain))
  unfolding accept
  main_starts octets documented b e = (
    ap (λ g. at_store (service_of b) g) (main-IsStarted x jwt sha256 r host b e).empty,
    λ stream tls pubkey taken.
        let (point, known, carried, client) =
          main_gate x jwt sha256 r host octets documented b e stream tls pubkey taken in
        (client.leaf, client.accepted, λ chain. rw (known, client.read_from) refl),
  )
