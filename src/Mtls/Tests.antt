-- ===== src/Mtls/Tests.antt =====
-- src/mtls.rs: the gate for a device of the cohort.
use instance_lib.Fixtures.Tls.{plain_rustls-Documented, plain_rustls}
use instance_lib.Mtls.Gate.{accept_stream-IsClient, IsClient}
use instance_lib.Mtls.Server.{manifest_verifier, accept_stream, server_config}
use instance_lib.State.{Pubkey}
use instance_lib.Manifest.{contains_pubkey}
use instance_lib.Codec.Hex.{hex_encode, eq_ignore_ascii_case}
use instance_lib.Prelude.{Option, ◌∷◌, some, ◌≡◌, [], refl}
use instance_lib.Mtls.Rustls.{tls13}
use instance_lib.Mtls.{client_point_from_cert, verify_client_cert, call, accept}
use instance_lib.Fixtures.{point, manifest, byte_x509, byte_x509-AreBytes}

accept_stream_example :
    (p : Pubkey) × (some (point 9) ≡ some p)
    × ((present : Option Pubkey) → call (some (point 9)) present ≡ some p)
    × IsClient byte_x509 plain_rustls manifest p
unfolding server_config accept_stream verify_client_cert client_point_from_cert contains_pubkey
    eq_ignore_ascii_case hex_encode accept
accept_stream_example =
    accept_stream-IsClient byte_x509 byte_x509-AreBytes plain_rustls plain_rustls-Documented
      manifest [] [] (tls13 ∷ [], manifest_verifier byte_x509 plain_rustls manifest []) ([], [])
      ([], []) (some (point 9)) refl refl
