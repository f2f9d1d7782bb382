-- ===== src/Lib.antt =====
-- The instance service: it lets the devices of one cohort enrol over mutual TLS, gives them bearers
-- that live in memory only, and proxies the chat of those who hold one to the model server.
--
-- The parts, and the files that model them:
--   State       src/state.rs. `MemberStore` is the record `Inner`, and each of its methods a function
--               from the store to the new store and its result (`insert`, `get_by_token`,
--               `contains_token`, `revoke_by_member_hash`, `note_nonce`, `allow_attestation`).
--   Mtls        src/mtls.rs: the verifier of the handshake, the server's configuration, the acceptor,
--               and the point that each request of a connection carries.
--   Boot        src/main.rs: the boot, from the environment and the pinned data to the state of the
--               routes, the TLS configuration and the port; a panic is `none`.
--   Manifest    src/manifest.rs: the cohort, and membership in it.
--   AppleJwks   src/apple_jwks.rs: the pinned keys and the check of an Apple identity token.
--   Enroll      src/enroll.rs: the check of a StoreKit transaction and the `/enroll` handler.
--   Manage      src/manage.rs: the `/manage` handler.
--   Chat        src/chat.rs: the `/v1/chat/completions` handler and the relay of the stream.
--               Chat.Channel has the relay task, the channel of 16 frames and the client as a relation:
--               a move is what happens between two waits, and a run is any interleaving of them.
--   Attestation src/attestation.rs: the `/attestation` handler, the quote, its chain and the GPU
--               reports. Attestation.Pem is the layout of a PEM bundle, Attestation.Lifts the loop
--               over the blocks as a relation, Attestation.Reports what the helper command is asked and
--               what is taken from it. Attestation.Entries has the
--               quotes of concurrent requests: each call of the kernel and each `fetch_add` of the
--               counter is a step, and a run is any sequence.
--   Codec       src/lib.rs: hex, base64, SHA-1, UUIDs; `b64_encode` of src/attestation.rs.
--               Codec.Sha1.Fips is SHA-1 as the standard writes it, word by word.
--   Float       `f64` arithmetic, of which the rate limiter of src/state.rs makes use.
--   App, Http   `AppState` of src/state.rs, and the responses of the handlers.
--   State.Registry  what the store promises, without index and order: a function from pubkeys to
--               members, the spent nonces and the allowances, with the answers that each call may get.
--   System      the four routes of src/lib.rs over one store. The handlers run concurrently, and each
--               takes the store's lock once for each thing that it does to it. A step is what happens
--               under one lock: `/manage` takes two, one for the nonce and one for the revoke, and an
--               action whose nonce was noted waits until it is applied. A run is any sequence of
--               steps, from the boot or from any later moment (`Reach`, `Runs`); `World` also records
--               the actions that were applied and the bearers that were drawn. System.History has
--               the enrolment of a run that a bearer comes from, System.Replay what a run keeps of
--               a nonce, System.Undisturbed the runs that do not name a member,
--               System.Registry each run as calls of State.Registry with their causes.
-- The TLS layer hands a request's point to `/enroll` and `/attestation`; `/enroll` writes the store,
-- `/manage` takes from it, `/chat` reads it at the start and before each frame.
--
-- Texts and byte strings are lists of byte values, and `Bytes` is their type. A handler is a function
-- of the request and the store (`AppState`), to the new store and the response; the body of a 200 is
-- what the JSON says. Hash maps are association lists (Prelude.Map); where the program iterates over
-- one, the order is a parameter. `Option` stands for `Result<_, ()>`.
--
-- Parameters of the model are the crates and the system: the X.509 parser (record X509), rustls
-- (record Rustls), the boot's crates, files and environment (record Host), jsonwebtoken (record
-- Jwt), p256 and serde_json (record ManageDeps), hyper (record Backend), the kernel's report
-- interface and the GPU helper (records Kernel and Helper), SHA-256, the Unicode case table, and
-- the random bytes of a request. Where a statement needs to, it assumes that a digest and a key's
-- octets are bytes, that the iteration of a map hands out its entries and no others, that the
-- random bytes of an enrolment make no bearer that is live, in a run none that was drawn before,
-- that the kernel keeps the report directories apart,
-- and that rustls lets in only whom the configured verifier accepts and whose handshake signature
-- verifies.
--
-- Bounds and fuel: the padding of SHA-1 takes at most 64 rounds, since it stops at a multiple of 64;
-- its schedule has 64 words after the first 16. The loop over the PEM blocks of a quote has the length
-- of the text as fuel; each round takes two marks off it. Every other loop is structural. Words of 32
-- bits wrap around (`% 2 ^ 32`). The amounts of the rate limiter are `f64`, rounded as IEEE 754
-- does (Float), and instants are nanoseconds; one is read before the lock is taken, so that the
-- instants of calls may go back.
--
-- Not modelled: the parsing of JSON, the TLS protocol itself, the dispatch of a request to its route,
-- logging, the sockets and the deployment scripts. The own tests of src/state.rs, src/lib.rs and
-- src/attestation.rs are tests of the model (State.UnitTests, Codec.UnitTests, Attestation.UnitTests),
-- but for the vector of the GPU challenges, which takes SHA-256.
pub mod Prelude
pub mod Codec
pub mod Float
pub mod State
pub mod Http
pub mod X509
pub mod Manifest
pub mod Mtls
pub mod Jwt
pub mod AppleJwks
pub mod App
pub mod Enroll
pub mod Manage
pub mod Boot
pub mod Chat
pub mod Attestation
pub mod System
pub mod Fixtures
