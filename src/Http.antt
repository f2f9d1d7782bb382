-- ===== src/Http.antt =====
-- The responses of the handlers: a JSON body with status 200, or `err(code, msg)`.
use instance_lib.Prelude.{ℕ, Bytes}

pub data Response (B : Type 0) : Type 0 where
  json : B → Response B
  err : (code : ℕ) (msg : Bytes) → Response B

-- axum's `StatusCode` constants.
abbrev pub bad_request : ℕ
bad_request = 400

abbrev pub unauthorized : ℕ
unauthorized = 401

abbrev pub forbidden : ℕ
forbidden = 403

abbrev pub conflict : ℕ
conflict = 409

abbrev pub too_many_requests : ℕ
too_many_requests = 429

abbrev pub bad_gateway : ℕ
bad_gateway = 502

abbrev pub service_unavailable : ℕ
service_unavailable = 503

abbrev pub status : {B : Type 0} → Response B → ℕ
status (json body) = 200
status (err code msg) = code
