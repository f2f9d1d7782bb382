-- ===== src/Chat.antt =====
-- src/chat.rs: the bearer check, the proxied request and the relay of the model's stream. hyper
-- and the environment are arguments of the model; a run of the relay is the list of what it meets.
pub mod Relay
pub mod Laws
pub mod Channel
mod Tests
use instance_lib.Prelude.{
  false, true, [], ◌==◌, not, ◌∷◌, none, if◌then◌else◌, List, ◌>>=◌, codes, ℕ, some, Option, Bytes,
  Bool,
}
use instance_lib.Http.{Response, json, err, unauthorized, bad_gateway}
use instance_lib.State.{Inner, contains_token}

abbrev pub revoked_frame : Bytes
revoked_frame = codes "data: {\"error\":{\"message\":\"session revoked\",\"type\":\"revoked\"}}\n\n"

-- `str::strip_prefix`.
unfoldable pub strip_prefix : Bytes → Bytes → Option Bytes
strip_prefix [] s = some s
strip_prefix (p ∷ prefix) [] = none
strip_prefix (p ∷ prefix) (c ∷ s) = if p == c then strip_prefix prefix s else none

-- The argument is the text of the `Authorization` header, where there is a printable one.
unfoldable pub bearer : Option Bytes → Option Bytes
unfolding strip_prefix
bearer authorization = do raw ← authorization; strip_prefix (codes "Bearer ") raw

-- One turn of the stream of the model's answer.
pub data Frame : Type 0 where
  failed : Frame
  no_data : Frame
  chunk : Bytes → Frame

-- A turn: the frame, the store at the moment of the check, and whether the client still reads.
pub record Turn : Type 0 where
  pub frame : Frame
  pub members : Inner
  pub reads : Bool

-- What a send to the client delivers.
abbrev pub sent : Bool → Bytes → List Bytes
sent true data' = data' ∷ []
sent false data' = []

-- The spawned task: what the client receives, in order.
unfoldable pub relay : Bytes → List Turn → List Bytes
relay token [] = []
relay token (turn ∷ turns) = elim turn.frame [
  | failed ↦ []
  | no_data ↦ relay token turns
  | chunk data' ↦ elim (contains_token token turn.members) [
    | false ↦ sent turn.reads revoked_frame
    | true ↦ elim turn.reads [ true ↦ data' ∷ relay token turns | false ↦ [] ]
  ]
]

-- The answer of the backend, as far as the handler looks at it.
pub record Upstream : Type 0 where
  pub is_success : Bool
  pub code : ℕ
  pub turns : List Turn

-- vLLM's server, bound to loopback.
abbrev pub default_upstream : Bytes
default_upstream = codes "http://127.0.0.1:8000/v1/chat/completions"

-- `upstream()`, by the value of IRON_VLLM_URL.
abbrev pub upstream_url : Option Bytes → Bytes
upstream_url none = default_upstream
upstream_url (some url) = url

-- What is set on `hyper::Request::builder()`.
pub record Draft : Type 0 where
  pub method : Bytes
  pub uri : Bytes
  pub content_type : Bytes
  pub accepts : Bytes
  pub body : Bytes

-- The request for a body: the body as it came.
abbrev pub draft_of : Option Bytes → Bytes → Draft
draft_of url body = record {
  method = codes "POST";
  uri = upstream_url url;
  content_type = codes "application/json";
  accepts = codes "text/event-stream";
  body = body;
}

-- Building a request and sending it; `valid_code` is `StatusCode::from_u16`, and `vllm_url` the
-- environment's IRON_VLLM_URL.
pub record Backend : Type 1 where
  pub Request : Type 0
  pub vllm_url : Option Bytes
  pub build : Draft → Option Request
  pub send : Request → Option Upstream
  pub valid_code : ℕ → Option ℕ

abbrev pub code_or_gateway : Option ℕ → ℕ
code_or_gateway none = bad_gateway
code_or_gateway (some code) = code

module _ (backend : Backend) where
  open backend use {vllm_url, build, send, valid_code}

  -- The bearer that is live in the store.
  unfoldable pub live_bearer : Option Bytes → Inner → Option Bytes
  live_bearer none members = none
  live_bearer (some token) members = if contains_token token members then some token else none

  unfoldable pub answer : Bytes → Upstream → Response (List Bytes)
  unfolding relay
  answer token upstream =
      if not upstream.is_success
      then err (code_or_gateway (valid_code upstream.code))
          (codes "model backend rejected the request")
      else json (relay token upstream.turns)

  -- The body of a 200 answer is what the relay delivers.
  unfoldable pub handler : Option Bytes → Bytes → Inner → Response (List Bytes)
  unfolding bearer live_bearer answer
  handler authorization body members = elim (live_bearer (bearer authorization) members) [
    | none ↦ err unauthorized (codes "invalid bearer")
    | some token ↦ elim (build (draft_of vllm_url body)) [
      | none ↦ err bad_gateway (codes "bad upstream request")
      | some request ↦ elim (send request) [
        | none ↦ err bad_gateway (codes "model backend unavailable")
        | some upstream ↦ answer token upstream
      ]
    ]
  ]
