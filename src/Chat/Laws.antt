-- ===== src/Chat/Laws.antt =====
-- Who reaches the model.
use instance_lib.Prelude.{
  refl, ◌↔◌, ◌∙◌, sym, none, arith, if◌then◌else◌, codes, Option-cases, some, Option, inr, inl, ap,
  true, Bool-cases, false, [], ◌++◌, ◌∷◌, ◌≡◌, Bytes, List,
}
use instance_lib.Http.{json, err}
use instance_lib.State.{Inner, contains_token}
use instance_lib.Chat.{
  draft_of, strip_prefix, bearer, relay, Upstream, Backend, live_bearer, answer, handler,
}

strip_prefix_lem : (prefix s rest : Bytes) → strip_prefix prefix s ≡ some rest → s ≡ prefix ++ rest
unfolding strip_prefix
strip_prefix_lem [] s rest e = cc
strip_prefix_lem (p ∷ prefix) [] rest e = absurd (cc)
strip_prefix_lem (p ∷ prefix) (c ∷ s) rest e =
    let same : p ≡ c = ground arith in cc (same, strip_prefix_lem prefix s rest (ground arith))

-- What a request that gets the model's stream has shown.
pub record IsServed (backend : Backend) (authorization : Option Bytes) (body : Bytes)
    (members : Inner) (out : List Bytes) : Type 0 where
  pub token : Bytes
  pub carried : authorization ≡ some (codes "Bearer " ++ token)
  pub live : contains_token token members ≡ true
  pub request : backend.Request
  pub built : backend.build (draft_of backend.vllm_url body) ≡ some request
  pub upstream : Upstream
  pub answered : backend.send request ≡ some upstream
  pub success : upstream.is_success ≡ true
  pub relayed : out ≡ relay token upstream.turns

module _ (backend : Backend) where
  live_bearer_lem :
      (authorization : Option Bytes) (members : Inner) (token : Bytes)
      → live_bearer backend (bearer authorization) members ≡ some token
      → (authorization ≡ some (codes "Bearer " ++ token)) × (contains_token token members ≡ true)
  unfolding live_bearer bearer
  live_bearer_lem none members token e = absurd (cc)
  live_bearer_lem (some raw) members token e =
      elim (Option-cases (strip_prefix (codes "Bearer ") raw)) [
        | inl f ↦ absurd (cc (rw (f, live_bearer) at e))
        | inr (found, f) ↦
            let e' : (if contains_token found members then some found else none) ≡ some token =
              rw (f, live_bearer) at e in
            elim (Bool-cases (contains_token found members)) [
              | inr dead ↦ absurd (cc (rw dead at e'))
              | inl live ↦
                  let same : found ≡ token = cc (rw live at e') in
                  (
                    rw (← same) (ap some (strip_prefix_lem (codes "Bearer ") raw found f)),
                    rw (← same) live,
                  )
            ]
      ]

  pub handler-IsServed :
      (authorization : Option Bytes) (body : Bytes) (members : Inner) (out : List Bytes)
      → handler backend authorization body members ≡ json out
      → IsServed backend authorization body members out
  unfolding handler answer
  handler-IsServed authorization body members out e =
      elim (Option-cases (live_bearer backend (bearer authorization) members)) [
        | inl a ↦ absurd (ground arith)
        | inr (token, a) ↦ elim (Option-cases (backend.build (draft_of backend.vllm_url body))) [
          | inl b ↦ absurd (ground arith)
          | inr (request, b) ↦ elim (Option-cases (backend.send request)) [
            | inl c ↦ absurd (ground arith)
            | inr (upstream, c) ↦
                let (carried, live) = live_bearer_lem authorization members token a in
                record {
                  token = token;
                  carried = carried;
                  live = live;
                  request = request;
                  built = b;
                  upstream = upstream;
                  answered = c;
                  success = ground arith;
                  relayed = ground arith;
                }
          ]
        ]
      ]

  pub live_bearer-sent :
      (token : Bytes) (members : Inner)
      → contains_token token members ≡ true
      → live_bearer backend (bearer (some (codes "Bearer " ++ token))) members ≡ some token
  unfolding live_bearer bearer strip_prefix
  live_bearer-sent token members live = rw live refl

  IsServed-handler :
      (authorization : Option Bytes) (body : Bytes) (members : Inner) (out : List Bytes)
      → IsServed backend authorization body members out
      → handler backend authorization body members ≡ json out
  unfolding handler answer
  IsServed-handler authorization body members out i =
      let found = live_bearer-sent i.token members i.live in
      ap (λ sent. handler backend sent body members) i.carried
      ∙ rw (handler, found, i.built, i.answered, answer, i.success) (ap json (sym i.relayed))

  -- A request is served exactly where it has the header `Bearer ` with a bearer that is live in the
  -- store, a request of its unchanged body can be built, a POST to IRON_VLLM_URL or the loopback
  -- default, and the backend answers it with success; and what the client receives is the relay of
  -- that answer under that bearer.
  pub handler-IsServed_iff :
      (authorization : Option Bytes) (body : Bytes) (members : Inner) (out : List Bytes)
      → (handler backend authorization body members ≡ json out)
        ↔ IsServed backend authorization body members out
  handler-IsServed_iff authorization body members out = (
    handler-IsServed authorization body members out,
    IsServed-handler authorization body members out,
  )

  -- Where the header has no bearer that is live in the store the answer is 401, whatever the backend
  -- would say.
  pub handler_unauthorized :
      (authorization : Option Bytes) (body : Bytes) (members : Inner)
      → ((token : Bytes)
          → authorization ≡ some (codes "Bearer " ++ token)
          → contains_token token members ≡ false)
      → handler backend authorization body members ≡ err 401 (codes "invalid bearer")
  unfolding handler
  handler_unauthorized authorization body members dead =
      elim (Option-cases (live_bearer backend (bearer authorization) members)) [
        | inl a ↦ rw (a, handler)
        | inr (token, a) ↦
            let (carried, live) = live_bearer_lem authorization members token a in
            absurd (cc (dead token carried))
      ]
