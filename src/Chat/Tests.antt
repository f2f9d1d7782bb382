-- ===== src/Chat/Tests.antt =====
-- src/chat.rs: the handler on a small backend.
use instance_lib.State.{contains_token, insert}
use instance_lib.Http.{json}
use instance_lib.Prelude.{◌↔◌, some, ◌++◌, ◌≡◌, none, [], ◌∷◌, refl, codes}
use instance_lib.Prelude.Map.{lookup}
use instance_lib.Chat.{live_bearer, handler, relay}
use instance_lib.Chat.Laws.{IsServed, handler-IsServed_iff}
use instance_lib.Fixtures.{one_device, plain_backend}

handler-IsServed_example :
    (handler plain_backend (some (codes "Bearer bearer-a")) (codes "{}") one_device
      ≡ json (codes "hello" ∷ []))
    ↔ IsServed plain_backend
        (some (codes "Bearer bearer-a"))
        (codes "{}")
        one_device
        (codes "hello" ∷ [])
handler-IsServed_example =
    handler-IsServed_iff plain_backend (some (codes "Bearer bearer-a")) (codes "{}") one_device
      (codes "hello" ∷ [])

-- That request is served.
served :
    handler plain_backend (some (codes "Bearer bearer-a")) (codes "{}") one_device
    ≡ json (codes "hello" ∷ [])
unfolding handler relay live_bearer contains_token lookup insert instance_lib.Prelude.Map.insert
    instance_lib.State.remove_all instance_lib.State.evict instance_lib.State.pushed
    instance_lib.Prelude.bytes_eq
served = refl
