-- ===== src/Manage/Tests.antt =====
-- src/manage.rs: a signed revoke on a store with one device.
use instance_lib.State.Invariant.{IsConsistent}
use instance_lib.Prelude.{◌⊎◌}
use instance_lib.Manage.{handler}
use instance_lib.Manage.Laws.{IsRefusal, IsAction, handler_cases}
use instance_lib.Manage.Power.{Narrows, handler-IsLess}
use instance_lib.Fixtures.{one_device, one_device-IsConsistent, plain_deps, signed_envelope, state}

handler_cases_example :
    IsRefusal plain_deps state signed_envelope ⊎ IsAction plain_deps state signed_envelope
handler_cases_example = handler_cases plain_deps state signed_envelope

handler_less_example :
    IsConsistent (handler plain_deps state signed_envelope).0
    × Narrows one_device (handler plain_deps state signed_envelope).0
handler_less_example =
    handler-IsLess plain_deps (λ entries e. (λ h. h, λ h. h)) state signed_envelope
      one_device-IsConsistent
