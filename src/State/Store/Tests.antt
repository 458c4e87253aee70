-- ===== src/State/Store/Tests.antt =====
-- Theorems about transactions at a concrete store.
use a6_core.Prelude.{◌≡◌, refl, []}
use a6_core.Samples.{two_devices, store_of, calm}
use a6_core.State.Types.{State}
use a6_core.State.Migrate.Laws.{IsUsable}
use a6_core.State.Store.{Outcome, commit, open_store, update}
use a6_core.State.Store.Atomicity.{Transacts, update-Transacts, IsDurable, update_then_restart}

forget_devices : State → Outcome Unit Unit
forget_devices st = commit tt (record st { devices = [] })

update-Transacts_example :
    Transacts
      (store_of two_devices)
      (forget_devices two_devices)
      (update forget_devices calm (store_of two_devices))
update-Transacts_example = update-Transacts forget_devices calm (store_of two_devices)

update_then_restart_example :
    let t = (update forget_devices calm (store_of two_devices)).1 in
    IsDurable t × (IsUsable t.state → (open_store "id" calm t.disk).state ≡ t.state)
update_then_restart_example =
    update_then_restart forget_devices calm calm "id" (store_of two_devices) refl refl
