-- ===== src/State/Store.antt =====
-- internal/state/state.go: `Store`, `Open`, `Snapshot`, `Update` and `Save`. The model's values are
-- never shared, so `deepCopy` is the value itself; a mutex makes each call one step.
pub mod Atomicity
mod Tests
use a6_core.Prelude.{String, Option, none, some, List, []}
use a6_core.State.Types.{State}
use a6_core.State.Disk.Calls.{Disk, World, Faults}
use a6_core.State.Disk.Save.{SaveError, save_locked}
use a6_core.State.Disk.Load.{load}

pub record Store : Type 0 where
  pub state : State
  pub disk : Disk

-- what the function that `Update` is given does: it changes the state and sets captured
-- variables, or it returns an error
pub data Outcome (E A : Type 0) : Type 0 where
  commit : A → State → Outcome E A
  abort : E → Outcome E A

-- what `Update` returns, with the captured variables
pub data Updated (E A : Type 0) : Type 0 where
  done : A → Updated E A
  refused : E → Updated E A
  unsaved : SaveError → Updated E A

abbrev pub start : Disk → World
start d = record { disk = d; trail = [] }

-- `Open`; that it can make its directories is taken for granted
unfoldable pub open_store : String → Faults → Disk → Store
open_store id faults d = let (st, d') = load id faults d in record { state = st; disk = d' }

unfoldable pub snapshot : Store → State
snapshot s = s.state

module _ {E A : Type 0} where
  abbrev pub saved_or_rolled_back :
      A → State → Store → Option SaveError → Disk → Updated E A × Store
  saved_or_rolled_back a st s none d = (done a, record { state = st; disk = d })
  saved_or_rolled_back a st s (some e) d = (unsaved e, record s { disk = d })

  abbrev pub finish : Faults → Store → Outcome E A → Updated E A × Store
  finish faults s (abort e) = (refused e, s)
  finish faults s (commit a st) =
      let (err, w) = save_locked st faults (start s.disk) in saved_or_rolled_back a st s err w.disk

  unfoldable pub update : (State → Outcome E A) → Faults → Store → Updated E A × Store
  update fn faults s = finish faults s (fn s.state)

-- `Save`
unfoldable pub save : Faults → Store → Option SaveError × Store
save faults s =
    let (err, w) = save_locked s.state faults (start s.disk) in (err, record s { disk = w.disk })
