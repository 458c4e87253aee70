-- ===== src/Modes.antt =====
-- internal/modes/modes.go and internal/resources/resources.go: switching the mode of the machine. The
-- checker and the executor are arguments: `blocking` is what the checker answers, and `obeys` whether
-- the executor returns no error.
use a6_core.Prelude.{
  String, Bool, true, false, Option, none, some, List, [], ◌∷◌, ◌==◌, any, if◌then◌else◌,
}
use a6_core.State.Types.{State}
use a6_core.State.Disk.Calls.{Faults}
use a6_core.State.Store.{Store, Outcome, commit, Updated, done, update, snapshot}
use a6_core.Servers.Manager.{BlockingResource}

abbrev mode_tv : String
mode_tv = "tv"

abbrev mode_server : String
mode_server = "server"

abbrev mode_sleep : String
mode_sleep = "sleep"

abbrev pub all_modes : List String
all_modes = mode_tv ∷ mode_server ∷ mode_sleep ∷ []

abbrev is_mode : String → String → Bool
is_mode m v = v == m

-- `IsValid`
abbrev pub is_valid : String → Bool
is_valid m = any (is_mode m) all_modes

pub data SwitchError : Type 0 where
  invalid_mode executor_failed not_persisted : SwitchError
  blocked : List BlockingResource → SwitchError

-- what `Switch` did: the mode it came from, its error, and the transitions it asked the executor for
pub record Switched : Type 0 where
  pub from : String
  pub error : Option SwitchError
  pub executed : List (String × String)

-- `Current`
unfoldable pub current : Store → String
current s = (snapshot s).mode

abbrev pub set_mode : String → State → Outcome Unit Unit
set_mode target st = commit tt (record st { mode = target })

abbrev pub persisted : String → String → Updated Unit Unit × Store → Switched × Store
persisted from target (done a, t) =
    (record { from = from; error = none; executed = (from, target) ∷ [] }, t)
persisted from target (_, t) =
    (record { from = from; error = some not_persisted; executed = (from, target) ∷ [] }, t)

abbrev pub failed : String → SwitchError → Switched
failed from e = record { from = from; error = some e; executed = [] }

-- after the checks: the executor, then the state
abbrev pub perform : Bool → Faults → String → String → Store → Switched × Store
perform obeys faults from target s =
    if obeys
    then persisted from target (update (set_mode target) faults s)
    else (record (failed from executor_failed) { executed = (from, target) ∷ [] }, s)

abbrev pub checked :
    Bool → List BlockingResource → Bool → Faults → String → String → Store → Switched × Store
checked true blocking obeys faults from target s = perform obeys faults from target s
checked false [] obeys faults from target s = perform obeys faults from target s
checked false (b ∷ bs) obeys faults from target s = (failed from (blocked (b ∷ bs)), s)

-- `Switch`
unfoldable pub switch :
    List BlockingResource → Bool → Faults → String → Bool → Store → Switched × Store
switch blocking obeys faults target force s =
    let from = current s in
    if is_valid target
    then (if from == target
        then (record { from = from; error = none; executed = [] }, s)
        else checked force blocking obeys faults from target s)
    else (failed "" invalid_mode, s)
