-- ===== src/Http.antt =====
-- What the handlers of internal/server see of a request and of their surroundings, and what they
-- answer. Texts of messages and headers of answers are left out.
use a6_core.Prelude.{ℕ, String, Bool, false, Option, List, [], ◌∷◌, eqb, ◌&&◌}
use a6_core.State.Types.{Device, CloudUser, Shortcut}
use a6_core.State.Disk.Calls.{Faults}

-- what `net.ParseIP` makes of an address; `v6` has the eight groups
pub data Ip : Type 0 where
  v4 : ℕ → ℕ → ℕ → ℕ → Ip
  v6 : List ℕ → Ip

-- `IP.IsLoopback`
abbrev pub is_loopback : Ip → Bool
is_loopback (v4 a b c d) = eqb a 127
is_loopback (v6 (a ∷ b ∷ c ∷ d ∷ e ∷ f ∷ g ∷ h ∷ [])) =
    eqb a 0 && eqb b 0 && eqb c 0 && eqb d 0 && eqb e 0 && eqb f 0 && eqb g 0 && eqb h 1
is_loopback (v6 _) = false

pub data Method : Type 0 where
  get head post put delete other_method : Method

-- a JSON body, by the fields that it has; a field that is not there decodes to an empty value
pub data Body : Type 0 where
  malformed : Body
  pair_request : String → String → Body
  switch_request : String → Bool → Body
  force_request : Bool → Body
  launch_request : String → String → String → String → Body
  shortcut_request : Option String → Option String → Option String → Bool → Body
  account_request : String → String → Body

-- `host` is the host of `RemoteAddr` and `ip` what it parses to; `authorization` is "" where the
-- header is missing, as `Header.Get` has it
pub record Request : Type 0 where
  pub method : Method
  pub host : String
  pub ip : Option Ip
  pub authorization : String
  pub query_token : String
  pub path_id : String
  pub body : Body

pub data Answer : Type 0 where
  nothing : Answer
  error : String → Answer
  token : String → ℕ → Answer
  paired : String → String → String → Answer
  devices : List Device → Answer
  device : Device → Answer
  user : CloudUser → Answer
  busy : ℕ → Answer
  switched : String → String → Answer
  app_session : String → Answer
  shortcut : Shortcut → Answer
  account : String → String → Answer
  cloud_session : String → String → String → Answer

pub record Response : Type 0 where
  pub status : ℕ
  pub answer : Answer

abbrev pub json_error : ℕ → String → Response
json_error status code = record { status = status; answer = error code }

abbrev pub plain : ℕ → Response
plain status = record { status = status; answer = nothing }

-- the context of a request, as the middleware fills it
pub record Context : Type 0 where
  pub device : Option Device
  pub cloud_user : Option CloudUser

-- what a request meets: the clock, which answers `now` and then `stamp`, the calls that fail while
-- the middleware and the handler save, and what is drawn at random
pub record Env : Type 0 where
  pub now : ℕ
  pub stamp : ℕ
  pub touch_faults : Faults
  pub faults : Faults
  pub new_id : String
  pub new_key : Option String
  pub new_token : Option String

abbrev pub Handler : Type 0 → Type 0
Handler S = Env → Context → Request → S → Response × S
