-- ===== src/Telemetry/Sensors.antt =====
-- internal/telemetry/telemetry.go: `Temperature`, `LocalNetwork` and `UptimeSeconds`.
use a6_core.Prelude.{
  ℕ, String, Bool, true, false, Option, none, some, List, [], ◌∷◌, ◌≡◌, refl, ◌⊎◌, inl, inr, any,
  ◌==◌, trim_space, ℤ, if◌then◌else◌, if_lem,
}
use a6_core.Telemetry.Words.{fields, parse_int}

abbrev or_else : {A : Type 0} → Option A → Option A → Option A
or_else none b = b
or_else (some a) b = some a

abbrev sensor : Option String → Option ℤ
sensor none = none
sensor (some text) = parse_int (trim_space text)

abbrev first_sensor : List (Option String) → Option ℤ
first_sensor [] = none
first_sensor (file ∷ files) = or_else (sensor file) (first_sensor files)

abbrev first_of : List (List (Option String)) → Option ℤ
first_of [] = none
first_of (dir ∷ dirs) = or_else (first_sensor dir) (first_of dirs)

-- `Temperature`, in thousandths of a degree: what the directories of hwmon hold, in order, with `none` for
-- a file that cannot be read
unfoldable pub temperature : Option (List (List (Option String))) → Option ℤ
temperature none = none
temperature (some dirs) = first_of dirs

-- a network interface: its addresses as texts, if they can be read
pub record Interface : Type 0 where
  pub name : String
  pub addrs : Option (List String)

abbrev pub has_addr : String → Option (List String) → Bool
has_addr ip none = false
has_addr ip (some addrs) = any (λ a. a == ip) addrs

abbrev pub interface_of : String → List Interface → String
interface_of ip [] = ""
interface_of ip (i ∷ is) =
    let rest = interface_of ip is in if has_addr ip i.addrs then i.name else rest

abbrev pub named : String → Option (List Interface) → String
named ip none = ""
named ip (some is) = interface_of ip is

abbrev pub network : Option (List Interface) → Option String → Option (String × String)
network is none = none
network is (some ip) = some (ip, named ip is)

-- `LocalNetwork`: the address of the route, if there is one, with the name of the interface that has it
unfoldable pub local_network : Option (List Interface) → Option String → Option (String × String)
local_network is route = network is route

abbrev first_field : List String → Option String
first_field [] = none
first_field (f ∷ fs) = some f

abbrev seconds_of : (String → Option ℕ) → Option String → Option ℕ
seconds_of parse_float none = none
seconds_of parse_float (some f) = parse_float f

-- `UptimeSeconds`; `parse_float` is the whole part of what `strconv.ParseFloat` answers
unfoldable uptime_seconds : (String → Option ℕ) → Option String → Option ℕ
uptime_seconds parse_float none = none
uptime_seconds parse_float (some text) = seconds_of parse_float (first_field (fields text))

-- An interface of the list that has the address.
abbrev pub Holds : String → String → List Interface → Type 0
Holds ip name [] = ⊥
Holds ip name (i ∷ is) = ((name ≡ i.name) × (has_addr ip i.addrs ≡ true)) ⊎ Holds ip name is

interface_of_lem :
    (ip : String) (is : List Interface)
    → (interface_of ip is ≡ "") ⊎ Holds ip (interface_of ip is) is
interface_of_lem ip [] = inl refl
interface_of_lem ip (i ∷ is) =
    if_lem (λ n. (n ≡ "") ⊎ Holds ip n (i ∷ is)) (has_addr ip i.addrs) i.name (interface_of ip is)
      (λ e. inr (inl (refl, e)))
      (λ _. elim (interface_of_lem ip is) [ inl e ↦ inl e | inr h ↦ inr (inr h) ])
