-- ===== src/Server/Routes/Required.antt =====
-- What the handlers ask of their requests, apart from the table of the routes, and that the table agrees.
use a6_core.Prelude.{
  All, String, Bool, some, List, [], ◌∷◌, ◌≡◌, refl, sym, ◌∙◌, ap, subst, find, map, Bool-cases,
  inl, inr,
}
use a6_core.Http.{Method}
use a6_core.Server.Routes.{
  Gate, unguarded, localhost, device, primary, session, own, Endpoint, health, pair_generate, pair,
  device_promote, shutdown, cloud_logout, cloud_me, cloud_upload, cloud_list_files, cloud_get_file,
  cloud_delete_file, events_stream, input_stream, Route, routes, fits,
}

-- what a handler may ask of its requests: the localhost, a primary device, a session, a device; nobody is
-- asked for anything at the health check and at pairing, and the two streams ask for the key themselves
abbrev pub required : Endpoint → Gate
required health = unguarded
required pair = unguarded
required pair_generate = localhost
required device_promote = primary
required shutdown = primary
required cloud_logout = session
required cloud_me = session
required cloud_upload = session
required cloud_list_files = session
required cloud_get_file = session
required cloud_delete_file = session
required events_stream = own
required input_stream = own
required e = device

abbrev IsRequired : Route → Type 0
IsRequired t = t.gate ≡ required t.endpoint

some_inj : {A : Type 0} (a b : A) → some a ≡ some b → a ≡ b
some_inj a b h = cc h

-- what is found among things that all have a property has it
found :
    {A : Type 0} (P : A → Type 0) (p : A → Bool) (ts : List A) (t : A)
    → All P ts
    → find p ts ≡ some t
    → P t
found P p [] t all h = absurd (cc h)
found P p (x ∷ ts) t all h = elim (Bool-cases (p x)) [
  | inl e ↦
      subst (P) (some_inj x t (let f : find p (x ∷ ts) ≡ some x = rw e refl in sym f ∙ h)) all.0
  | inr e ↦ found P p ts t all.1 (let f : find p (x ∷ ts) ≡ find p ts = rw e refl in sym f ∙ h)
]

first : List Gate → Gate
first [] = own
first (g ∷ gs) = g

rest : List Gate → List Gate
rest [] = []
rest (g ∷ gs) = gs

rows-IsRequired :
    (ts : List Route) → map (λ t. t.gate) ts ≡ map (λ t. required t.endpoint) ts → All IsRequired ts
unfolding first rest
rows-IsRequired [] h = tt
rows-IsRequired (t ∷ ts) h = (ap first h, rows-IsRequired ts (ap rest h))

routes-IsRequired : All IsRequired routes
routes-IsRequired = rows-IsRequired routes refl

pub gate_of :
    (m : Method) (path : List String) (t : Route)
    → find (fits m path) routes ≡ some t
    → t.gate ≡ required t.endpoint
gate_of m path t h = found IsRequired (fits m path) routes t routes-IsRequired h
