-- ===== src/Server/Routes/Tests.antt =====
-- Routes at concrete requests.
use a6_core.Prelude.{String, none, some, List, [], ◌∷◌, ◌≡◌, ◌⊎◌, refl, find}
use a6_core.Samples.{crypto, hash, two_devices, app_of, env, context, request}
use a6_core.Http.{Method, get, delete, plain, Handler, malformed}
use a6_core.Server.App.{App, app_store}
use a6_core.Server.Routes.{Endpoint, icon_get_default, icon_get, routes, fits, serve}
use a6_core.Server.Routes.Authority.{Denied, Served, effects_need_authority}

abbrev accepts_all : Endpoint → Handler App
accepts_all e _ _ _ s = (plain 202, s)

abbrev promote_path : List String
promote_path = "v1" ∷ "devices" ∷ "d2" ∷ "promote" ∷ []

effects_need_authority_example :
    let r = request "Bearer k2" "d2" malformed in
    let result =
      serve app_store hash crypto accepts_all promote_path env context r (app_of two_devices) in
    Denied app_store hash crypto (app_of two_devices) result
    ⊎ Served app_store hash crypto accepts_all promote_path env context r
        (app_of two_devices)
        result
effects_need_authority_example =
    effects_need_authority app_store hash crypto accepts_all promote_path env context
      (request "Bearer k2" "d2" malformed) (app_of two_devices)

-- the endpoint of a request
endpoint_of : Method → List String → List Endpoint
endpoint_of m path = elim (find (fits m path) routes) [ none ↦ [] | some t ↦ t.endpoint ∷ [] ]

literal_wins : endpoint_of get ("v1" ∷ "icons" ∷ "default" ∷ []) ≡ icon_get_default ∷ []
unfolding endpoint_of
literal_wins = refl

any_other_is_an_id : endpoint_of get ("v1" ∷ "icons" ∷ "i1" ∷ []) ≡ icon_get ∷ []
unfolding endpoint_of
any_other_is_an_id = refl

no_such_method : endpoint_of delete ("v1" ∷ "icons" ∷ "i1" ∷ []) ≡ []
unfolding endpoint_of
no_such_method = refl
