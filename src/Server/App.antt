-- ===== src/Server/App.antt =====
-- The `Server` of internal/server/server.go, as far as the pairing and device handlers use it.
-- `published` holds what was given to `Hub.Publish`, the last event first.
use a6_core.Prelude.{refl, List, ◌∷◌}
use a6_core.State.Store.{Store}
use a6_core.Auth.Pairing.{PairingManager}
use a6_core.Auth.RateLimit.{RateLimiter}
use a6_core.Auth.Middleware.{HasStore}
use a6_core.Events.{Event}

pub record App : Type 0 where
  pub store : Store
  pub pairing : PairingManager
  pub rate_limit : RateLimiter
  pub published : List Event

abbrev pub publish : Event → App → App
publish e s = record s { published = e ∷ s.published }

abbrev pub app_store : HasStore App
app_store = record {
  store = λ s. s.store;
  with_store = λ s t. record s { store = t };
  store-with_store = λ s t. refl;
  with_store_same = λ s. refl;
}
