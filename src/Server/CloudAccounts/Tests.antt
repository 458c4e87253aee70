-- ===== src/Server/CloudAccounts/Tests.antt =====
-- Accounts and sessions at concrete requests.
use a6_core.Prelude.{[], ◌∷◌, refl, cut_prefix}
use a6_core.Samples.{crypto, empty_state, store_of, env, context, request}
use a6_core.State.Types.{CloudUser}
use a6_core.State.Store.{Store, snapshot}
use a6_core.Cloud.Accounts.{validate_session}
use a6_core.Http.{Request, account_request, malformed}
use a6_core.Server.CloudAccounts.{handle_logout}
use a6_core.Server.CloudAccounts.Lifecycle.{behind_session, LogoutRequestEnds, handle_logout_lem}

abbrev ada : CloudUser
ada = record { id = "u1"; username = "ada"; password_hash = "correct horse"; created_at = 1 }

abbrev with_ada : Store
with_ada = store_of (record empty_state {
  cloud_users = ada ∷ [];
  cloud_sessions = record { id = "x"; user_id = "u1"; token_hash = "t0"; created_at = 2 } ∷ [];
})

abbrev logs_in : Request
logs_in = request "Bearer k2" "" (account_request "ada" "correct horse")

abbrev logs_out : Request
logs_out = request "Bearer t0" "" malformed

handle_logout_lem_example :
    LogoutRequestEnds crypto "t0" with_ada
      (behind_session crypto (handle_logout crypto) env context logs_out with_ada)
unfolding validate_session snapshot cut_prefix
handle_logout_lem_example =
    handle_logout_lem crypto env context logs_out with_ada "t0" ada refl refl
