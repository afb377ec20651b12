-- ===== src/Tests/Routes.antt =====
-- Requests to the routes of accounts.
use Prim.Native.String.{String}
use agent_events.Prelude.{◌≤◌, ◌≡◌, refl, arith, ◌<◌, some, true, [], ◌∷◌}
use agent_events.Apperr.{unauthorized, is}
use agent_events.Exec.{err}
use agent_events.Postgres.Users.{get_by_hash, get_user, delete_by_hash}
use agent_events.Postgres.Accounts.{accounts_at, account_model}
use agent_events.Usecase.Auth.Laws.{AuthLaws}
use agent_events.Usecase.Auth.Users.{authenticate_user, revoke_user_token}
use agent_events.Http.Api.{Request}
use agent_events.Http.Router.{serve, delete_agent, delete_session, get_agents}
use agent_events.Http.Router.Refused.{serve-refuses}
use agent_events.Server.{auth_service-AuthLaws}
use agent_events.Tests.Fixtures.{engine, limits, at_noon}
use agent_events.World.{World}
use agent_events.Prelude.Int.{pos}
use agent_events.Text.{trim_space, cut_prefix}
use agent_events.Http.Bearer.{bearer_token}
use agent_events.Http.AccountHandler.{sign_out}
use agent_events.Http.Router.SignOut.{serve-ends_session}
use agent_events.Tests.Requests.{api, start, config, digest, provider}

abbrev laws : AuthLaws (account_model engine) (accounts_at engine) api.auth
laws = auth_service-AuthLaws engine limits config provider digest (λ p t w. refl)

-- Ann would revoke the agent of Bob.
abbrev pub ann_revokes : Request
ann_revokes = record {
  authorization = "Bearer aeu_a";
  forwarded_for = "";
  remote_addr = "6.6.6.6";
  url_id = "b1";
  body = "";
}

-- No token is accepted of her.
nobody_is_known :
    (raw : String)
    → (authenticate_user api.auth raw start).0 ≡ err (unauthorized "invalid or expired user token")
unfolding authenticate_user get_by_hash is
nobody_is_known raw = refl

serve-refuses_example :
    (400 ≤ (serve api delete_agent ann_revokes start).0.status)
    × (accounts_at engine (serve api delete_agent ann_revokes start).1 ≡ accounts_at engine start)
serve-refuses_example =
    serve-refuses api (account_model engine) (accounts_at engine) laws (λ l msg fs w. refl)
      delete_agent ann_revokes start (λ raw u given known. cc (nobody_is_known raw))

-- Ann has signed in, and signs out.
abbrev with_token : World
with_token = record start {
  db = record start.db {
    user_tokens =
        record {
          token_hash = "01";
          user_id = "ann";
          expires_at = record { time = pos 63_900_000_001_000_000_000; valid = true };
          created_at = at_noon;
        }
        ∷ [];
  };
}

token_is_read : bearer_token ann_revokes.authorization ≡ some "aeu_a"
unfolding bearer_token trim_space cut_prefix
token_is_read = refl

signs_out : (serve api delete_session ann_revokes with_token).0.status ≡ 204
unfolding serve sign_out bearer_token trim_space cut_prefix authenticate_user get_by_hash get_user
    revoke_user_token delete_by_hash
signs_out = refl

signed_out : (serve api delete_session ann_revokes with_token).0.status < 400
signed_out = rw signs_out (omega arith)

abbrev after : World
after = (serve api delete_session ann_revokes with_token).1

serve-ends_session_example : 400 ≤ (serve api get_agents ann_revokes after).0.status
serve-ends_session_example =
    serve-ends_session api (account_model engine) (accounts_at engine) laws (λ l msg fs w. refl)
      "aeu_a" ann_revokes with_token token_is_read signed_out get_agents ann_revokes after refl
      token_is_read refl
