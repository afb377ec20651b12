-- ===== src/Tests/Steps.antt =====
-- Sequences of steps of the whole server.
use Prim.Native.String.{String}
use text.Mathlib.TextEquality.{eq_iff}
use agent_events.Prelude.{
  ◌≤◌, ◌≡◌, ◌≢◌, refl, sym, ◌∙◌, true, false, some, List, [], ◌∷◌, arith, filter,
}
use agent_events.Prelude.Int.{pos, leb_ℤ}
use agent_events.Exec.{ok}
use agent_events.Domain.{User}
use agent_events.World.{World, world_runtime}
use agent_events.Postgres.Schema.{
  AgentRow, UserTokenRow, Timestamptz, agent_from_row, event_from_row,
}
use agent_events.Postgres.Table.{lookup}
use agent_events.Postgres.AgentQuery.{active_agents, is_active_of}
use agent_events.Postgres.Users.{get_user, get_by_hash, user_token_repository}
use agent_events.Postgres.Agents.{get_by_key_hash}
use agent_events.Postgres.Accounts.{accounts_at}
use agent_events.Postgres.Events.View.{events_at}
use agent_events.Usecase.Auth.{AgentCredentials, hash_token}
use agent_events.Usecase.Auth.Users.{authenticate_user}
use agent_events.Usecase.Auth.Agents.{authenticate_agent}
use agent_events.Usecase.Auth.History.Revoked.{Barred}
use agent_events.Usecase.Auth.History.Limit.{Limited}
use agent_events.Usecase.Auth.History.Spares.{Usable}
use agent_events.Http.Api.{Api}
use agent_events.Http.Bearer.{bearer_token}
use agent_events.Http.Router.{delete_event_by_id, delete_agent, get_whoami}
use agent_events.Http.Controller.{RequestInfo, api_v1, healthz, handle}
use agent_events.Server.Start.{provide_api}
use agent_events.Server.Steps.{Step, request, clean_up, run}
use agent_events.Server.Steps.Agents.{run-refuses_revoked, run-Limited, run-spares_agents}
use agent_events.Server.Steps.Stored.{run-keeps_others}
use agent_events.Tests.Fixtures.{engine, world, noon, at_noon, launch}
use agent_events.Config.{config_of}
use agent_events.Tests.Config.{config}
use agent_events.Tests.Oidc.{library, verifier, digest, verifier_quiet}
use agent_events.Tests.Requests.{codec, bob_deletes, key_is_read}
use agent_events.Tests.Routes.{ann_revokes}

abbrev api : Api World
api = provide_api config engine codec library verifier digest

abbrev info : RequestInfo
info = record { method = ""; path = ""; request_id = "" }

-- Bob has an agent, and Ann has signed in.
abbrev bob_agent : Timestamptz → AgentRow
bob_agent revoked_at = record {
  id = "b1";
  user_id = "bob";
  name = "b1";
  key_hash = "07";
  created_at = at_noon;
  revoked_at = revoked_at;
  last_used_at = at_noon;
}

abbrev ann_token : UserTokenRow
ann_token = record {
  token_hash = "07";
  user_id = "ann";
  expires_at = record { time = pos 63_900_000_001_000_000_000; valid = true };
  created_at = at_noon;
}

abbrev before : World
before = record world {
  db = record world.db {
    agents = bob_agent (record { time = pos 0; valid = false }) ∷ [];
    user_tokens = ann_token ∷ [];
  };
}

-- The agent is revoked.
abbrev over : World
over = record world { db = record world.db { agents = bob_agent at_noon ∷ [] } }

abbrev steps : List Step
steps =
    request (api_v1 delete_event_by_id) info bob_deletes
    ∷ clean_up false
    ∷ request healthz info bob_deletes
    ∷ []

agent_is_Barred : Barred (hash_token api.auth "aea_b") (accounts_at engine over)
unfolding lookup agent_from_row hash_token
agent_is_Barred = refl

abbrev after : World
after = run api (user_token_repository engine) steps over

run-refuses_revoked_example :
    (400 ≤ (handle api world_runtime (api_v1 get_whoami) info bob_deletes after).0.status)
    × (accounts_at engine (handle api world_runtime (api_v1 get_whoami) info bob_deletes after).1
        ≡ accounts_at engine after)
run-refuses_revoked_example =
    run-refuses_revoked config engine codec library verifier digest verifier_quiet "aea_b" steps
      over agent_is_Barred get_whoami info bob_deletes refl key_is_read

few_agents : Limited config.max_agents_per_user (accounts_at engine over)
unfolding active_agents filter is_active_of config_of
few_agents u = ground arith

run-Limited_example :
    leb_ℤ (pos ((accounts_at engine after).active "bob")) config.max_agents_per_user ≡ true
run-Limited_example =
    run-Limited config engine codec library verifier digest verifier_quiet steps over few_agents
      "bob"

-- Bob uses the key of his agent, and Ann her token.
abbrev started : World
started = (world_runtime.now before).1

abbrev bob_credentials : AgentCredentials
bob_credentials = record {
  agent = record {
    id = "b1";
    user_id = "bob";
    name = "b1";
    key_hash = "07";
    created_at = noon;
    revoked_at = pos 0;
    last_used_at = noon;
  };
  user = record { id = "bob"; provider = "google"; subject = "bob"; email = ""; created_at = noon };
}

bob_is_known : (raw : String) → (authenticate_agent api.auth raw started).0 ≡ ok bob_credentials
unfolding authenticate_agent get_by_key_hash get_user
bob_is_known raw = refl

abbrev ann_user : User
ann_user = record {
  id = "ann";
  provider = "google";
  subject = "ann";
  email = "";
  created_at = noon;
}

ann_is_known : (raw : String) → (authenticate_user api.auth raw started).0 ≡ ok ann_user
unfolding authenticate_user get_by_hash get_user
ann_is_known raw = refl

bob_is_a_stranger :
    (raw : String) (c : AgentCredentials)
    → bearer_token bob_deletes.authorization ≡ some raw
    → (authenticate_agent api.auth raw started).0 ≡ ok c
    → launch.user_id ≢ c.user.id
bob_is_a_stranger raw c given known owner =
    let same : ok bob_credentials ≡ ok c = sym (bob_is_known raw) ∙ known in
    let bob : "bob" ≡ c.user.id = ground (arith, same) in
    ground (arith, bob, owner, eq_iff "ann" "bob")

ann_is_not_bob :
    (raw : String) (user : User)
    → bearer_token ann_revokes.authorization ≡ some raw
    → (authenticate_user api.auth raw started).0 ≡ ok user
    → user.id ≢ "bob"
ann_is_not_bob raw user given known bob =
    let same : ok ann_user ≡ ok user = sym (ann_is_known raw) ∙ known in
    let ann : "ann" ≡ user.id = ground (arith, same) in ground (arith, ann, bob, eq_iff "ann" "bob")

launch_is_stored : events_at engine before "e1" ≡ some launch
unfolding event_from_row lookup
launch_is_stored = refl

abbrev deletion : List Step
deletion = request (api_v1 delete_event_by_id) info bob_deletes ∷ clean_up false ∷ []

run-keeps_others_example :
    events_at engine (run api (user_token_repository engine) deletion before) "e1" ≡ some launch
run-keeps_others_example =
    run-keeps_others config engine codec library verifier digest verifier_quiet "e1" launch deletion
      before ((λ raw user given known. tt, bob_is_a_stranger), (tt, tt)) launch_is_stored

bobs_agent_is_Usable : Usable "b1" "bob" (accounts_at engine before)
unfolding lookup agent_from_row
bobs_agent_is_Usable = refl

abbrev revocation : List Step
revocation = request (api_v1 delete_agent) info ann_revokes ∷ clean_up false ∷ []

run-spares_agents_example :
    Usable "b1" "bob"
      (accounts_at engine (run api (user_token_repository engine) revocation before))
run-spares_agents_example =
    run-spares_agents config engine codec library verifier digest verifier_quiet "b1" "bob"
      revocation before ((ann_is_not_bob, λ raw c given known. tt), (tt, tt)) bobs_agent_is_Usable
