-- ===== src/Tests/Accounts.antt =====
-- The account service over PostgreSQL.
use Prim.Native.String.{String}
use text.Mathlib.TextEquality.{eq_iff}
use agent_events.Prelude.{
  filter, ℕ, ◌≡◌, ◌≢◌, refl, true, false, some, List, [], ◌∷◌, arith, if◌then◌else◌, ◌==◌,
}
use agent_events.Prelude.Int.{pos, ltb_ℤ}
use agent_events.Text.{◌^^◌}
use agent_events.Time.{hour}
use agent_events.Exec.{ok}
use agent_events.Domain.{Agent, User, UserToken}
use agent_events.Port.{IdentityVerifier}
use agent_events.Port.Accounts.{UserRepositoryLaws, UserTokenRepositoryLaws, AgentRepositoryLaws}
use agent_events.Postgres.Schema.{agent_from_row, AgentRow, UserTokenRow, Timestamptz}
use agent_events.Postgres.Table.{lookup}
use agent_events.Postgres.AgentQuery.{active_agents, is_active_of}
use agent_events.Postgres.Users.{get_by_hash, get_user, user_repository, user_token_repository}
use agent_events.Postgres.Agents.{agent_repository}
use agent_events.Postgres.Accounts.{accounts_at, account_model}
use agent_events.Postgres.Accounts.Tokens.{user_token_repository-UserTokenRepositoryLaws}
use agent_events.Postgres.Accounts.UserLaws.{user_repository-UserRepositoryLaws}
use agent_events.Postgres.Accounts.AgentLaws.{agent_repository-AgentRepositoryLaws}
use agent_events.World.{World}
use agent_events.Server.{auth_service, auth_service-AuthLaws}
use agent_events.Usecase.Auth.{
  AuthService, AuthConfig, ExchangeInput, hash_token, action_auth_exchange,
}
use agent_events.Usecase.Auth.Laws.{AuthLaws}
use agent_events.Usecase.Auth.Users.{exchange, authenticate_user}
use agent_events.Usecase.Auth.Agents.{authenticate_agent, create_agent, revoke_agent}
use agent_events.Usecase.Auth.Fails.{UserFails, ExchangeFails}
use agent_events.Usecase.Auth.AgentFails.{NewAgentFails, RevokeFails}
use agent_events.Usecase.Auth.Outcome.{UserOutcome, ExchangeOutcome}
use agent_events.Usecase.Auth.AgentOutcome.{NewAgentOutcome, RevokeOutcome}
use agent_events.Usecase.Auth.UserRefines.{authenticate_user-refines}
use agent_events.Usecase.Auth.ExchangeRefines.{exchange-refines}
use agent_events.Usecase.Auth.AgentChanges.{create_agent-refines, revoke_agent-refines}
use agent_events.Usecase.Auth.Sessions.{authenticate_user_sound}
use agent_events.Usecase.Auth.History.{Request, add_agent, bar_agent, use_key, replay}
use agent_events.Usecase.Auth.History.Limit.{Limited}
use agent_events.Usecase.Auth.History.Revoked.{Barred, replay-refuses_revoked}
use agent_events.Usecase.Auth.History.Spares.{Usable, NotBy, replay-spares_others}
use agent_events.Tests.Fixtures.{engine, world, limits, noon, at_noon}

-- A provider that takes any token for the subject that it spells, and a digest that is no digest.
abbrev provider : IdentityVerifier World
provider = record {
  verify = λ provider id_token w.
      (ok (record { provider = provider; subject = id_token; email = "" }), w);
}

abbrev digest : String → List ℕ
digest raw = if raw == "aea_old" then 1 ∷ [] else if raw == "aea_new" then 2 ∷ [] else 3 ∷ []

abbrev config : AuthConfig
config = record { user_token_ttl = hour; max_agents_per_user = pos 2 }

abbrev service : AuthService World
service = auth_service engine limits config provider digest

abbrev laws : AuthLaws (account_model engine) (accounts_at engine) service
laws = auth_service-AuthLaws engine limits config provider digest (λ p t w. refl)

-- Ann has an agent whose key is revoked, one whose key is not, and a token.
abbrev agent_row : String → String → Timestamptz → AgentRow
agent_row id key_hash revoked_at = record {
  id = id;
  user_id = "ann";
  name = id;
  key_hash = key_hash;
  created_at = at_noon;
  revoked_at = revoked_at;
  last_used_at = at_noon;
}

abbrev pub token_row : UserTokenRow
token_row = record {
  token_hash = "03";
  user_id = "ann";
  expires_at = record { time = pos 63_900_000_001_000_000_000; valid = true };
  created_at = at_noon;
}

abbrev pub start : World
start = record world {
  db = record world.db {
    agents =
        agent_row "old" "01" at_noon
        ∷ agent_row "new" "02" (record { time = pos 0; valid = false })
        ∷ [];
    user_tokens = token_row ∷ [];
  };
}

abbrev history : List Request
history =
    add_agent "ann" "third"
    ∷ add_agent "ann" "fourth"
    ∷ bar_agent "bob" "new"
    ∷ use_key "aea_new"
    ∷ []

user_repository-UserRepositoryLaws_example :
    UserRepositoryLaws (accounts_at engine) (user_repository engine)
user_repository-UserRepositoryLaws_example = user_repository-UserRepositoryLaws engine

user_token_repository-UserTokenRepositoryLaws_example :
    UserTokenRepositoryLaws
      (account_model engine)
      (accounts_at engine)
      (user_token_repository engine)
user_token_repository-UserTokenRepositoryLaws_example =
    user_token_repository-UserTokenRepositoryLaws engine

agent_repository-AgentRepositoryLaws_example :
    AgentRepositoryLaws (account_model engine) (accounts_at engine) (agent_repository engine)
agent_repository-AgentRepositoryLaws_example = agent_repository-AgentRepositoryLaws engine

abbrev ann_user : User
ann_user = record {
  id = "ann";
  provider = "google";
  subject = "ann";
  email = "";
  created_at = noon;
}

abbrev old_agent : Agent
old_agent = record {
  id = "old";
  user_id = "ann";
  name = "old";
  key_hash = "01";
  created_at = noon;
  revoked_at = noon;
  last_used_at = noon;
}

old_is_Barred : Barred (hash_token service "aea_old") (accounts_at engine start)
unfolding hash_token lookup agent_from_row
old_is_Barred = refl

replay-refuses_revoked_example :
    (authenticate_agent service "aea_old" (replay service history start)).0
    ≢ ok (record { agent = old_agent; user = ann_user })
replay-refuses_revoked_example =
    replay-refuses_revoked service (account_model engine) (accounts_at engine) laws "aea_old"
      history start old_is_Barred (record { agent = old_agent; user = ann_user })

few_agents : Limited (pos 2) (accounts_at engine start)
unfolding active_agents filter is_active_of
few_agents u = ground arith

new_is_Usable : Usable "new" "ann" (accounts_at engine start)
unfolding lookup agent_from_row
new_is_Usable = refl

bob_is_not_ann : NotBy "ann" (bar_agent "bob" "new")
bob_is_not_ann h = ground (arith, eq_iff "bob" "ann", h)

replay-spares_others_example :
    Usable "new" "ann" (accounts_at engine (replay service history start))
replay-spares_others_example =
    replay-spares_others service (account_model engine) (accounts_at engine) laws "new" "ann"
      history start (tt, (tt, (bob_is_not_ann, (tt, tt)))) new_is_Usable

-- The token is accepted.
token_is_accepted : (authenticate_user service "aeu_x" start).0 ≡ ok ann_user
unfolding authenticate_user get_by_hash get_user
token_is_accepted = refl

authenticate_user_sound_example :
    let now =
      (service.runtime.now (service.tokens.get_by_hash (hash_token service "aeu_x") start).1).0 in
    (t : UserToken) × ((accounts_at engine start).token (hash_token service "aeu_x") ≡ some t)
    × (ltb_ℤ now t.expires_at ≡ true)
    × ((accounts_at engine start).user t.user_id ≡ some ann_user)
authenticate_user_sound_example =
    authenticate_user_sound service (account_model engine) (accounts_at engine) laws "aeu_x" start
      ann_user token_is_accepted

authenticate_user-refines_example :
    let w' = (service.tokens.get_by_hash (hash_token service "aeu_x") start).1 in
    UserOutcome
      (UserFails service "aeu_x" start)
      (hash_token service "aeu_x")
      (service.runtime.now w').0
      (accounts_at engine start)
      (accounts_at engine (authenticate_user service "aeu_x" start).1)
      (authenticate_user service "aeu_x" start).0
authenticate_user-refines_example =
    authenticate_user-refines service (account_model engine) (accounts_at engine) laws "aeu_x" start

abbrev signing_in : ExchangeInput
signing_in = record { provider = "google"; id_token = "carl"; client_ip = "6.6.6.6" }

exchange-refines_example :
    let (verdict, w') =
      service.limiter.allow ("ip:" ^^ signing_in.client_ip) action_auth_exchange start in
    ExchangeOutcome
      (ExchangeFails service signing_in start)
      (account_model engine)
      (hash_token service)
      config
      signing_in
      verdict
      (service.verifier.verify signing_in.provider signing_in.id_token w').0
      (accounts_at engine start)
      (accounts_at engine (exchange service signing_in start).1)
      (exchange service signing_in start).0
exchange-refines_example =
    exchange-refines service (account_model engine) (accounts_at engine) laws signing_in start

create_agent-refines_example :
    NewAgentOutcome
      (NewAgentFails service "ann" "third" start)
      (account_model engine)
      (hash_token service)
      (pos 2)
      "ann"
      "third"
      (accounts_at engine start)
      (accounts_at engine (create_agent service "ann" "third" start).1)
      (create_agent service "ann" "third" start).0
create_agent-refines_example =
    create_agent-refines service (account_model engine) (accounts_at engine) laws "ann" "third"
      start

revoke_agent-refines_example :
    RevokeOutcome
      (RevokeFails service "ann" "new" start)
      (account_model engine)
      "ann"
      "new"
      (accounts_at engine start)
      (accounts_at engine (revoke_agent service "ann" "new" start).1)
      (revoke_agent service "ann" "new" start).0
revoke_agent-refines_example =
    revoke_agent-refines service (account_model engine) (accounts_at engine) laws "ann" "new" start
