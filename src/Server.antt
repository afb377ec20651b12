-- ===== src/Server.antt =====
-- server/cmd/api/main.go: how the parts are put together.
pub mod Events
pub mod Frames
pub mod Start
pub mod SignIn
pub mod Session
pub mod Cleanup
pub mod Steps
use agent_events.Prelude.{refl, ap, ◌≡◌, ℕ, String, List}
use agent_events.World.{
  World, journal_logger, world_runtime, memory_limiter, db-allow_in, db-random_read,
}
use agent_events.Memory.{Limits}
use agent_events.Port.Laws.{KeepsView}
use agent_events.Postgres.Schema.{Db, Engine}
use agent_events.Postgres.Events.{event_repository}
use agent_events.Usecase.Event.{EventService}
use agent_events.Usecase.Auth.{AuthService, AuthConfig}
use agent_events.Usecase.Auth.Laws.{AuthLaws}
use agent_events.Port.{IdentityVerifier}
use agent_events.Postgres.Users.{user_repository, user_token_repository}
use agent_events.Postgres.Agents.{agent_repository}
use agent_events.Postgres.Accounts.{accounts_in, accounts_at, account_model}
use agent_events.Postgres.Accounts.Tokens.{user_token_repository-UserTokenRepositoryLaws}
use agent_events.Postgres.Accounts.UserLaws.{user_repository-UserRepositoryLaws}
use agent_events.Postgres.Accounts.AgentLaws.{agent_repository-AgentRepositoryLaws}

-- `NewEventService` over PostgreSQL and the rate limiter in memory
abbrev pub event_service : Engine → Limits → EventService World
event_service pg limits = record {
  repo = event_repository pg;
  limiter = memory_limiter limits;
  logger = journal_logger;
  runtime = world_runtime;
}

-- What is read off the database is not changed by the other ports.
pub db-KeepsView :
    {X : Type 0} (view : Db → X) (limits : Limits)
    → KeepsView (λ (w : World). view w.db) (memory_limiter limits) journal_logger world_runtime
db-KeepsView view limits = record {
  allow_quiet = λ key action w. ap view (db-allow_in limits key action w);
  log_quiet = λ l msg fs w. refl;
  now_quiet = λ w. refl;
  uuid_quiet = λ w. refl;
  random_quiet = λ w. ap view (db-random_read (w.random 0) w);
}

-- `NewAuthService` over PostgreSQL, the rate limiter in memory and an identity provider
abbrev pub auth_service :
    Engine
    → Limits
    → AuthConfig
    → IdentityVerifier World
    → (sha256 : String → List ℕ) → AuthService World
auth_service pg limits config verifier sha256 = record {
  verifier = verifier;
  users = user_repository pg;
  tokens = user_token_repository pg;
  agents = agent_repository pg;
  limiter = memory_limiter limits;
  logger = journal_logger;
  config = config;
  runtime = world_runtime;
  sha256 = sha256;
}

-- The ports of the account service keep their laws, if the identity provider leaves the database
-- alone.
pub auth_service-AuthLaws :
    (pg : Engine) (limits : Limits) (config : AuthConfig) (verifier : IdentityVerifier World)
    (sha256 : String → List ℕ)
    → ((provider id_token : String) (w : World) → (verifier.verify provider id_token w).1.db ≡ w.db)
    → AuthLaws (account_model pg) (accounts_at pg) (auth_service pg limits config verifier sha256)
auth_service-AuthLaws pg limits config verifier sha256 quiet = record {
  users = user_repository-UserRepositoryLaws pg;
  tokens = user_token_repository-UserTokenRepositoryLaws pg;
  agents = agent_repository-AgentRepositoryLaws pg;
  frame = db-KeepsView (accounts_in pg) limits;
  verify_quiet = λ provider id_token w. ap (accounts_in pg) (quiet provider id_token w);
}
