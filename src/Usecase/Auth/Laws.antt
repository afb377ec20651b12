-- ===== src/Usecase/Auth/Laws.antt =====
-- server/internal/core/usecase/auth.go: what the service relies on of its ports.
use agent_events.Prelude.{String, ◌≡◌}
use agent_events.Port.Laws.{KeepsView}
use agent_events.Port.Accounts.{
  Accounts, AccountModel, UserRepositoryLaws, UserTokenRepositoryLaws, AgentRepositoryLaws,
}
use agent_events.Usecase.Auth.{AuthService}

pub record AuthLaws {W : Type 0} (m : AccountModel) (at : W → Accounts) (s : AuthService W)
    : Type 0 where
  pub users : UserRepositoryLaws at s.users
  pub tokens : UserTokenRepositoryLaws m at s.tokens
  pub agents : AgentRepositoryLaws m at s.agents
  pub frame : KeepsView at s.limiter s.logger s.runtime
  pub verify_quiet :
      (provider id_token : String) (w : W) → at (s.verifier.verify provider id_token w).1 ≡ at w
