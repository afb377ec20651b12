-- ===== src/Usecase/Auth/History/Keeps.antt =====
-- server/internal/core/usecase/auth.go: the calls that are not about agents.

use agent_events.Prelude.{ℕ, String, ◌≡◌, ap, Bool, Option}
use agent_events.Time.{Time}
use agent_events.Apperr.{Error}
use agent_events.Exec.{Result}
use agent_events.Domain.{User, Identity}
use agent_events.Port.Accounts.{StoredAgent, Accounts, AccountModel}
use agent_events.Usecase.Auth.{AuthConfig, ExchangeInput, ExchangeResult}
use agent_events.Usecase.Auth.Outcome.{UserOutcome, ExchangeOutcome, LogoutOutcome}

-- What the accounts say of agents.
abbrev pub agents_of :
    Accounts → (String → Option StoredAgent) × (String → Option StoredAgent) × (String → ℕ)
agents_of a = (a.agent, a.keyed, a.active)

module _ {before after : Accounts} where
  -- Signing in, the use of a token and signing out leave the agents alone.
  pub user-agents :
      {hash : String} {now : Time} {fails : Error → Type 0} {r : Result User}
      → UserOutcome fails hash now before after r
      → agents_of after ≡ agents_of before
  user-agents (UserOutcome.unknown _ quiet) = ap agents_of quiet
  user-agents (UserOutcome.over _ _ _ quiet) = ap agents_of quiet
  user-agents (UserOutcome.orphan _ _ _ _ quiet) = ap agents_of quiet
  user-agents (UserOutcome.failed _ _ quiet) = ap agents_of quiet
  user-agents (UserOutcome.accepted _ _ _ _ _ quiet) = ap agents_of quiet

  pub logout-agents :
      {hash : String} {fails : Error → Type 0} {r : Result (Unit {0})}
      → LogoutOutcome fails hash before after r
      → agents_of after ≡ agents_of before
  logout-agents (LogoutOutcome.failed _ _ quiet) = ap agents_of quiet
  logout-agents (LogoutOutcome.removed change) = ap agents_of change

  pub exchange-agents :
      {m : AccountModel} {hash : String → String} {config : AuthConfig} {input : ExchangeInput}
      {verdict : Result Bool} {verified : Result Identity} {fails : Error → Type 0}
      {r : Result ExchangeResult}
      → ExchangeOutcome fails m hash config input verdict verified before after r
      → agents_of after ≡ agents_of before
  exchange-agents (ExchangeOutcome.unknown_provider _ quiet) = ap agents_of quiet
  exchange-agents (ExchangeOutcome.unchecked _ _ _ quiet) = ap agents_of quiet
  exchange-agents (ExchangeOutcome.limited _ _ quiet) = ap agents_of quiet
  exchange-agents (ExchangeOutcome.unconfigured _ _ _ _ _ quiet) = ap agents_of quiet
  exchange-agents (ExchangeOutcome.rejected _ _ _ _ _ quiet) = ap agents_of quiet
  exchange-agents (ExchangeOutcome.failed _ _ change) = ap agents_of change
  exchange-agents (ExchangeOutcome.issued _ _ _ _ _ _ _ _ _ _ change) = ap agents_of change
