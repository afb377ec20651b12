-- ===== src/Usecase/Auth.antt =====
-- server/internal/core/usecase/auth.go: the service for users, user tokens and agents, over any
-- implementation of its ports.
pub mod Users
pub mod Agents
pub mod Laws
pub mod Outcome
pub mod Fails
pub mod UserRefines
pub mod ExchangeRefines
pub mod AgentOutcome
pub mod AgentFails
pub mod AgentRefines
pub mod AgentChanges
pub mod History
pub mod Sessions
pub mod SignIn
pub mod Keeps
use agent_events.Prelude.{ℕ, String, none, some, List, [], ◌∷◌, not, ◌||◌, ◌==◌, if◌then◌else◌}
use agent_events.Prelude.Int.{ℤ, leb_ℤ}
use agent_events.Text.{◌^^◌}
use agent_events.Encoding.{hex_encode, base64_encode}
use agent_events.Time.{Time, Duration, minute, zero_time, is_zero, add, sub}
use agent_events.Apperr.{
  Error, sentinel_text, user_token_not_found, user_not_found, agent_not_found, provider_unavailable,
  is, not_found, invalid, unauthorized, forbidden, too_many, wrap_error,
}
use agent_events.Exec.{App, pure, fail, catch, lift, when, ◌>>=◌, ◌>>◌}
use agent_events.Domain.{Agent, User, Identity, valid_provider, expired, revoked, validate_agent}
use agent_events.Port.{
  IdentityVerifier, UserRepository, UserTokenRepository, AgentRepository, RateLimiter, Logger,
  Runtime, str, int, err_field, info, warn, error_log,
}

abbrev pub action_auth_exchange : String
action_auth_exchange = "auth.exchange"

abbrev pub token_prefix_user : String
token_prefix_user = "aeu_"

abbrev pub token_prefix_agent : String
token_prefix_agent = "aea_"

abbrev pub agent_touch_interval : Duration
agent_touch_interval = minute

-- type AuthConfig struct
pub record AuthConfig : Type 0 where
  pub user_token_ttl : Duration
  pub max_agents_per_user : ℤ

-- type ExchangeInput struct
pub record ExchangeInput : Type 0 where
  pub provider : String
  pub id_token : String
  pub client_ip : String

-- type ExchangeResult struct
pub record ExchangeResult : Type 0 where
  pub user : User
  pub token : String
  pub expires_at : Time

-- type AgentWithKey struct
pub record AgentWithKey : Type 0 where
  pub agent : Agent
  pub key : String

-- type AgentCredentials struct
pub record AgentCredentials : Type 0 where
  pub agent : Agent
  pub user : User

-- type AuthService struct, with the runtime that its methods read and the digest of crypto/sha256
pub record AuthService (W : Type 0) : Type 0 where
  pub verifier : IdentityVerifier W
  pub users : UserRepository W
  pub tokens : UserTokenRepository W
  pub agents : AgentRepository W
  pub limiter : RateLimiter W
  pub logger : Logger W
  pub config : AuthConfig
  pub runtime : Runtime W
  pub sha256 : String → List ℕ

module _ {W : Type 0} (s : AuthService W) where
  -- `HashToken`
  unfoldable pub hash_token : String → String
  unfolding hex_encode
  hash_token raw = hex_encode (s.sha256 raw)

  -- `newToken`: the raw token and its hash
  unfoldable pub new_token : String → App W (String × String)
  unfolding hash_token base64_encode
  new_token prefix = do
    bytes ← s.runtime.random_bytes
    let raw = prefix ^^ base64_encode bytes
    pure (raw, hash_token raw)
