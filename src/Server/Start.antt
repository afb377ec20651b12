-- ===== src/Server/Start.antt =====
-- server/cmd/api/main.go: what the parts of the server take from its configuration.
pub mod Total
use agent_events.Prelude.{String, ℕ, List, [], ◌∷◌, ◌&&◌}
use agent_events.Prelude.Int.{pos}
use agent_events.Time.{Duration, hour}
use agent_events.Exec.{App, pure, when, ◌>>=◌, ◌>>◌}
use agent_events.Config.{Config, is_development, has_no_client_id}
use agent_events.Memory.{Limits}
use agent_events.Port.{Logger, warn}
use agent_events.Http.Api.{Api, Codec}
use agent_events.Http.ClientIp.{Net}
use agent_events.Oidc.{Library}
use agent_events.Oidc.Verifier.{Verifier, new_verifier, identity_verifier}
use agent_events.Postgres.Schema.{Engine}
use agent_events.Usecase.Auth.{AuthConfig, action_auth_exchange}
use agent_events.Usecase.Event.{action_create_event}
use agent_events.World.{World, journal_logger}
use agent_events.Server.{event_service, auth_service}

-- 24 * time.Hour
abbrev pub day : Duration
day = pos 86_400_000_000_000

module _ {net : Net} (cfg : Config net) where
  -- `provideRateLimiter`
  abbrev pub provide_rate_limiter : Limits
  provide_rate_limiter =
      (action_create_event, record { max = cfg.rate_limit_events_per_day; window = day })
      ∷ (action_auth_exchange, record { max = cfg.rate_limit_exchange_per_hour; window = hour })
      ∷ []

  -- `provideAuthConfig`
  abbrev pub provide_auth_config : AuthConfig
  provide_auth_config = record {
    user_token_ttl = cfg.user_token_ttl;
    max_agents_per_user = cfg.max_agents_per_user;
  }

  -- `provideTrustedProxies`
  abbrev pub provide_trusted_proxies : List net.IpNet
  provide_trusted_proxies = cfg.trusted_proxies

  -- `provideIdentityVerifier`
  unfoldable pub provide_identity_verifier :
      {W : Type 0} → Library W → Logger W → App W (Verifier W)
  unfolding new_verifier
  provide_identity_verifier lib log = do
    verifier ←
        new_verifier lib (is_development cfg) cfg.google_client_id cfg.apple_client_id
          cfg.microsoft_client_id cfg.microsoft_tenant
    when (is_development cfg && has_no_client_id cfg) (
        warn log
          "dev identity verifier active: any token string is accepted as an identity (development only); set a provider client id to disable"
          [])
    pure verifier

  -- what `fx.Provide` puts together behind the routes
  abbrev pub provide_api :
      Engine → Codec → Library World → Verifier World → (sha256 : String → List ℕ) → Api World
  provide_api pg codec lib verifier sha256 = record {
    events = event_service pg provide_rate_limiter;
    auth =
        auth_service pg provide_rate_limiter provide_auth_config (identity_verifier lib verifier)
          sha256;
    log = journal_logger;
    codec = codec;
    net = net;
    trusted = provide_trusted_proxies;
  }
