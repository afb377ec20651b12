-- ===== src/Server/Events.antt =====
-- server/cmd/api/main.go: the use of an agent's key and the table of events.
use agent_events.Prelude.{String, ℕ, List, ◌≡◌, refl}
use agent_events.Apperr.{plain}
use agent_events.Exec.{fail}
use agent_events.Port.{IdentityVerifier}
use agent_events.World.{World}
use agent_events.Memory.{Limits}
use agent_events.Postgres.Schema.{Engine}
use agent_events.Usecase.Auth.{AuthConfig}
use agent_events.Usecase.Auth.Agents.{authenticate_agent}
use agent_events.Usecase.Auth.Keeps.Agents.{authenticate_agent-Keeps}
use agent_events.Server.{auth_service}
use agent_events.Server.Frames.{auth_service-PortsKeep}

module _ (pg : Engine) (limits : Limits) (config : AuthConfig) (verifier : IdentityVerifier World)
    (sha256 : String → List ℕ) where
  -- The use of a key verifies no identity, so any verifier will do.
  abbrev idle : IdentityVerifier World
  idle = record { verify = λ provider raw. fail (plain "") }

  pub authenticate_agent-events :
      (raw : String) (w : World)
      → (authenticate_agent (auth_service pg limits config verifier sha256) raw w).1.db.events
        ≡ w.db.events
  unfolding authenticate_agent
  authenticate_agent-events raw w =
      (authenticate_agent-Keeps (auth_service pg limits config idle sha256)
          (auth_service-PortsKeep pg limits config idle sha256 (λ provider raw w. refl)
            (λ rows. rows ≡ w.db.events))
          raw).kept
        w refl
