-- ===== src/Server/Steps/Stored.antt =====
-- server/cmd/api/main.go: events across whole sequences of steps of the server.
use agent_events.Prelude.{String, ℕ, List, ◌≡◌, ◌≢◌, refl, some}
use agent_events.Config.{Config}
use agent_events.Domain.{Event}
use agent_events.World.{World}
use agent_events.Postgres.Schema.{Engine}
use agent_events.Postgres.Users.{user_token_repository}
use agent_events.Postgres.Frames.{delete_expired-events}
use agent_events.Postgres.Events.View.{events_in, event_model, events_at, find_event}
use agent_events.Postgres.Events.Laws.{event_repository-EventRepositoryLaws}
use agent_events.Http.ClientIp.{Net}
use agent_events.Http.Api.{Api, Codec}
use agent_events.Http.EventHandler.{actor_of}
use agent_events.Oidc.{Library}
use agent_events.Oidc.Verifier.{Verifier, verify, identity_verifier}
use agent_events.Usecase.Auth.Keeps.Agents
use agent_events.Usecase.Event.Ownership.{perform-keeps}
use agent_events.Server.{db-KeepsView}
use agent_events.Server.Frames.{auth_service-PortsKeep}
use agent_events.Server.Start.{provide_api, provide_rate_limiter, provide_auth_config}
use agent_events.Server.Steps.{Step, run}
use agent_events.Server.Steps.Keeps.{StepsBy, run-Holds}

module _ {net : Net} (cfg : Config net) (pg : Engine) (codec : Codec) (lib : Library World)
    (verifier : Verifier World) (sha256 : String → List ℕ)
    (quiet : (provider raw : String) (w : World)
      → (verify lib verifier provider raw w).1.db ≡ w.db) where
  open pg use {uuid}

  abbrev api : Api World
  api = provide_api cfg pg codec lib verifier sha256

  -- For every configuration, if verifying an identity leaves the database alone, then an event
  -- stays stored as it was over any sequence of requests and removals of tokens in which no request
  -- carries the key of an agent of its owner.
  pub run-keeps_others :
      (id : String) (kept : Event) (steps : List Step) (w : World)
      → StepsBy pg api (λ _. Unit) (λ u. kept.user_id ≢ u) steps w
      → events_at pg w id ≡ some kept
      → events_at pg (run api (user_token_repository pg) steps w) id ≡ some kept
  run-keeps_others id kept =
      run-Holds pg api (λ _. Unit) (λ u. kept.user_id ≢ u) (λ db. events_in pg db id ≡ some kept)
        (λ l msg fs w. refl)
        (λ call w by p.
          Agents.perform-Keeps api.auth
            (auth_service-PortsKeep pg (provide_rate_limiter cfg) (provide_auth_config cfg)
              (identity_verifier lib verifier) sha256 quiet
              (λ rows. find_event pg rows (uuid id) ≡ some kept))
            call w p)
        (λ identity other call w p.
          perform-keeps api.events (event_model pg) (events_at pg)
            (event_repository-EventRepositoryLaws pg)
            (db-KeepsView (λ db. events_in pg db) (provide_rate_limiter cfg)) (actor_of identity)
            call w id kept other p)
        λ w p. rw (delete_expired-events pg w) p
