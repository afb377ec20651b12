-- ===== src/Server/Steps/Keeps.antt =====
-- server/cmd/api/main.go: what holds of the database across the steps of the server.
use agent_events.Prelude.{String, ◌≡◌, List, [], ◌∷◌, Bool, inl, inr, Bool-cases, some}
use agent_events.Exec.{ok}
use agent_events.Exec.Keeps.{catch-Keeps, if-Keeps, pure-Keeps, end-Keeps}
use agent_events.Domain.{User}
use agent_events.Port.{Level, Field}
use agent_events.World.{World, world_runtime}
use agent_events.Postgres.Schema.{Db, Engine}
use agent_events.Postgres.Users.{delete_expired, user_token_repository}
use agent_events.Usecase.Auth.{AgentCredentials}
use agent_events.Usecase.Auth.Users.{authenticate_user}
use agent_events.Usecase.Auth.Agents.{authenticate_agent}
use agent_events.Usecase.Auth.History
use agent_events.Usecase.Auth.History.{use_key}
use agent_events.Usecase.Auth.History.Spares.{By}
use agent_events.Usecase.Event.Ownership
use agent_events.Http.Bearer.{bearer_token}
use agent_events.Http.Api.{Api, Request, AgentIdentity}
use agent_events.Http.EventHandler.{actor_of}
use agent_events.Http.Keeps.{respond-keeps}
use agent_events.Http.Router.{Route, route, serve}
use agent_events.Http.Router.Guarded.{of_events, event_route-keeps}
use agent_events.Http.Router.Accounts.{route-keeps}
use agent_events.Http.Controller.{Endpoint, healthz, api_v1, RequestInfo, handle, endpoint}
use agent_events.Server.Cleanup.{sweep}
use agent_events.Server.Steps.{Step, request, clean_up, step, run}

module _ (api : Api World) (users keys : String → Type 0) where
  -- The credentials of a request are those of users who are as asked, one way for tokens and
  -- another for the keys of agents.
  abbrev pub CredentialsBy : Request → World → Type 0
  CredentialsBy r w =
      ((raw : String) (user : User)
        → bearer_token r.authorization ≡ some raw
        → (authenticate_user api.auth raw w).0 ≡ ok user
        → users user.id)
      × ((raw : String) (c : AgentCredentials)
          → bearer_token r.authorization ≡ some raw
          → (authenticate_agent api.auth raw w).0 ≡ ok c
          → keys c.user.id)

  -- That of each request, in the state that its handler starts in.
  abbrev pub StepBy : Step → World → Type 0
  StepBy (request e info r) w = CredentialsBy r (world_runtime.now w).1
  StepBy (clean_up cancelled) w = Unit

module _ (pg : Engine) (api : Api World) (users keys : String → Type 0) where
  -- That of all steps.
  abbrev pub StepsBy : List Step → World → Type 0
  StepsBy [] w = Unit
  StepsBy (s ∷ steps) w =
      StepBy api users keys s w × StepsBy steps (step api (user_token_repository pg) s w)

module _ (pg : Engine) (api : Api World) (users keys : String → Type 0) (R : Db → Type 0)
    (log_quiet : (l : Level) (msg : String) (fs : List Field) (w : World)
      → (api.log.log l msg fs w).db ≡ w.db)
    (account : (call : History.Request) (w : World)
      → By users call
      → R w.db
      → R (History.perform api.auth call w).db)
    (event : (identity : AgentIdentity)
      → keys identity.user.id
      → (call : Ownership.Request) (w : World) → R w.db
      → R (Ownership.perform api.events (actor_of identity) call w).db)
    (purge : (w : World) → R w.db → R (delete_expired pg w).1.db) where
  log-Holds :
      (l : Level) (msg : String) (fs : List Field) (w : World)
      → R w.db
      → R (api.log.log l msg fs w).db
  log-Holds l msg fs w p = rw log_quiet p

  used-Holds : (raw : String) (w : World) → R w.db → R (authenticate_agent api.auth raw w).1.db
  unfolding History.perform
  used-Holds raw w p = account (use_key raw) w tt p

  serve-Holds :
      (rt : Route) (r : Request) (w : World)
      → CredentialsBy api users keys r w
      → R w.db
      → R (serve api rt r w).1.db
  unfolding serve
  serve-Holds rt r w (token_by, key_by) p =
      respond-keeps (λ w. R w.db) api.log log-Holds (route api rt r w)
        (elim (Bool-cases (of_events rt)) [
          | inl events ↦
              event_route-keeps api (λ w. R w.db) keys used-Holds event rt r w events key_by p
          | inr accounts ↦ route-keeps api (λ w. R w.db) users account rt r w accounts token_by p
        ])

  endpoint-Holds :
      (e : Endpoint) (r : Request) (w : World)
      → CredentialsBy api users keys r w
      → R w.db
      → R (endpoint api e r w).1.db
  unfolding endpoint
  endpoint-Holds healthz r w by p = p
  endpoint-Holds (api_v1 rt) r w by p = serve-Holds rt r w by p

  handle-Holds :
      (e : Endpoint) (info : RequestInfo) (r : Request) (w : World)
      → CredentialsBy api users keys r (world_runtime.now w).1
      → R w.db
      → R (handle api world_runtime e info r w).1.db
  unfolding handle
  handle-Holds e info r w by p = log-Holds _ _ _ _ (endpoint-Holds e r (world_runtime.now w).1 by p)

  sweep-Holds :
      (cancelled : Bool) (w : World)
      → R w.db
      → R (sweep (user_token_repository pg) api.log cancelled w).1.db
  unfolding sweep
  sweep-Holds cancelled =
      (catch-Keeps {P = λ w. R w.db} (end-Keeps purge)
        λ e. if-Keeps cancelled (pure-Keeps tt) (end-Keeps (log-Holds _ _ _))).kept

  step-Holds :
      (s : Step) (w : World)
      → StepBy api users keys s w
      → R w.db
      → R (step api (user_token_repository pg) s w).db
  unfolding step
  step-Holds (request e info r) w by p = handle-Holds e info r w by p
  step-Holds (clean_up cancelled) w by p = sweep-Holds cancelled w p

  -- What the calls of the services and the removal of tokens keep, every sequence of steps keeps.
  pub run-Holds :
      (steps : List Step) (w : World)
      → StepsBy pg api users keys steps w
      → R w.db
      → R (run api (user_token_repository pg) steps w).db
  unfolding run
  run-Holds [] w by p = p
  run-Holds (s ∷ steps) w (now, later) p =
      run-Holds steps (step api (user_token_repository pg) s w) later (step-Holds s w now p)
