-- ===== src/Server/Steps/Agents.antt =====
-- server/cmd/api/main.go: agents across whole sequences of steps of the server.

use agent_events.Prelude.{String, ℕ, ◌≤◌, ◌≡◌, sym, List, [], ◌∷◌, true, some, ap, ◌∙◌, refl, ◌≢◌}
use mathlib.Core.Option.{some-injective}
use agent_events.Prelude.Int.{pos, leb_ℤ}
use agent_events.Config.{Config}
use agent_events.Port.Accounts.{Accounts}
use agent_events.World.{World, world_runtime}
use agent_events.Postgres.Schema.{Engine, AgentRow, UserRow, UserTokenRow, empty_db}
use agent_events.Postgres.Users.{user_token_repository, delete_expired}
use agent_events.Postgres.Accounts.{accounts_in, accounts_at, account_model}
use agent_events.Postgres.Frames.{delete_expired-agents}
use agent_events.Http.ClientIp.{Net}
use agent_events.Http.Bearer.{bearer_token}
use agent_events.Http.Api.{Api, Codec, Request}
use agent_events.Http.EventHandler.{actor_of}
use agent_events.Http.Router.{Route}
use agent_events.Http.Router.Refused.{
  Credential, nothing, user_token, agent_key, credential, Unaccepted, serve-refuses,
}
use agent_events.Http.Controller.{RequestInfo, api_v1, handle}
use agent_events.Oidc.{Library}
use agent_events.Oidc.Verifier.{Verifier, verify, identity_verifier}
use agent_events.Usecase.Auth.{hash_token}
use agent_events.Usecase.Auth.Laws.{AuthLaws}
use agent_events.Usecase.Auth.Agents.{authenticate_agent}
use agent_events.Usecase.Auth.AgentRefines.{authenticate_agent-refines}
use agent_events.Usecase.Auth.History
use agent_events.Usecase.Auth.History.Revoked.{Barred, perform-Barred, Barred-refused}
use agent_events.Usecase.Auth.History.Limit.{Limited, perform-Limited}
use agent_events.Usecase.Auth.History.Spares.{By, Usable, perform-Usable}
use agent_events.Usecase.Event.Keeps as EventKeeps
use agent_events.Server.{auth_service-AuthLaws, event_service}
use agent_events.Server.Frames.{event_service-PortsKeep}
use agent_events.Server.Start.{provide_api, provide_rate_limiter, provide_auth_config}
use agent_events.Server.Steps.{Step, request, clean_up, run}
use agent_events.Server.Steps.Keeps.{StepsBy, run-Holds}

-- Nothing is asked of the users of the credentials.
pub anyone :
    (pg : Engine) (api : Api World) (steps : List Step) (w : World)
    → StepsBy pg api (λ _. Unit) (λ _. Unit) steps w
anyone pg api [] w = tt
anyone pg api (request e info r ∷ steps) w =
    ((λ raw user given known. tt, λ raw c given known. tt), anyone pg api steps _)
anyone pg api (clean_up cancelled ∷ steps) w = (tt, anyone pg api steps _)

module _ {net : Net} (cfg : Config net) (pg : Engine) (codec : Codec) (lib : Library World)
    (verifier : Verifier World) (sha256 : String → List ℕ)
    (quiet : (provider raw : String) (w : World)
      → (verify lib verifier provider raw w).1.db ≡ w.db) where
  abbrev pub api : Api World
  api = provide_api cfg pg codec lib verifier sha256

  abbrev laws : AuthLaws (account_model pg) (accounts_at pg) api.auth
  laws =
      auth_service-AuthLaws pg (provide_rate_limiter cfg) (provide_auth_config cfg)
        (identity_verifier lib verifier) sha256 quiet

  -- What is said of accounts stays true, if the calls of the account service and the removal of
  -- tokens keep it.
  run-accounts :
      (users : String → Type 0) (R : Accounts → Type 0)
      → ((call : History.Request) (w : World)
          → By users call
          → R (accounts_at pg w)
          → R (accounts_at pg (History.perform api.auth call w)))
      → ((w : World) → R (accounts_at pg w) → R (accounts_at pg (delete_expired pg w).1))
      → (steps : List Step) (w : World) → StepsBy pg api users (λ _. Unit) steps w
      → R (accounts_at pg w)
      → R (accounts_at pg (run api (user_token_repository pg) steps w))
  run-accounts users R account purge steps w by p =
      run-Holds pg api users (λ _. Unit) (λ db. R (accounts_in pg db)) (λ l msg fs w. refl) account
        (λ identity by call w p.
          EventKeeps.perform-Keeps (event_service pg (provide_rate_limiter cfg))
            (event_service-PortsKeep pg (provide_rate_limiter cfg) (λ t. R (accounts_of t)))
            (actor_of identity) call w p)
        purge steps w by p
    where
      accounts_of : List UserRow × List AgentRow × List UserTokenRow → Accounts
      accounts_of t =
          accounts_in pg (record empty_db { users = t.0; agents = t.1; user_tokens = t.2 })

  -- The state behind a sequence of steps.
  abbrev pub behind : List Step → World → World
  behind steps w = run api (user_token_repository pg) steps w

  run-Barred :
      (hash : String) (steps : List Step) (w : World)
      → Barred hash (accounts_at pg w)
      → Barred hash (accounts_at pg (behind steps w))
  run-Barred hash steps w =
      run-accounts (λ _. Unit) (Barred hash)
        (λ call w by p.
          perform-Barred api.auth (account_model pg) (accounts_at pg) laws hash call w p)
        (λ w p. rw (delete_expired-agents pg w) p) steps w (anyone pg api steps w)

  revoked_is_Unaccepted :
      (raw : String) (r : Request) (w : World)
      → Barred (hash_token api.auth raw) (accounts_at pg w)
      → bearer_token r.authorization ≡ some raw
      → (kind : Credential) → kind ≡ agent_key
      → Unaccepted api kind r w
  revoked_is_Unaccepted raw r w barred carried agent_key same = λ key c given known.
      let read : raw ≡ key = some-injective _ _ (sym carried ∙ given) in
      Barred-refused (account_model pg) (accounts_at pg w) (hash_token api.auth raw) barred
        (authenticate_agent-refines api.auth (account_model pg) (accounts_at pg) laws raw w) c
        (ap (λ k. (authenticate_agent api.auth k w).0) read ∙ known)
  revoked_is_Unaccepted raw r w barred carried nothing same = cc
  revoked_is_Unaccepted raw r w barred carried user_token same = cc

  -- For every configuration, if verifying an identity leaves the database alone, then once an agent
  -- is revoked, a request with its key to a route for agents is answered with the status of an
  -- error and changes no accounts, whatever requests and removals of tokens came in between.
  pub run-refuses_revoked :
      (raw : String) (steps : List Step) (w : World)
      → Barred (hash_token api.auth raw) (accounts_at pg w)
      → (rt : Route) (info : RequestInfo) (r : Request) → credential rt ≡ agent_key
      → bearer_token r.authorization ≡ some raw
      → (400 ≤ (handle api world_runtime (api_v1 rt) info r (behind steps w)).0.status)
        × (accounts_at pg (handle api world_runtime (api_v1 rt) info r (behind steps w)).1
            ≡ accounts_at pg (behind steps w))
  unfolding handle
  run-refuses_revoked raw steps w barred rt info r asks carried =
      let w₁ = (world_runtime.now (behind steps w)).1 in
      serve-refuses api (account_model pg) (accounts_at pg) laws (λ l msg fs w. refl) rt r w₁
        (revoked_is_Unaccepted raw r w₁ (run-Barred (hash_token api.auth raw) steps w barred)
          carried (credential rt) asks)

  -- For every configuration, if verifying an identity leaves the database alone and no user has
  -- more active agents than the configuration allows, then none has after any sequence of requests
  -- and removals of tokens.
  pub run-Limited :
      (steps : List Step) (w : World)
      → Limited cfg.max_agents_per_user (accounts_at pg w)
      → (u : String)
      → leb_ℤ (pos ((accounts_at pg (behind steps w)).active u)) cfg.max_agents_per_user ≡ true
  run-Limited steps w =
      run-accounts (λ _. Unit) (Limited cfg.max_agents_per_user)
        (λ call w by p. perform-Limited api.auth (account_model pg) (accounts_at pg) laws call w p)
        (λ w p. rw (delete_expired-agents pg w) p) steps w (anyone pg api steps w)

  -- For every configuration, if verifying an identity leaves the database alone, then an agent that
  -- is stored and not revoked still is, and still has its owner, after any sequence of requests and
  -- removals of tokens in which no request carries a token of the owner.
  pub run-spares_agents :
      (id owner : String) (steps : List Step) (w : World)
      → StepsBy pg api (λ u. u ≢ owner) (λ _. Unit) steps w
      → Usable id owner (accounts_at pg w)
      → Usable id owner (accounts_at pg (behind steps w))
  run-spares_agents id owner =
      run-accounts (λ u. u ≢ owner) (Usable id owner)
        (perform-Usable api.auth (account_model pg) (accounts_at pg) laws id owner)
        λ w p. rw (delete_expired-agents pg w) p
