-- ===== src/Http/Router/Refused.antt =====
-- server/internal/transport/http/middleware/auth.go: requests without credentials that are
-- accepted.
use agent_events.Prelude.{
  ◌≤◌, String, ◌≡◌, ◌≢◌, refl, ap, ◌∙◌, inl, inr, some, List, arith, Option-cases,
}
use agent_events.Apperr.{
  Error, Kind, kind_not_found, kind_invalid, kind_unauthorized, kind_forbidden, kind_too_many,
  kind_internal, kind_of,
}
use agent_events.Exec.{App, Result, ok, err, run-cases}
use agent_events.Time.{Time}
use agent_events.Domain.{Agent, User}
use agent_events.Port.{Level, Field, Logger}
use agent_events.Port.Accounts.{Accounts, AccountModel}
use agent_events.Usecase.Auth.{AgentCredentials}
use agent_events.Usecase.Auth.Laws.{AuthLaws}
use agent_events.Usecase.Auth.Outcome.{UserOutcome}
use agent_events.Usecase.Auth.AgentOutcome.{CredentialsOutcome}
use agent_events.Usecase.Auth.UserRefines.{authenticate_user-refines}
use agent_events.Usecase.Auth.AgentRefines.{authenticate_agent-refines}
use agent_events.Usecase.Auth.Users.{authenticate_user}
use agent_events.Usecase.Auth.Agents.{authenticate_agent}
use agent_events.Http.Response.{Response, status_code, status_of_kind}
use agent_events.Http.Bearer.{bearer_token}
use agent_events.Http.Api.{Request, Context, empty_context, Api, Payload, respond}
use agent_events.Http.EventHandler.{
  create_event, get_event, list_events, update_event, delete_event,
}
use agent_events.Http.AccountHandler.{sign_out, whoami, add_agent, show_agents, bar_agent}
use agent_events.Http.Keeps.{respond-keeps}
use agent_events.Http.Router.{
  Route, post_exchange, delete_session, post_agents, get_agents, delete_agent, get_whoami,
  post_events, get_events, get_event_by_id, put_event, delete_event_by_id, require_agent,
  require_user, route, serve,
}

-- What a route asks of a request.
pub data Credential : Type 0 where
  nothing user_token agent_key : Credential

abbrev pub credential : Route → Credential
credential post_exchange = nothing
credential delete_session = user_token
credential post_agents = user_token
credential get_agents = user_token
credential delete_agent = user_token
credential _ = agent_key

status_of_kind-error : (k : Kind) → 400 ≤ status_of_kind k
unfolding status_of_kind
status_of_kind-error kind_not_found = omega arith
status_of_kind-error kind_invalid = omega arith
status_of_kind-error kind_unauthorized = omega arith
status_of_kind-error kind_forbidden = omega arith
status_of_kind-error kind_too_many = omega arith
status_of_kind-error kind_internal = omega arith

-- An error has the status of one.
pub respond-error :
    {W : Type 0} (log : Logger W) (e : Error) (w : W) → 400 ≤ (respond log (err e, w)).0.status
unfolding respond status_code
respond-error log e w = status_of_kind-error (kind_of e)

-- A token that is not accepted, and the use of one, change no accounts.
user-quiet :
    {hash : String} {now : Time} {before after : Accounts} {fails : Error → Type 0}
    {r : Result User}
    → UserOutcome fails hash now before after r
    → after ≡ before
user-quiet (UserOutcome.unknown _ quiet) = quiet
user-quiet (UserOutcome.over _ _ _ quiet) = quiet
user-quiet (UserOutcome.orphan _ _ _ _ quiet) = quiet
user-quiet (UserOutcome.failed _ _ quiet) = quiet
user-quiet (UserOutcome.accepted _ _ _ _ _ quiet) = quiet

-- Nor does a key that is not accepted.
agent-quiet :
    {m : AccountModel} {hash : String} {before after : Accounts} {fails : Error → Type 0}
    {untouched : Agent → Type 0} {r : Result AgentCredentials} {e : Error}
    → r ≡ err e
    → CredentialsOutcome fails untouched m hash before after r
    → after ≡ before
agent-quiet h (CredentialsOutcome.unknown _ quiet) = quiet
agent-quiet h (CredentialsOutcome.barred _ _ _ quiet) = quiet
agent-quiet h (CredentialsOutcome.orphan _ _ _ _ quiet) = quiet
agent-quiet h (CredentialsOutcome.failed _ _ quiet) = quiet
agent-quiet h (CredentialsOutcome.used _ _ _ _ _ _ _ _) = cc
agent-quiet h (CredentialsOutcome.used_lately _ _ _ _ _ _ _ quiet) = quiet

module _ {W : Type 0} (api : Api W) where
  -- The request carries no credentials that are accepted for the route.
  abbrev pub Unaccepted : Credential → Request → W → Type 0
  Unaccepted nothing r w = ⊥
  Unaccepted user_token r w =
      (raw : String) (u : User)
      → bearer_token r.authorization ≡ some raw
      → (authenticate_user api.auth raw w).0 ≢ ok u
  Unaccepted agent_key r w =
      (raw : String) (c : AgentCredentials)
      → bearer_token r.authorization ≡ some raw
      → (authenticate_agent api.auth raw w).0 ≢ ok c

  module _ (m : AccountModel) (at : W → Accounts) (laws : AuthLaws m at api.auth)
      (log_quiet : (l : Level) (msg : String) (fs : List Field) (w : W)
        → at (api.log.log l msg fs w) ≡ at w) where
    -- The answer is an error, and the accounts are as they were.
    abbrev Refused : W → Result (Response Payload) × W → Type 0
    Refused w answer = (e : Error) × (answer.0 ≡ err e) × (at answer.1 ≡ at w)

    user_route-Refused :
        (next : Context → Request → App W (Response Payload)) (r : Request) (w : W)
        → Unaccepted user_token r w
        → Refused w (require_user api next empty_context r w)
    unfolding require_user
    user_route-Refused next r w stranger = elim (Option-cases (bearer_token r.authorization)) [
      | inl missing ↦ rw (missing, require_user) (_, refl, refl)
      | inr (raw, given) ↦ elim (run-cases (authenticate_user api.auth raw w)) [
        | inl (u, w', h) ↦ absurd (stranger raw u given (ap (λ p. p.0) h))
        | inr (e, w', h) ↦
            let quiet = user-quiet (authenticate_user-refines api.auth m at laws raw w) in
            rw (given, require_user, h) (e, refl, rw h at quiet)
      ]
    ]

    agent_route-Refused :
        (next : Context → Request → App W (Response Payload)) (r : Request) (w : W)
        → Unaccepted agent_key r w
        → Refused w (require_agent api next empty_context r w)
    unfolding require_agent
    agent_route-Refused next r w stranger = elim (Option-cases (bearer_token r.authorization)) [
      | inl missing ↦ rw (missing, require_agent) (_, refl, refl)
      | inr (raw, given) ↦ elim (run-cases (authenticate_agent api.auth raw w)) [
        | inl (c, w', h) ↦ absurd (stranger raw c given (ap (λ p. p.0) h))
        | inr (e, w', h) ↦
            let quiet =
              agent-quiet (ap (λ p. p.0) h) (authenticate_agent-refines api.auth m at laws raw w) in
            rw (given, require_agent, h) (e, refl, rw h at quiet)
      ]
    ]

    route-Refused :
        (rt : Route) (r : Request) (w : W)
        → Unaccepted (credential rt) r w
        → Refused w (route api rt r w)
    unfolding route
    route-Refused post_exchange r w h = absurd h
    route-Refused delete_session r w h = user_route-Refused (λ ctx r. sign_out api ctx) r w h
    route-Refused post_agents r w h = user_route-Refused (add_agent api) r w h
    route-Refused get_agents r w h = user_route-Refused (λ ctx r. show_agents api ctx) r w h
    route-Refused delete_agent r w h = user_route-Refused (bar_agent api) r w h
    route-Refused get_whoami r w h = agent_route-Refused (λ ctx r. whoami api ctx) r w h
    route-Refused post_events r w h = agent_route-Refused (create_event api) r w h
    route-Refused get_events r w h = agent_route-Refused (λ ctx r. list_events api) r w h
    route-Refused get_event_by_id r w h = agent_route-Refused (λ ctx r. get_event api r) r w h
    route-Refused put_event r w h = agent_route-Refused (update_event api) r w h
    route-Refused delete_event_by_id r w h = agent_route-Refused (delete_event api) r w h

    respond-Refused :
        (w : W) (answer : Result (Response Payload) × W)
        → Refused w answer
        → (400 ≤ (respond api.log answer).0.status) × (at (respond api.log answer).1 ≡ at w)
    respond-Refused w (ok response, w') (e, h, quiet) = cc
    respond-Refused w (err x, w') (e, h, quiet) = (
      respond-error api.log x w',
      respond-keeps (λ v. at v ≡ at w) api.log (λ l msg fs v p. log_quiet l msg fs v ∙ p)
          (err x, w') quiet,
    )

    -- Over any ports that keep their laws, if the log changes no accounts, then a route other than
    -- that of the sign-in answers a request without credentials that are accepted for it with the
    -- status of an error, and leaves the accounts as they were.
    pub serve-refuses :
        (rt : Route) (r : Request) (w : W)
        → Unaccepted (credential rt) r w
        → (400 ≤ (serve api rt r w).0.status) × (at (serve api rt r w).1 ≡ at w)
    unfolding serve
    serve-refuses rt r w stranger =
        respond-Refused w (route api rt r w) (route-Refused rt r w stranger)
