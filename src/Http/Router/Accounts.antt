-- ===== src/Http/Router/Accounts.antt =====
-- server/internal/transport/http/controller/controller.go: the routes of accounts.
use agent_events.Prelude.{String, ◌≡◌, ap, inl, inr, false, some, Bool-cases, Option-cases}
use agent_events.Exec.{App, Result, ok, run-cases}
use agent_events.Domain.{User}
use agent_events.Usecase.Auth.{hash_token}
use agent_events.Usecase.Auth.Users
use agent_events.Usecase.Auth.Agents
use agent_events.Usecase.Auth.Users.{authenticate_user}
use agent_events.Usecase.Auth.Agents.{authenticate_agent}
use agent_events.Usecase.Auth.History.{
  Request, sign_in, use_token, sign_out, use_key, add_agent, show_agents, bar_agent, perform,
}
use agent_events.Usecase.Auth.History.Spares.{By}
use agent_events.Http.Response.{Response}
use agent_events.Http.Bearer.{bearer_token}
use agent_events.Http.ClientIp.{client_ip}
use agent_events.Http.Dto.{create_agent_fields, exchange_fields, exchange_input}
use agent_events.Http.Api.{
  UserIdentity, AgentIdentity, Context, empty_context, with_agent, with_user, Api, Payload, respond,
}
use agent_events.Http.Api
use agent_events.Http.Keeps.{valid-keeps, answer-keeps}
use agent_events.Http.AccountHandler
use agent_events.Http.Router.{
  Route, post_exchange, delete_session, post_agents, get_agents, delete_agent, get_whoami,
  post_events, get_events, get_event_by_id, put_event, delete_event_by_id, require_agent,
  require_user, route,
}
use agent_events.Http.Router.Guarded.{of_events}

-- The handlers of accounts change the state as the calls of the account service do, or not at all.
module _ {W : Type 0} (api : Api W) (P : W → Type 0) (Q : String → Type 0)
    (keeps : (request : Request) (w : W)
      → By Q request
      → P w
      → P (perform api.auth request w)) where
  sign_in-keeps : (r : Api.Request) (w : W) → P w → P (AccountHandler.sign_in api r w).1
  unfolding AccountHandler.sign_in perform
  sign_in-keeps r w p = elim (Option-cases (api.codec.decode_exchange r.body)) [
    | inl bad ↦ rw bad p
    | inr (req, good) ↦
        let input =
          exchange_input req (client_ip api.net r.remote_addr r.forwarded_for api.trusted) in
        rw good (
          valid-keeps P api.codec (exchange_fields req) _ w p
            (answer-keeps P (Users.exchange api.auth input) _ w (keeps (sign_in input) w tt p)))
  ]

  module _ (identity : UserIdentity) (other : Q identity.user.id) where
    abbrev ctx : Context
    ctx = with_user empty_context identity

    sign_out-keeps : (w : W) → P w → P (AccountHandler.sign_out api ctx w).1
    unfolding AccountHandler.sign_out perform
    sign_out-keeps w p =
        answer-keeps P (Users.revoke_user_token api.auth identity.token_hash) _ w
          (keeps (sign_out identity.token_hash) w tt p)

    add_agent-keeps : (r : Api.Request) (w : W) → P w → P (AccountHandler.add_agent api ctx r w).1
    unfolding AccountHandler.add_agent perform
    add_agent-keeps r w p = elim (Option-cases (api.codec.decode_create_agent r.body)) [
      | inl bad ↦ rw bad p
      | inr (req, good) ↦ rw good (
          valid-keeps P api.codec (create_agent_fields req) _ w p (
            answer-keeps P (Agents.create_agent api.auth identity.user.id req.name) _ w
              (keeps (add_agent identity.user.id req.name) w tt p)))
    ]

    show_agents-keeps : (w : W) → P w → P (AccountHandler.show_agents api ctx w).1
    unfolding AccountHandler.show_agents perform
    show_agents-keeps w p =
        answer-keeps P (Agents.list_agents api.auth identity.user.id) _ w
          (keeps (show_agents identity.user.id) w tt p)

    bar_agent-keeps : (r : Api.Request) (w : W) → P w → P (AccountHandler.bar_agent api ctx r w).1
    unfolding AccountHandler.bar_agent perform
    bar_agent-keeps r w p = elim (Bool-cases (api.codec.is_uuid r.url_id)) [
      | inr bad ↦ rw bad p
      | inl good ↦ rw good (
          answer-keeps P (Agents.revoke_agent api.auth identity.user.id r.url_id) _ w
            (keeps (bar_agent identity.user.id r.url_id) w other p))
    ]

  -- A token that the request carries is one of a user who is as asked.
  abbrev pub TokenBy : Api.Request → W → Type 0
  TokenBy r w =
      (raw : String) (user : User)
      → bearer_token r.authorization ≡ some raw
      → (authenticate_user api.auth raw w).0 ≡ ok user
      → Q user.id

  user-keeps :
      (next : Context → Api.Request → App W (Response Payload)) (r : Api.Request) (w : W)
      → ((identity : UserIdentity) (w : W)
          → Q identity.user.id
          → P w
          → P (next (with_user empty_context identity) r w).1)
      → TokenBy r w
      → P w
      → P (require_user api next empty_context r w).1
  unfolding require_user perform
  user-keeps next r w step stranger p = elim (Option-cases (bearer_token r.authorization)) [
    | inl missing ↦ rw (missing, require_user) p
    | inr (raw, given) ↦
        let used : P (authenticate_user api.auth raw w).1 = keeps (use_token raw) w tt p in
        elim (run-cases (authenticate_user api.auth raw w)) [
          | inr (e, w', h) ↦ rw (given, require_user, h) (rw h at used)
          | inl (user, w', h) ↦
              rw (given, require_user, h)
                (step (record { user = user; token_hash = hash_token api.auth raw }) w'
                  (stranger raw user given (ap (λ (p : Result User × W). p.0) h)) (rw h at used))
        ]
  ]

  agent-keeps :
      (r : Api.Request) (w : W)
      → P w
      → P (require_agent api (λ ctx r. AccountHandler.whoami api ctx) empty_context r w).1
  unfolding require_agent perform AccountHandler.whoami
  agent-keeps r w p = elim (Option-cases (bearer_token r.authorization)) [
    | inl missing ↦ rw (missing, require_agent) p
    | inr (raw, given) ↦
        let used : P (authenticate_agent api.auth raw w).1 = keeps (use_key raw) w tt p in
        elim (run-cases (authenticate_agent api.auth raw w)) [
          | inr (e, w', h) ↦ rw (given, require_agent, h) (rw h at used)
          | inl (c, w', h) ↦ rw (given, require_agent, h) (rw h at used)
        ]
  ]

  pub route-keeps :
      (rt : Route) (r : Api.Request) (w : W)
      → of_events rt ≡ false
      → TokenBy r w
      → P w
      → P (route api rt r w).1
  unfolding route
  route-keeps post_exchange r w h = λ stranger p. sign_in-keeps r w p
  route-keeps delete_session r w h =
      user-keeps (λ ctx r. AccountHandler.sign_out api ctx) r w
        λ identity w other. sign_out-keeps identity other w
  route-keeps post_agents r w h =
      user-keeps (AccountHandler.add_agent api) r w
        λ identity w other. add_agent-keeps identity other r w
  route-keeps get_agents r w h =
      user-keeps (λ ctx r. AccountHandler.show_agents api ctx) r w
        λ identity w other. show_agents-keeps identity other w
  route-keeps delete_agent r w h =
      user-keeps (AccountHandler.bar_agent api) r w
        λ identity w other. bar_agent-keeps identity other r w
  route-keeps get_whoami r w h = λ stranger p. agent-keeps r w p
  route-keeps post_events r w h = cc
  route-keeps get_events r w h = cc
  route-keeps get_event_by_id r w h = cc
  route-keeps put_event r w h = cc
  route-keeps delete_event_by_id r w h = cc
