-- ===== src/Http/Router.antt =====
-- server/internal/transport/http/middleware/auth.go and controller/controller.go: which identity a
-- route needs, and the handler behind it. The middleware of the chi package and the line of the log
-- for each request are left out.
pub mod Guarded
pub mod Accounts
pub mod Refused
pub mod SignOut
use agent_events.Prelude.{String, Option, none, some}
use agent_events.Apperr.{unauthorized}
use agent_events.Exec.{App, pure, fail, ◌>>=◌, ◌>>◌}
use agent_events.Usecase.Auth.{hash_token}
use agent_events.Usecase.Auth.Users.{authenticate_user}
use agent_events.Usecase.Auth.Agents.{authenticate_agent}
use agent_events.Http.Response.{Response}
use agent_events.Http.Bearer.{bearer_token}
use agent_events.Http.Api.{
  Context, empty_context, with_agent, with_user, Request, Api, Payload, respond,
}
use agent_events.Http.EventHandler.{
  create_event, get_event, list_events, update_event, delete_event,
}
use agent_events.Http.AccountHandler.{sign_in, sign_out, whoami, add_agent, show_agents, bar_agent}

-- The routes under /api/v1.
pub data Route : Type 0 where
  post_exchange delete_session post_agents get_agents delete_agent get_whoami : Route
  post_events get_events get_event_by_id put_event delete_event_by_id : Route

module _ {W : Type 0} (api : Api W) where
  open api use {auth}

  -- `Auth.RequireAgent`
  unfoldable pub require_agent :
      (Context → Request → App W (Response Payload)) → Context → Request → App W (Response Payload)
  unfolding bearer_token
  require_agent next ctx r = elim (bearer_token r.authorization) [
    | none ↦ fail (unauthorized "missing agent key, use Authorization: Bearer <agent key>")
    | some raw ↦ (do
      creds ← authenticate_agent auth raw
      next (with_agent ctx (record { agent = creds.agent; user = creds.user })) r)
  ]

  -- `Auth.RequireUser`
  unfoldable pub require_user :
      (Context → Request → App W (Response Payload)) → Context → Request → App W (Response Payload)
  unfolding bearer_token
  require_user next ctx r = elim (bearer_token r.authorization) [
    | none ↦ fail (unauthorized "missing user token, use Authorization: Bearer <user token>")
    | some raw ↦ (do
      user ← authenticate_user auth raw
      next (with_user ctx (record { user = user; token_hash = hash_token auth raw })) r)
  ]

  -- `NewRouter`: the handler of a route behind its middleware
  unfoldable pub route : Route → Request → App W (Response Payload)
  unfolding require_agent require_user
  route post_exchange = sign_in api
  route delete_session = require_user (λ ctx r. sign_out api ctx) empty_context
  route post_agents = require_user (add_agent api) empty_context
  route get_agents = require_user (λ ctx r. show_agents api ctx) empty_context
  route delete_agent = require_user (bar_agent api) empty_context
  route get_whoami = require_agent (λ ctx r. whoami api ctx) empty_context
  route post_events = require_agent (create_event api) empty_context
  route get_events = require_agent (λ ctx r. list_events api) empty_context
  route get_event_by_id = require_agent (λ ctx r. get_event api r) empty_context
  route put_event = require_agent (update_event api) empty_context
  route delete_event_by_id = require_agent (delete_event api) empty_context

  -- The response to a request, and the state after it.
  unfoldable pub serve : Route → Request → W → Response Payload × W
  unfolding route respond
  serve rt r w = respond api.log (route rt r w)
