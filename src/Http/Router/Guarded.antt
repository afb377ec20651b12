-- ===== src/Http/Router/Guarded.antt =====
-- server/internal/transport/http/controller/controller.go: the routes of events.
use agent_events.Prelude.{
  String, ◌≡◌, ◌≢◌, ap, inl, inr, Bool, true, false, some, List, Bool-cases, Option-cases,
}
use agent_events.Exec.{App, Result, ok, run-cases}
use agent_events.Domain.{Event}
use agent_events.Port.{Level, Field}
use agent_events.Port.Laws.{Events, EventModel, EventRepositoryLaws, KeepsView}
use agent_events.Usecase.Event
use agent_events.Usecase.Event.Ownership.{
  Request, create_event, update_event, delete_event, get_event, list_events, perform, perform-keeps,
}
use agent_events.Usecase.Auth.{AgentCredentials}
use agent_events.Usecase.Auth.Agents.{authenticate_agent}
use agent_events.Http.Response.{Response}
use agent_events.Http.Bearer.{bearer_token}
use agent_events.Http.Dto.{create_event_fields, update_event_fields, create_input, update_input}
use agent_events.Http.Api.{
  AgentIdentity, Context, empty_context, with_agent, FieldError, Api, Payload, respond, validated,
}
use agent_events.Http.Api
use agent_events.Http.Keeps.{valid-keeps, answer-keeps, respond-keeps}
use agent_events.Http.EventHandler
use agent_events.Http.EventHandler.{actor_of}
use agent_events.Http.Router.{
  Route, post_exchange, delete_session, post_agents, get_agents, delete_agent, get_whoami,
  post_events, get_events, get_event_by_id, put_event, delete_event_by_id, require_agent, route,
  serve,
}

-- The handlers of events change the state as the calls of the event service do, or not at all.
module _ {W : Type 0} (api : Api W) (identity : AgentIdentity) (P : W → Type 0)
    (keeps : (request : Request) (w : W)
      → P w
      → P (perform api.events (actor_of identity) request w)) where
  abbrev ctx : Context
  ctx = with_agent empty_context identity

  create_event-keeps : (r : Api.Request) (w : W) → P w → P (EventHandler.create_event api ctx r w).1
  unfolding EventHandler.create_event perform
  create_event-keeps r w p = elim (Option-cases (api.codec.decode_create_event r.body)) [
    | inl bad ↦ rw bad p
    | inr (req, good) ↦ rw good (
        valid-keeps P api.codec (create_event_fields req) _ w p (
          answer-keeps P (Event.create api.events (actor_of identity) (create_input req)) _ w
            (keeps (create_event (create_input req)) w p)))
  ]

  get_event-keeps : (r : Api.Request) (w : W) → P w → P (EventHandler.get_event api r w).1
  unfolding EventHandler.get_event perform
  get_event-keeps r w p = elim (Bool-cases (api.codec.is_uuid r.url_id)) [
    | inr bad ↦ rw bad p
    | inl good ↦
        rw good
          (answer-keeps P (Event.get api.events r.url_id) _ w (keeps (get_event r.url_id) w p))
  ]

  list_events-keeps : (w : W) → P w → P (EventHandler.list_events api w).1
  unfolding EventHandler.list_events perform
  list_events-keeps w p = answer-keeps P (Event.list api.events) _ w (keeps list_events w p)

  update_event-keeps : (r : Api.Request) (w : W) → P w → P (EventHandler.update_event api ctx r w).1
  unfolding EventHandler.update_event perform
  update_event-keeps r w p = elim (Option-cases (api.codec.decode_update_event r.body)) [
    | inl bad ↦ rw bad p
    | inr (req, good) ↦ elim (Bool-cases (api.codec.is_uuid r.url_id)) [
      | inr no_id ↦ rw (good, no_id) (valid-keeps P api.codec (update_event_fields req) _ w p p)
      | inl an_id ↦
          rw (good, an_id)
            (valid-keeps P api.codec (update_event_fields req) _ w p (
              answer-keeps P
                (Event.update api.events (actor_of identity) r.url_id (update_input req)) _ w
                (keeps (update_event r.url_id (update_input req)) w p)))
    ]
  ]

  delete_event-keeps : (r : Api.Request) (w : W) → P w → P (EventHandler.delete_event api ctx r w).1
  unfolding EventHandler.delete_event perform
  delete_event-keeps r w p = elim (Bool-cases (api.codec.is_uuid r.url_id)) [
    | inr bad ↦ rw bad p
    | inl good ↦ rw good (
        answer-keeps P (Event.delete api.events (actor_of identity) r.url_id) _ w
          (keeps (delete_event r.url_id) w p))
  ]

-- The routes under /events.
abbrev pub of_events : Route → Bool
of_events post_events = true
of_events get_events = true
of_events get_event_by_id = true
of_events put_event = true
of_events delete_event_by_id = true
of_events _ = false

module _ {W : Type 0} (api : Api W) (P : W → Type 0) (Q : String → Type 0)
    (used : (raw : String) (w : W) → P w → P (authenticate_agent api.auth raw w).1)
    (keeps : (identity : AgentIdentity)
      → Q identity.user.id
      → (request : Request) (w : W) → P w
      → P (perform api.events (actor_of identity) request w)) where
  -- A key that the request carries is that of an agent of a user who is as asked.
  abbrev pub KeyBy : Api.Request → W → Type 0
  KeyBy r w =
      (raw : String) (c : AgentCredentials)
      → bearer_token r.authorization ≡ some raw
      → (authenticate_agent api.auth raw w).0 ≡ ok c
      → Q c.user.id

  guard-keeps :
      (next : Context → Api.Request → App W (Response Payload)) (r : Api.Request) (w : W)
      → ((identity : AgentIdentity) (w : W)
          → Q identity.user.id
          → P w
          → P (next (with_agent empty_context identity) r w).1)
      → KeyBy r w
      → P w
      → P (require_agent api next empty_context r w).1
  unfolding require_agent
  guard-keeps next r w step by p = elim (Option-cases (bearer_token r.authorization)) [
    | inl missing ↦ rw (missing, require_agent) p
    | inr (raw, given) ↦ elim (run-cases (authenticate_agent api.auth raw w)) [
      | inr (e, w', h) ↦ rw (given, require_agent, h) (rw h at (used raw w p))
      | inl (c, w', h) ↦
          let identity : AgentIdentity = record { agent = c.agent; user = c.user } in
          rw (given, require_agent, h)
            (step identity w' (by raw c given (ap (λ (p : Result AgentCredentials × W). p.0) h))
              (rw h at (used raw w p)))
    ]
  ]

  pub event_route-keeps :
      (rt : Route) (r : Api.Request) (w : W)
      → of_events rt ≡ true
      → KeyBy r w
      → P w
      → P (route api rt r w).1
  unfolding route
  event_route-keeps post_events r w h =
      guard-keeps (EventHandler.create_event api) r w
        λ identity w by. create_event-keeps api identity P (keeps identity by) r w
  event_route-keeps get_events r w h =
      guard-keeps (λ ctx r. EventHandler.list_events api) r w
        λ identity w by. list_events-keeps api identity P (keeps identity by) w
  event_route-keeps get_event_by_id r w h =
      guard-keeps (λ ctx r. EventHandler.get_event api r) r w
        λ identity w by. get_event-keeps api identity P (keeps identity by) r w
  event_route-keeps put_event r w h =
      guard-keeps (EventHandler.update_event api) r w
        λ identity w by. update_event-keeps api identity P (keeps identity by) r w
  event_route-keeps delete_event_by_id r w h =
      guard-keeps (EventHandler.delete_event api) r w
        λ identity w by. delete_event-keeps api identity P (keeps identity by) r w
  event_route-keeps post_exchange r w h = cc
  event_route-keeps delete_session r w h = cc
  event_route-keeps post_agents r w h = cc
  event_route-keeps get_agents r w h = cc
  event_route-keeps delete_agent r w h = cc
  event_route-keeps get_whoami r w h = cc

module _ {W : Type 0} (api : Api W) (m : EventModel) (at : W → Events)
    (laws : EventRepositoryLaws m at api.events.repo)
    (frame : KeepsView at api.events.limiter api.events.logger api.events.runtime)
    (auth_quiet : (raw : String) (w : W) → at (authenticate_agent api.auth raw w).1 ≡ at w)
    (log_quiet : (l : Level) (msg : String) (fs : List Field) (w : W)
      → at (api.log.log l msg fs w) ≡ at w)
    (j : String) (kept : Event) where
  -- The event is stored, as it was.
  abbrev Stored : W → Type 0
  Stored w = at w j ≡ some kept

  -- The request carries no key of an agent of the owner.
  abbrev pub Stranger : Api.Request → W → Type 0
  Stranger r w =
      (raw : String) (c : AgentCredentials)
      → bearer_token r.authorization ≡ some raw
      → (authenticate_agent api.auth raw w).0 ≡ ok c
      → kept.user_id ≢ c.user.id

  route-Stored :
      (rt : Route) (r : Api.Request) (w : W)
      → of_events rt ≡ true
      → Stranger r w
      → Stored w
      → Stored (route api rt r w).1
  route-Stored =
      event_route-keeps api Stored (λ u. kept.user_id ≢ u) (λ raw w p. rw (auth_quiet raw w) p)
        λ identity other request w p.
          perform-keeps api.events m at laws frame (actor_of identity) request w j kept other p

  -- Over any ports that keep their laws, if neither the use of an agent's key nor the log
  -- changes events, then a request to a route of events that does not carry the key of an
  -- agent of the event's owner leaves the event stored as it was.
  pub serve-keeps_others :
      (rt : Route) (r : Api.Request) (w : W)
      → of_events rt ≡ true
      → Stranger r w
      → at w j ≡ some kept
      → at (serve api rt r w).1 j ≡ some kept
  unfolding serve
  serve-keeps_others rt r w is_event stranger p =
      respond-keeps Stored api.log (λ l msg fs w p. rw log_quiet p) (route api rt r w)
        (route-Stored rt r w is_event stranger p)
