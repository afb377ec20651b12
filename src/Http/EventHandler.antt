-- ===== src/Http/EventHandler.antt =====
-- server/internal/transport/http/handler/event.go
use agent_events.Prelude.{String, not}
use agent_events.Apperr.{not_found}
use agent_events.Exec.{App, pure, fail, when, ◌>>=◌, ◌>>◌}
use agent_events.Usecase.{Actor}
use agent_events.Usecase.Event
use agent_events.Http.Response.{Response}
use agent_events.Http.Dto.{
  create_event_fields, update_event_fields, create_input, update_input, new_event_response,
  new_event_responses,
}
use agent_events.Http.Api.{
  AgentIdentity, Context, Request, Api, Payload, event_payload, events_payload, no_content, decoded,
  validated, agent_from,
}

abbrev pub actor_of : AgentIdentity → Actor
actor_of identity = record { user_id = identity.user.id; agent_id = identity.agent.id }

module _ {W : Type 0} (api : Api W) where
  open api use {events, codec}

  -- `eventURLID`
  unfoldable pub event_url_id : Request → App W String
  event_url_id r = do
    when (not (codec.is_uuid r.url_id)) (fail (not_found "event not found"))
    pure r.url_id

  -- `EventHandler.create`
  unfoldable pub create_event : Context → Request → App W (Response Payload)
  unfolding decoded validated agent_from
  create_event ctx r = do
    req ← decoded (codec.decode_create_event r.body)
    validated codec (create_event_fields req)
    actor ← agent_from ctx
    event ← Event.create events (actor_of actor) (create_input req)
    pure (record { status = 201; body = event_payload (new_event_response event) })

  -- `EventHandler.get`
  unfoldable pub get_event : Request → App W (Response Payload)
  unfolding event_url_id
  get_event r = do
    id ← event_url_id r
    event ← Event.get events id
    pure (record { status = 200; body = event_payload (new_event_response event) })

  -- `EventHandler.list`
  unfoldable pub list_events : App W (Response Payload)
  list_events = do
    found ← Event.list events
    pure (record { status = 200; body = events_payload (new_event_responses found) })

  -- `EventHandler.update`
  unfoldable pub update_event : Context → Request → App W (Response Payload)
  unfolding decoded validated agent_from event_url_id
  update_event ctx r = do
    req ← decoded (codec.decode_update_event r.body)
    validated codec (update_event_fields req)
    actor ← agent_from ctx
    id ← event_url_id r
    event ← Event.update events (actor_of actor) id (update_input req)
    pure (record { status = 200; body = event_payload (new_event_response event) })

  -- `EventHandler.delete`
  unfoldable pub delete_event : Context → Request → App W (Response Payload)
  unfolding agent_from event_url_id
  delete_event ctx r = do
    actor ← agent_from ctx
    id ← event_url_id r
    Event.delete events (actor_of actor) id
    pure (record { status = 204; body = no_content })
