-- ===== src/Http/Api.antt =====
-- What the handlers of server/internal/transport/http share: the request, the identity in its
-- context (authctx), the decoding and the validation of its body, and the response. A handler
-- fails with the error that it gives to `WriteError`.
use agent_events.Prelude.{String, Bool, Option, none, some, List, map, ◌==◌, if◌then◌else◌}
use agent_events.Apperr.{invalid, unauthorized, with_details}
use agent_events.Exec.{App, Result, ok, err, pure, fail}
use agent_events.Text.{◌^^◌}
use agent_events.Domain.{Agent, User}
use agent_events.Port.{Logger}
use agent_events.Usecase.Event.{EventService}
use agent_events.Usecase.Auth.{AuthService}
use agent_events.Http.Response.{ErrorBody, Response, write_error}
use agent_events.Http.JsonName.{json_name}
use agent_events.Http.ClientIp.{Net}
use agent_events.Http.Dto.{
  TaggedField, CreateEventRequest, UpdateEventRequest, CreateAgentRequest, ExchangeRequest,
  EventResponse, AgentResponse, CreateAgentResponse, ExchangeResponse, WhoamiResponse,
}

-- type AgentIdentity struct
pub record AgentIdentity : Type 0 where
  pub agent : Agent
  pub user : User

-- type UserIdentity struct
pub record UserIdentity : Type 0 where
  pub user : User
  pub token_hash : String

-- The values that the middleware puts into the context of a request.
pub record Context : Type 0 where
  pub agent : Option AgentIdentity
  pub user : Option UserIdentity

abbrev pub empty_context : Context
empty_context = record { agent = none; user = none }

abbrev pub with_agent : Context → AgentIdentity → Context
with_agent ctx identity = record ctx { agent = some identity }

abbrev pub with_user : Context → UserIdentity → Context
with_user ctx identity = record ctx { user = some identity }

-- What the handlers read of a request: the headers Authorization and X-Forwarded-For, the peer's
-- address, the URL parameter "id", and the body.
pub record Request : Type 0 where
  pub authorization : String
  pub forwarded_for : String
  pub remote_addr : String
  pub url_id : String
  pub body : String

-- validator.FieldError
pub record FieldError : Type 0 where
  pub field : String
  pub tag : String
  pub param : String

-- The answer of the method Struct of validator.Validate: nil, ValidationErrors, or the text of
-- another error.
pub data Verdict : Type 0 where
  passed : Verdict
  broken : List FieldError → Verdict
  unchecked : String → Verdict

-- The packages encoding/json, validator and google/uuid: the value that a body decodes to, the
-- answer on the fields of a struct with their tags, and whether a text is a UUID.
pub record Codec : Type 0 where
  pub decode_create_event : String → Option CreateEventRequest
  pub decode_update_event : String → Option UpdateEventRequest
  pub decode_create_agent : String → Option CreateAgentRequest
  pub decode_exchange : String → Option ExchangeRequest
  pub validate_struct : List TaggedField → Verdict
  pub is_uuid : String → Bool

-- The body of a response.
pub data Payload : Type 0 where
  error_payload : ErrorBody → Payload
  event_payload : EventResponse → Payload
  events_payload : List EventResponse → Payload
  agents_payload : List AgentResponse → Payload
  new_agent_payload : CreateAgentResponse → Payload
  exchange_payload : ExchangeResponse → Payload
  whoami_payload : WhoamiResponse → Payload
  health_payload : (status : String) → Payload
  no_content : Payload

-- The services behind the routes, and what the handlers were made with.
pub record Api (W : Type 0) : Type 1 where
  pub events : EventService W
  pub auth : AuthService W
  pub log : Logger W
  pub codec : Codec
  pub net : Net
  pub trusted : List net.IpNet

-- `messageFor`
unfoldable pub message_for : FieldError → String
message_for field =
    if field.tag == "required"
    then "is required"
    else if field.tag == "max"
    then "must be at most " ^^ field.param ^^ " characters"
    else if field.tag == "min"
    then "must be at least " ^^ field.param ^^ " characters"
    else if field.tag == "oneof"
    then "must be one of " ^^ field.param
    else "is invalid (" ^^ field.tag ^^ ")"

module _ {W : Type 0} where
  -- `DecodeJSON`
  unfoldable pub decoded : {A : Type 0} → Option A → App W A
  decoded (some a) = pure a
  decoded none = fail (invalid "request body must be valid JSON")

  -- `if err := h.validate.Struct(req); err != nil { … }` with `validationError`
  unfoldable pub reported : Verdict → App W (Unit {0})
  unfolding message_for json_name
  reported passed = pure tt
  reported (unchecked text) = fail (invalid text)
  reported (broken errors) = fail (
      with_details (map (λ f. (json_name f.field, message_for f)) errors)
        (invalid "request validation failed"))

  -- `h.validate.Struct` with `validationError`
  unfoldable pub validated : Codec → List TaggedField → App W (Unit {0})
  unfolding reported
  validated codec fields = reported (codec.validate_struct fields)

  -- `authctx.AgentFrom` and `authctx.UserFrom`, with the response where there is no identity
  unfoldable pub agent_from : Context → App W AgentIdentity
  agent_from ctx = elim ctx.agent [
    | some identity ↦ pure identity
    | none ↦ fail (unauthorized "authentication required")
  ]

  unfoldable pub user_from : Context → App W UserIdentity
  user_from ctx = elim ctx.user [
    | some identity ↦ pure identity
    | none ↦ fail (unauthorized "authentication required")
  ]

  -- The response of a handler that has finished.
  unfoldable pub respond : Logger W → Result (Response Payload) × W → Response Payload × W
  unfolding write_error
  respond log (ok response, w) = (response, w)
  respond log (err e, w) =
      let (response, w') = write_error log e w in
      (record { status = response.status; body = error_payload response.body }, w')
