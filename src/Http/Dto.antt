-- ===== src/Http/Dto.antt =====
-- server/internal/transport/http/dto: the bodies of requests and responses, before JSON.
use agent_events.Prelude.{String, Option, none, some, List, [], ◌∷◌, map, if◌then◌else◌}
use agent_events.Text.{trim_space}
use agent_events.Time.{Time, is_zero}
use agent_events.Domain.{Agent, Event, User}
use agent_events.Usecase.Event.{CreateEventInput, UpdateEventInput}
use agent_events.Usecase.Auth.{ExchangeInput}

-- A field of a request with its `validate` tags, each with its parameter.
pub record TaggedField : Type 0 where
  pub field : String
  pub tags : List (String × String)
  pub value : String

pub record CreateEventRequest : Type 0 where
  pub name : String
  pub description : String

-- the tags of the names and descriptions of events and agents
abbrev name_field : String → TaggedField
name_field name = record {
  field = "Name";
  tags = ("required", "") ∷ ("max", "128") ∷ [];
  value = name;
}

abbrev description_field : String → TaggedField
description_field description = record {
  field = "Description";
  tags = ("max", "1024") ∷ [];
  value = description;
}

abbrev pub create_event_fields : CreateEventRequest → List TaggedField
create_event_fields r = name_field r.name ∷ description_field r.description ∷ []

pub record UpdateEventRequest : Type 0 where
  pub name : String
  pub description : String

abbrev pub update_event_fields : UpdateEventRequest → List TaggedField
update_event_fields r = name_field r.name ∷ description_field r.description ∷ []

pub record EventResponse : Type 0 where
  pub id : String
  pub user_id : String
  pub name : String
  pub description : String
  pub created_at : Time
  pub updated_at : Time

abbrev pub new_event_response : Event → EventResponse
new_event_response event = record {
  id = event.id;
  user_id = event.user_id;
  name = event.name;
  description = event.description;
  created_at = event.created_at;
  updated_at = event.updated_at;
}

abbrev pub new_event_responses : List Event → List EventResponse
new_event_responses events = map new_event_response events

-- `CreateEventRequest.ToInput`
abbrev pub create_input : CreateEventRequest → CreateEventInput
create_input r = record { name = trim_space r.name; description = trim_space r.description }

-- `UpdateEventRequest.ToInput`
abbrev pub update_input : UpdateEventRequest → UpdateEventInput
update_input r = record { name = trim_space r.name; description = trim_space r.description }

pub record CreateAgentRequest : Type 0 where
  pub name : String

abbrev pub create_agent_fields : CreateAgentRequest → List TaggedField
create_agent_fields r = name_field r.name ∷ []

pub record AgentResponse : Type 0 where
  pub id : String
  pub name : String
  pub created_at : Time
  pub revoked_at : Option Time
  pub last_used_at : Option Time

pub record CreateAgentResponse : Type 0 where
  pub agent : AgentResponse
  pub key : String

-- `timePtr`
abbrev pub time_ptr : Time → Option Time
time_ptr t = if is_zero t then none else some t

abbrev pub new_agent_response : Agent → AgentResponse
new_agent_response agent = record {
  id = agent.id;
  name = agent.name;
  created_at = agent.created_at;
  revoked_at = time_ptr agent.revoked_at;
  last_used_at = time_ptr agent.last_used_at;
}

abbrev pub new_agent_responses : List Agent → List AgentResponse
new_agent_responses agents = map new_agent_response agents

pub record ExchangeRequest : Type 0 where
  pub provider : String
  pub id_token : String

abbrev pub exchange_fields : ExchangeRequest → List TaggedField
exchange_fields r =
    record {
      field = "Provider";
      tags = ("required", "") ∷ ("oneof", "google apple microsoft") ∷ [];
      value = r.provider;
    }
    ∷ record { field = "IDToken"; tags = ("required", "") ∷ []; value = r.id_token }
    ∷ []

pub record UserResponse : Type 0 where
  pub id : String
  pub provider : String
  pub email : String
  pub created_at : Time

abbrev pub new_user_response : User → UserResponse
new_user_response user = record {
  id = user.id;
  provider = user.provider;
  email = user.email;
  created_at = user.created_at;
}

pub record ExchangeResponse : Type 0 where
  pub token : String
  pub expires_at : Time
  pub user : UserResponse

pub record WhoamiResponse : Type 0 where
  pub agent : AgentResponse
  pub user : UserResponse

-- `ExchangeRequest.ToInput`
abbrev pub exchange_input : ExchangeRequest → (client_ip : String) → ExchangeInput
exchange_input r client_ip = record {
  provider = trim_space r.provider;
  id_token = trim_space r.id_token;
  client_ip = client_ip;
}
