-- ===== src/Tests/Requests.antt =====
-- Requests to the routes of events.
use Prim.Native.String.{String}
use text.Mathlib.TextEquality.{eq_iff}
use mathlib.Core.Option.{some-injective}
use agent_events.Prelude.{
  ◌≡◌, ◌≢◌, refl, sym, ap, ◌∙◌, true, false, some, none, [], ◌∷◌, arith, not, ◌==◌, List, ℕ,
}
use agent_events.Prelude.Int.{pos}
use agent_events.Time.{hour}
use agent_events.Text.{trim_space, cut_prefix}
use agent_events.Exec.{ok}
use agent_events.Postgres.Schema.{AgentRow, event_from_row}
use agent_events.Postgres.Table.{lookup}
use agent_events.Postgres.Users.{get_user}
use agent_events.Postgres.Agents.{get_by_key_hash}
use agent_events.Postgres.Events.View.{events_in, event_model, events_at}
use agent_events.Postgres.Events.Laws.{event_repository-EventRepositoryLaws}
use agent_events.World.{World, journal_logger}
use agent_events.Usecase.Auth.{AgentCredentials, AuthConfig}
use agent_events.Usecase.Auth.Agents.{authenticate_agent}
use agent_events.Http.Bearer.{bearer_token}
use agent_events.Http.ClientIp.{Net}
use agent_events.Http.EventHandler
use agent_events.Usecase.Event
use agent_events.Postgres.Events
use agent_events.Http.Response.{status_code}
use agent_events.Http.Api.{passed, Api, Codec, Request}
use agent_events.Http.Router.{serve, delete_event_by_id}
use agent_events.Http.Router.Guarded.{serve-keeps_others}
use agent_events.Server.{event_service, auth_service, db-KeepsView}
use agent_events.Server.Events.{authenticate_agent-events}
use agent_events.Port.{IdentityVerifier}
use agent_events.Tests.Fixtures.{engine, world, limits, noon, at_noon, launch}

abbrev pub provider : IdentityVerifier World
provider = record {
  verify = λ provider id_token w.
      (ok (record { provider = provider; subject = id_token; email = "" }), w);
}

abbrev pub config : AuthConfig
config = record { user_token_ttl = hour; max_agents_per_user = pos 2 }

abbrev pub digest : String → List ℕ
digest raw = 1 ∷ []

abbrev pub net : Net
net = record {
  Ip = String;
  IpNet = String;
  parse_ip = λ s. some s;
  parse_cidr = λ s. some s;
  is_v4 = λ ip. true;
  host_network = λ ip bits. ip;
  split_host_port = λ s. some s;
  contains = λ network ip. network == ip;
}

-- No body is understood, and every text but the empty one is a UUID.
abbrev pub codec : Codec
codec = record {
  decode_create_event = λ body. none;
  decode_update_event = λ body. none;
  decode_create_agent = λ body. none;
  decode_exchange = λ body. none;
  validate_struct = λ fields. passed;
  is_uuid = λ id. not (id == "");
}

abbrev pub api : Api World
api = record {
  events = event_service engine limits;
  auth = auth_service engine limits config provider digest;
  log = journal_logger;
  codec = codec;
  net = net;
  trusted = [];
}

-- Bob has an agent.
abbrev bob_agent : AgentRow
bob_agent = record {
  id = "b1";
  user_id = "bob";
  name = "b1";
  key_hash = "01";
  created_at = at_noon;
  revoked_at = record { time = pos 0; valid = false };
  last_used_at = at_noon;
}

abbrev pub start : World
start = record world { db = record world.db { agents = bob_agent ∷ [] } }

abbrev pub bob_deletes : Request
bob_deletes = record {
  authorization = "Bearer aea_b";
  forwarded_for = "";
  remote_addr = "6.6.6.6";
  url_id = "e1";
  body = "";
}

abbrev bob_credentials : AgentCredentials
bob_credentials = record {
  agent = record {
    id = "b1";
    user_id = "bob";
    name = "b1";
    key_hash = "01";
    created_at = noon;
    revoked_at = pos 0;
    last_used_at = noon;
  };
  user = record { id = "bob"; provider = "google"; subject = "bob"; email = ""; created_at = noon };
}

pub key_is_read : bearer_token "Bearer aea_b" ≡ some "aea_b"
unfolding bearer_token trim_space cut_prefix
key_is_read = refl

bob_is_known : (authenticate_agent api.auth "aea_b" start).0 ≡ ok bob_credentials
unfolding authenticate_agent get_by_key_hash get_user
bob_is_known = refl

bob_is_a_stranger :
    (raw : String) (c : AgentCredentials)
    → bearer_token bob_deletes.authorization ≡ some raw
    → (authenticate_agent api.auth raw start).0 ≡ ok c
    → launch.user_id ≢ c.user.id
bob_is_a_stranger raw c given known owner =
    let read : "aea_b" ≡ raw = some-injective _ _ (sym key_is_read ∙ given) in
    let same : ok bob_credentials ≡ ok c =
      sym bob_is_known ∙ ap (λ k. (authenticate_agent api.auth k start).0) read ∙ known in
    let bob : "bob" ≡ c.user.id = ground (arith, same) in
    ground (arith, bob, owner, eq_iff "ann" "bob")

launch_is_stored : events_at engine start "e1" ≡ some launch
unfolding event_from_row lookup
launch_is_stored = refl

serve-keeps_others_example :
    events_at engine (serve api delete_event_by_id bob_deletes start).1 "e1" ≡ some launch
serve-keeps_others_example =
    serve-keeps_others api (event_model engine) (events_at engine)
      (event_repository-EventRepositoryLaws engine)
      (db-KeepsView (λ db. events_in engine db) limits)
      (λ raw w.
        ap (λ rows i. events_in engine (record w.db { events = rows }) i)
          (authenticate_agent-events engine limits config provider digest raw w))
      (λ l msg fs w. refl) "e1" launch delete_event_by_id bob_deletes start refl bob_is_a_stranger
      launch_is_stored

-- The response says so.
bob_is_denied : (serve api delete_event_by_id bob_deletes start).0.status ≡ 403
unfolding serve EventHandler.delete_event Event.delete Events.get bearer_token trim_space cut_prefix
    authenticate_agent get_by_key_hash get_user status_code
bob_is_denied = refl
