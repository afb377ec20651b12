-- ===== src/Postgres/Schema.antt =====
-- The tables of server/internal/adapters/postgres/migrations, the row types of gen/models.go, and
-- the conversions between rows and the values of the domain.
use agent_events.Prelude.{String, Bool, true, false, ◌≡◌, Option, some, List, [], if◌then◌else◌}
use agent_events.Time.{Time, zero_time, is_zero}
use agent_events.Domain.{Agent, Event, User, UserToken}

-- pgtype.Timestamptz; `valid` is false for NULL
pub record Timestamptz : Type 0 where
  pub time : Time
  pub valid : Bool

pub record EventRow : Type 0 where
  pub id : String
  pub user_id : String
  pub name : String
  pub description : String
  pub created_at : Timestamptz
  pub updated_at : Timestamptz

pub record AgentRow : Type 0 where
  pub id : String
  pub user_id : String
  pub name : String
  pub key_hash : String
  pub created_at : Timestamptz
  pub revoked_at : Timestamptz
  pub last_used_at : Timestamptz

pub record UserRow : Type 0 where
  pub id : String
  pub provider : String
  pub subject : String
  pub email : String
  pub created_at : Timestamptz

pub record UserTokenRow : Type 0 where
  pub token_hash : String
  pub user_id : String
  pub expires_at : Timestamptz
  pub created_at : Timestamptz

-- The contents of the database.
pub record Db : Type 0 where
  pub users : List UserRow
  pub user_tokens : List UserTokenRow
  pub agents : List AgentRow
  pub events : List EventRow

abbrev pub empty_db : Db
empty_db = record { users = []; user_tokens = []; agents = []; events = [] }

-- What the server relies on of PostgreSQL and of pgx: the canonical text of a UUID (`none` where
-- the text is no UUID) and the instant that a TIMESTAMPTZ keeps of a time, which has microseconds.
pub record Engine : Type 0 where
  pub uuid : String → Option String
  pub uuid_canonical : (s u : String) → uuid s ≡ some u → uuid u ≡ some u
  pub micros : Time → Time
  pub micros_micros : (t : Time) → micros (micros t) ≡ micros t

-- `timestamptz` of db.go
unfoldable pub timestamptz : Time → Timestamptz
timestamptz t =
    if is_zero t
    then record { time = zero_time; valid = false }
    else record { time = t; valid = true }

-- `timeFromTimestamptz` of db.go
unfoldable pub time_from_timestamptz : Timestamptz → Time
time_from_timestamptz t = if t.valid then t.time else zero_time

unfoldable pub event_from_row : EventRow → Event
unfolding time_from_timestamptz
event_from_row row = record {
  id = row.id;
  user_id = row.user_id;
  name = row.name;
  description = row.description;
  created_at = time_from_timestamptz row.created_at;
  updated_at = time_from_timestamptz row.updated_at;
}

unfoldable pub agent_from_row : AgentRow → Agent
unfolding time_from_timestamptz
agent_from_row row = record {
  id = row.id;
  user_id = row.user_id;
  name = row.name;
  key_hash = row.key_hash;
  created_at = time_from_timestamptz row.created_at;
  revoked_at = time_from_timestamptz row.revoked_at;
  last_used_at = time_from_timestamptz row.last_used_at;
}

unfoldable pub user_from_row : UserRow → User
unfolding time_from_timestamptz
user_from_row row = record {
  id = row.id;
  provider = row.provider;
  subject = row.subject;
  email = row.email;
  created_at = time_from_timestamptz row.created_at;
}

unfoldable pub user_token_from_row : UserTokenRow → UserToken
unfolding time_from_timestamptz
user_token_from_row row = record {
  token_hash = row.token_hash;
  user_id = row.user_id;
  expires_at = time_from_timestamptz row.expires_at;
  created_at = time_from_timestamptz row.created_at;
}
