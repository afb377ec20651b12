-- ===== src/Port.antt =====
-- server/internal/core/port: the interfaces that the use cases call. An implementation is a record
-- of functions over the state `W` of the whole program; `App W A` returns a value or an error.
pub mod Laws
pub mod Accounts
use agent_events.Prelude.{ℕ, String, Bool, List}
use agent_events.Prelude.Int.{ℤ}
use agent_events.Time.{Time, Duration}
use agent_events.Apperr.{Error}
use agent_events.Exec.{App, modify}
use agent_events.Domain.{Agent, Event, User, UserToken, Identity}

-- The dynamic types that a field of a log entry holds: `any`.
pub data Value : Type 0 where
  text : String → Value
  number : ℤ → Value
  number_64 : ℤ → Value
  boolean : Bool → Value
  duration : Duration → Value
  error : Error → Value
  nothing : Value

-- type Field struct
pub record Field : Type 0 where
  pub key : String
  pub value : Value

abbrev pub str : String → String → Field
str key value = record { key = key; value = text value }

abbrev pub int : String → ℤ → Field
int key value = record { key = key; value = number value }

abbrev pub duration_field : String → Duration → Field
duration_field key value = record { key = key; value = duration value }

abbrev pub err_field : Error → Field
err_field e = record { key = "error"; value = error e }

-- The method of `Logger` that is called.
pub data Level : Type 0 where
  debug_level info_level warn_level error_level : Level

-- type Logger interface, its four methods told apart by their level
pub record Logger (W : Type 0) : Type 0 where
  pub log : Level → String → List Field → W → W

module _ {W : Type 0} where
  abbrev pub debug : Logger W → String → List Field → App W (Unit {0})
  debug logger msg fields = modify (logger.log debug_level msg fields)

  abbrev pub info : Logger W → String → List Field → App W (Unit {0})
  info logger msg fields = modify (logger.log info_level msg fields)

  abbrev pub warn : Logger W → String → List Field → App W (Unit {0})
  warn logger msg fields = modify (logger.log warn_level msg fields)

  abbrev pub error_log : Logger W → String → List Field → App W (Unit {0})
  error_log logger msg fields = modify (logger.log error_level msg fields)

-- What the use cases take from the runtime: `time.Now().UTC()`, `uuid.NewString()`, and 32 bytes of
-- `rand.Read`, which may fail.
pub record Runtime (W : Type 0) : Type 0 where
  pub now : W → Time × W
  pub new_uuid : W → String × W
  pub random_bytes : App W (List ℕ)

-- type RateLimiter interface
pub record RateLimiter (W : Type 0) : Type 0 where
  pub allow : (key action : String) → App W Bool

-- type IdentityVerifier interface
pub record IdentityVerifier (W : Type 0) : Type 0 where
  pub verify : (provider id_token : String) → App W Identity

-- type EventRepository interface
pub record EventRepository (W : Type 0) : Type 0 where
  pub save : Event → App W Event
  pub get : String → App W Event
  pub list : App W (List Event)
  pub update : Event → App W Event
  pub delete : String → App W (Unit {0})

-- type UserRepository interface
pub record UserRepository (W : Type 0) : Type 0 where
  pub upsert_by_identity : (provider subject email : String) → App W User
  pub get : String → App W User

-- type UserTokenRepository interface
pub record UserTokenRepository (W : Type 0) : Type 0 where
  pub create : UserToken → App W (Unit {0})
  pub get_by_hash : String → App W UserToken
  pub delete_by_hash : String → App W (Unit {0})
  pub delete_expired : App W (Unit {0})

-- type AgentRepository interface
pub record AgentRepository (W : Type 0) : Type 0 where
  pub create_if_under_limit : Agent → (max : ℤ) → App W Bool
  pub get : String → App W Agent
  pub get_by_key_hash : String → App W Agent
  pub list_by_user : String → App W (List Agent)
  pub revoke : String → Time → App W (Unit {0})
  pub touch_last_used : String → Time → App W (Unit {0})
