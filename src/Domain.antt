-- ===== src/Domain.antt =====
-- server/internal/core/domain: agent.go, event.go, user.go.
pub mod Laws
use agent_events.Prelude.{
  String, Bool, not, Option, none, some, List, [], ◌∷◌, any, ◌==◌, if◌then◌else◌,
}
use agent_events.Text.{trim_space}
use agent_events.Time.{Time, is_zero, before}
use agent_events.Apperr.{Sentinel, agent_name_required, name_required}

-- type Agent struct
pub record Agent : Type 0 where
  pub id : String
  pub user_id : String
  pub name : String
  pub key_hash : String
  pub created_at : Time
  pub revoked_at : Time
  pub last_used_at : Time

-- `Agent.Revoked`
abbrev pub revoked : Agent → Bool
revoked a = not (is_zero a.revoked_at)

-- `Agent.Validate`; `none` is the nil error
unfoldable pub validate_agent : Agent → Option Sentinel
validate_agent a = if trim_space a.name == "" then some agent_name_required else none

-- type Event struct
pub record Event : Type 0 where
  pub id : String
  pub user_id : String
  pub name : String
  pub description : String
  pub created_at : Time
  pub updated_at : Time

-- `Event.Validate`; `none` is the nil error
unfoldable pub validate_event : Event → Option Sentinel
validate_event e = if trim_space e.name == "" then some name_required else none

abbrev pub provider_google : String
provider_google = "google"

abbrev pub provider_apple : String
provider_apple = "apple"

abbrev pub provider_microsoft : String
provider_microsoft = "microsoft"

abbrev pub providers : List String
providers = provider_google ∷ provider_apple ∷ provider_microsoft ∷ []

-- `ValidProvider`
unfoldable pub valid_provider : String → Bool
unfolding any
valid_provider provider = any (λ p. p == provider) providers

-- type User struct
pub record User : Type 0 where
  pub id : String
  pub provider : String
  pub subject : String
  pub email : String
  pub created_at : Time

-- type UserToken struct
pub record UserToken : Type 0 where
  pub token_hash : String
  pub user_id : String
  pub expires_at : Time
  pub created_at : Time

-- `UserToken.Expired`
unfoldable pub expired : UserToken → Time → Bool
expired t at = not (before at t.expires_at)

-- type Identity struct
pub record Identity : Type 0 where
  pub provider : String
  pub subject : String
  pub email : String
