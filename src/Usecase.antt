-- ===== src/Usecase.antt =====
-- server/internal/core/usecase.
pub mod Event
pub mod Auth
use agent_events.Prelude.{String}

-- type Actor struct
pub record Actor : Type 0 where
  pub user_id : String
  pub agent_id : String
