-- ===== src/Usecase/Auth/History.antt =====
-- server/internal/core/usecase/auth.go: whole histories of calls.
pub mod Keeps
pub mod Limit
pub mod Revoked
pub mod Spares
use agent_events.Prelude.{String, List, [], ◌∷◌}
use agent_events.Usecase.Auth.{AuthService, ExchangeInput}
use agent_events.Usecase.Auth.Users.{exchange, authenticate_user, revoke_user_token}
use agent_events.Usecase.Auth.Agents.{authenticate_agent, create_agent, list_agents, revoke_agent}

-- A call of the account service.
pub data Request : Type 0 where
  sign_in : ExchangeInput → Request
  use_token : (raw : String) → Request
  sign_out : (token_hash : String) → Request
  use_key : (raw : String) → Request
  add_agent : (user_id name : String) → Request
  show_agents : (user_id : String) → Request
  bar_agent : (user_id agent_id : String) → Request

module _ {W : Type 0} (s : AuthService W) where
  -- The state after one call, whatever its result.
  unfoldable pub perform : Request → W → W
  perform (sign_in input) w = (exchange s input w).1
  perform (use_token raw) w = (authenticate_user s raw w).1
  perform (sign_out token_hash) w = (revoke_user_token s token_hash w).1
  perform (use_key raw) w = (authenticate_agent s raw w).1
  perform (add_agent user_id name) w = (create_agent s user_id name w).1
  perform (show_agents user_id) w = (list_agents s user_id w).1
  perform (bar_agent user_id agent_id) w = (revoke_agent s user_id agent_id w).1

  -- The state after the calls of a history, in their order.
  unfoldable pub replay : List Request → W → W
  unfolding perform
  replay [] w = w
  replay (request ∷ history) w = replay history (perform request w)
