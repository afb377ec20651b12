-- ===== src/Server/Steps.antt =====
-- server/cmd/api/main.go: the running server, as a sequence of steps. A step is a request, or the
-- call in the body of the loop of `cleanupExpiredTokens`; the two come in any order.
pub mod Keeps
pub mod Agents
pub mod Stored
pub mod Users
use agent_events.Prelude.{String, List, [], ◌∷◌, Bool}
use agent_events.Port.{UserTokenRepository}
use agent_events.World.{World, world_runtime}
use agent_events.Http.Api.{Api, Request}
use agent_events.Http.Controller.{Endpoint, RequestInfo, handle}
use agent_events.Server.Cleanup.{sweep}

pub data Step : Type 0 where
  request : Endpoint → RequestInfo → Request → Step
  clean_up : (cancelled : Bool) → Step

module _ (api : Api World) (tokens : UserTokenRepository World) where
  -- The state after a step, whatever its result.
  unfoldable pub step : Step → World → World
  unfolding handle sweep
  step (request e info r) w = (handle api world_runtime e info r w).1
  step (clean_up cancelled) w = (sweep tokens api.log cancelled w).1

  -- The state after the steps, in their order.
  unfoldable pub run : List Step → World → World
  unfolding step
  run [] w = w
  run (s ∷ steps) w = run steps (step s w)
