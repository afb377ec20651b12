-- ===== src/Server/Cleanup.antt =====
-- `cleanupExpiredTokens` of server/cmd/api/main.go. What happens to it from outside is a list of
-- rounds: whether its context is cancelled by the end of a call, what the rest of the server does
-- while it waits, and what wakes it.
pub mod Sessions
use agent_events.Prelude.{Bool, true, false, List, [], ◌∷◌, if◌then◌else◌}
use agent_events.Exec.{App, pure, catch}
use agent_events.Port.{UserTokenRepository, Logger, err_field, error_log}

-- The case of the `select` that is taken: the ticker's, or that of the end of the context.
pub data Wake : Type 0 where
  tick done : Wake

pub record Round (W : Type 0) : Type 0 where
  pub cancelled : Bool
  pub others : W → W
  pub wake : Wake

module _ {W : Type 0} (tokens : UserTokenRepository W) (log : Logger W) where
  -- the call in the body of the loop, with its check
  unfoldable pub sweep : (cancelled : Bool) → App W (Unit {0})
  sweep cancelled = catch tokens.delete_expired λ e.
      if cancelled
      then pure tt
      else error_log log "expired user token cleanup failed" (err_field e ∷ [])

  -- `cleanupExpiredTokens`: the state after the rounds, and whether the loop has returned
  unfoldable pub cleanup_expired_tokens : List (Round W) → W → W × Bool
  unfolding sweep
  cleanup_expired_tokens [] w = (w, false)
  cleanup_expired_tokens (r ∷ rounds) w = elim r.wake [
    | done ↦ ((sweep r.cancelled w).1, true)
    | tick ↦ cleanup_expired_tokens rounds (r.others (sweep r.cancelled w).1)
  ]
