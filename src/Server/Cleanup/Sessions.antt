-- ===== src/Server/Cleanup/Sessions.antt =====
-- `cleanupExpiredTokens` of server/cmd/api/main.go: it ends no session, and it ends itself.
use agent_events.Prelude.{
  ℕ, suc, String, ◌≡◌, refl, ◌⊎◌, inl, inr, Bool, true, false, some, List, [], ◌∷◌, ◌++◌, All,
  Option-cases, Bool-cases,
}
use agent_events.Prelude.Int.{ltb_ℤ}
use agent_events.Time.{Time}
use agent_events.Exec.{Result, run-cases}
use agent_events.Domain.{UserToken}
use agent_events.Port.{UserTokenRepository, Logger}
use agent_events.Port.Accounts.{Accounts}
use agent_events.World.{World, journal_logger, rest}
use agent_events.Postgres.Ids.{kept_time}
use agent_events.Postgres.Schema.{Engine}
use agent_events.Postgres.Users.{delete_expired, user_token_repository}
use agent_events.Postgres.Accounts.{accounts_at, account_model}
use agent_events.Postgres.Accounts.Purge.{PurgeOutcome, delete_expired-refines}
use agent_events.Server.Cleanup.{Wake, tick, done, Round, sweep, cleanup_expired_tokens}

wake-cases : (wake : Wake) → (wake ≡ done) ⊎ (wake ≡ tick)
wake-cases done = inl refl
wake-cases tick = inr refl

module _ (pg : Engine) (h : String) (t : UserToken) where
  -- The token is stored, and the clock will not say that it is over.
  abbrev pub Alive : World → Type 0
  Alive w =
      ((accounts_at pg w).token h ≡ some t)
      × ((n : ℕ) → ltb_ℤ t.expires_at (kept_time pg (w.clock n)) ≡ false)

  clock-delete_expired : (w : World) → (delete_expired pg w).1.clock ≡ rest w.clock
  unfolding delete_expired
  clock-delete_expired w = elim (Option-cases (w.faults 0)) [
    | inl sent ↦ rw sent
    | inr (reason, broken) ↦ rw broken
  ]

  outcome-keeps :
      {now : Time} {before after : Accounts} {r : Result (Unit {0})}
      → PurgeOutcome (account_model pg) now before after r
      → before.token h ≡ some t
      → ltb_ℤ t.expires_at (kept_time pg now) ≡ false
      → after.token h ≡ some t
  outcome-keeps (PurgeOutcome.failed e quiet) there fresh = rw quiet there
  outcome-keeps (PurgeOutcome.purged _ keeps _) there fresh = keeps h t there fresh

  delete_expired-Alive : (w : World) → Alive w → Alive (delete_expired pg w).1
  delete_expired-Alive w (there, fresh) = (
    outcome-keeps (delete_expired-refines pg w) there (fresh 0),
    λ n. rw (clock-delete_expired w) (fresh (suc n)),
  )

  sweep-Alive :
      (cancelled : Bool) (w : World)
      → Alive w
      → Alive (sweep (user_token_repository pg) journal_logger cancelled w).1
  unfolding sweep
  sweep-Alive cancelled w alive =
      let after = delete_expired-Alive w alive in
      elim (run-cases (delete_expired pg w)) [
        | inl (_, w', k) ↦ rw k (rw k at after)
        | inr (e, w', k) ↦ elim (Bool-cases cancelled) [
          | inl over ↦ rw (k, over) (rw k at after)
          | inr running ↦ rw (k, running) (rw k at after)
        ]
      ]

  -- The loop removes no token that is not over at any time that the clock says, if what else the
  -- server does in between leaves that token alone.
  pub cleanup_expired_tokens-Alive :
      (rounds : List (Round World)) (w : World)
      → All (λ r. (w : World) → Alive w → Alive (r.others w)) rounds
      → Alive w
      → Alive (cleanup_expired_tokens (user_token_repository pg) journal_logger rounds w).0
  unfolding cleanup_expired_tokens
  cleanup_expired_tokens-Alive [] w others alive = alive
  cleanup_expired_tokens-Alive (r ∷ rounds) w (o, others) alive = elim (wake-cases r.wake) [
    | inl last ↦ rw (last, cleanup_expired_tokens) (sweep-Alive r.cancelled w alive)
    | inr more ↦
        rw (more, cleanup_expired_tokens)
          (cleanup_expired_tokens-Alive rounds _ others (o _ (sweep-Alive r.cancelled w alive)))
  ]

module _ {W : Type 0} (tokens : UserTokenRepository W) (log : Logger W) where
  -- The state after the rounds of some ticks: for each of them a sweep, and then what the rest of
  -- the server does until it comes.
  abbrev pub after_ticks : List (Round W) → W → W
  after_ticks [] w = w
  after_ticks (r ∷ ticks) w = after_ticks ticks (r.others (sweep tokens log r.cancelled w).1)

  -- The loop sweeps once for each tick, and once more before it returns at the end of its context;
  -- nothing that would come after has an effect.
  pub cleanup_expired_tokens_ends :
      (ticks : List (Round W)) (last : Round W) (after : List (Round W)) (w : W)
      → All (λ r. r.wake ≡ tick) ticks
      → last.wake ≡ done
      → cleanup_expired_tokens tokens log (ticks ++ last ∷ after) w
        ≡ ((sweep tokens log last.cancelled (after_ticks ticks w)).1, true)
  unfolding cleanup_expired_tokens
  cleanup_expired_tokens_ends [] last after w all ends = rw (ends, cleanup_expired_tokens)
  cleanup_expired_tokens_ends (r ∷ ticks) last after w (t, all) ends =
      rw (t, cleanup_expired_tokens) (cleanup_expired_tokens_ends ticks last after _ all ends)
