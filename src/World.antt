-- ===== src/World.antt =====
-- The state of the running server: the database, the counts of the rate limiter, the log, and what
-- the outside will answer next: the clock, fresh UUIDs, random bytes, the orders in which Go ranges
-- over the map of counts, and the statements on which the connection to the database fails.
use agent_events.Prelude.{
  ℕ, suc, String, Bool, true, Option, none, some, List, [], ◌∷◌, ◌++◌, ◌≡◌, refl, Option-cases, inl,
  inr,
}
use agent_events.Time.{Time}
use agent_events.Apperr.{plain}
use agent_events.Exec.{App, ok, err}
use agent_events.Port.{Logger, Level, Field, Runtime, RateLimiter}
use agent_events.Memory.{Counts, Limits, Range, limit_of, allow}
use agent_events.Postgres.Schema.{Db}

-- A line of the log.
pub record LogEntry : Type 0 where
  pub level : Level
  pub msg : String
  pub fields : List Field

pub record World : Type 0 where
  pub db : Db
  pub faults : ℕ → Option String
  pub counts : Counts
  pub ranges : ℕ → Range
  pub clock : ℕ → Time
  pub uuids : ℕ → String
  pub random : ℕ → Option (List ℕ)
  pub journal : List LogEntry

-- What is left of a sequence of answers after the first.
abbrev pub rest : {A : Type 0} → (ℕ → A) → ℕ → A
rest f n = f (suc n)

-- A logger that keeps its lines.
abbrev pub journal_logger : Logger World
journal_logger = record {
  log = λ level msg fields w. record w {
    journal = w.journal ++ record { level = level; msg = msg; fields = fields } ∷ [];
  };
}

abbrev pub random_read : Option (List ℕ) → App World (List ℕ)
random_read (some bytes) w = (ok bytes, record w { random = rest w.random })
random_read none w = (err (plain "random source failed"), record w { random = rest w.random })

abbrev pub world_runtime : Runtime World
world_runtime = record {
  now = λ w. (w.clock 0, record w { clock = rest w.clock });
  new_uuid = λ w. (w.uuids 0, record w { uuids = rest w.uuids });
  random_bytes = λ w. random_read (w.random 0) w;
}

-- `RateLimiter.Allow` on the state: the clock is read only where the action has a limit.
unfoldable pub allow_in : Limits → (key action : String) → App World Bool
unfolding allow
allow_in limits key action w = elim (limit_of limits action) [
  | none ↦ (ok true, w)
  | some _ ↦
      let (allowed, counts) =
        allow limits (w.ranges 0) (w.ranges 1) (w.clock 0) key action w.counts in
      (
        ok allowed,
        record w { counts = counts; clock = rest w.clock; ranges = rest (rest w.ranges) },
      )
]

abbrev pub memory_limiter : Limits → RateLimiter World
memory_limiter limits = record { allow = allow_in limits }

-- The limiter touches the counts, the clock and the orders only.
pub db-allow_in :
    (limits : Limits) (key action : String) (w : World) → (allow_in limits key action w).1.db ≡ w.db
unfolding allow_in
db-allow_in limits key action w = elim (Option-cases (limit_of limits action)) [
  | inl unlimited ↦ rw (unlimited, allow_in)
  | inr (limit, limited) ↦ rw (limited, allow_in)
]

pub db-random_read : (r : Option (List ℕ)) (w : World) → (random_read r w).1.db ≡ w.db
db-random_read none w = refl
db-random_read (some bytes) w = refl
