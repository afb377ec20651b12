-- ===== src/Postgres/Ids.antt =====
-- What the tables keep of an id and of a time: PostgreSQL keeps ids in their canonical form, and
-- microseconds of times.
use agent_events.Prelude.{
  String, ◌≡◌, ap, Bool, true, false, Option, none, some, inl, inr, eq_iff, Bool-cases, ◌==◌,
  if◌then◌else◌,
}
use agent_events.Time.{Time, zero_time, is_zero}
use agent_events.Postgres.Schema.{Engine, timestamptz, time_from_timestamptz}
use agent_events.Postgres.Query.{kept}

abbrev pub canonical_or : Option String → String → String
canonical_or none id = id
canonical_or (some u) id = u

abbrev pub same_some : Option String → Option String → Bool
same_some (some u) (some v) = u == v
same_some _ _ = false

pub eq_of_same_some : (o p : Option String) → same_some o p ≡ true → o ≡ p
eq_of_same_some (some u) (some v) h = ap some ((eq_iff u v).0 h)
eq_of_same_some none p h = cc
eq_of_same_some (some u) none h = cc

module _ (pg : Engine) where
  open pg use {micros}

  abbrev pub kept_time : Time → Time
  kept_time t = if is_zero t then zero_time else micros t

  pub kept-read : (t : Time) → time_from_timestamptz (kept pg (timestamptz t)) ≡ kept_time t
  unfolding timestamptz time_from_timestamptz
  kept-read t = elim (Bool-cases (is_zero t)) [ inl unset ↦ rw unset | inr given ↦ rw given ]
