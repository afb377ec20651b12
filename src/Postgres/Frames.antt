-- ===== src/Postgres/Frames.antt =====
-- server/internal/adapters/postgres: the tables that a method of a repository leaves alone.
use agent_events.Prelude.{String, ◌≡◌, inl, inr, List, arith, Bool-cases, refl}
use agent_events.Prelude.Int.{ℤ}
use agent_events.Time.{Time}
use agent_events.Exec.{run-cases}
use agent_events.Domain.{Agent, UserToken, Event}
use agent_events.World.{World}
use agent_events.Postgres.Schema.{Engine, Db, UserRow, AgentRow, UserTokenRow}
use agent_events.Postgres.Users.{
  upsert_by_identity, get_user, create_token, get_by_hash, delete_by_hash, delete_expired,
}
use agent_events.Postgres.Agents.{
  create_if_under_limit, attempt, get_agent, get_by_key_hash, list_by_user, revoke, touch_last_used,
}
use agent_events.Postgres.Events.{save, get, list, update, delete}

-- the tables of accounts
abbrev pub account_tables : Db → List UserRow × List AgentRow × List UserTokenRow
account_tables db = (db.users, db.agents, db.user_tokens)

module _ (pg : Engine) (w : World) where
  pub upsert_by_identity-events :
      (p s e : String) → (upsert_by_identity pg p s e w).1.db.events ≡ w.db.events
  unfolding upsert_by_identity
  upsert_by_identity-events p s e = ground arith

  pub get_user-events : (i : String) → (get_user pg i w).1.db.events ≡ w.db.events
  unfolding get_user
  get_user-events i = ground arith

  pub create_token-events : (t : UserToken) → (create_token pg t w).1.db.events ≡ w.db.events
  unfolding create_token
  create_token-events t = ground arith

  pub get_by_hash-events : (h : String) → (get_by_hash pg h w).1.db.events ≡ w.db.events
  unfolding get_by_hash
  get_by_hash-events h = ground arith

  pub delete_by_hash-events : (h : String) → (delete_by_hash pg h w).1.db.events ≡ w.db.events
  unfolding delete_by_hash
  delete_by_hash-events h = ground arith

  pub delete_expired-events : (delete_expired pg w).1.db.events ≡ w.db.events
  unfolding delete_expired
  delete_expired-events = ground arith

  pub delete_expired-agents : (delete_expired pg w).1.db.agents ≡ w.db.agents
  unfolding delete_expired
  delete_expired-agents = ground arith

  attempt-events : (g : Agent) (max : ℤ) → (attempt pg g max w).1.db.events ≡ w.db.events
  unfolding attempt
  attempt-events g max = ground arith

  pub create_if_under_limit-events :
      (g : Agent) (max : ℤ) → (create_if_under_limit pg g max w).1.db.events ≡ w.db.events
  unfolding create_if_under_limit
  create_if_under_limit-events g max =
      let inside = attempt-events g max in
      elim (run-cases (attempt pg g max w)) [
        | inr (e, w', h) ↦ rw h refl
        | inl (created, w', h) ↦ elim (Bool-cases created) [
          | inl yes_ ↦ rw (h, yes_) (rw h at inside)
          | inr no_ ↦ rw (h, no_) refl
        ]
      ]

  pub get_agent-events : (i : String) → (get_agent pg i w).1.db.events ≡ w.db.events
  unfolding get_agent
  get_agent-events i = ground arith

  pub get_by_key_hash-events : (k : String) → (get_by_key_hash pg k w).1.db.events ≡ w.db.events
  unfolding get_by_key_hash
  get_by_key_hash-events k = ground arith

  pub list_by_user-events : (i : String) → (list_by_user pg i w).1.db.events ≡ w.db.events
  unfolding list_by_user
  list_by_user-events i = ground arith

  pub revoke-events : (i : String) (t : Time) → (revoke pg i t w).1.db.events ≡ w.db.events
  unfolding revoke
  revoke-events i t = ground arith

  pub touch_last_used-events :
      (i : String) (t : Time) → (touch_last_used pg i t w).1.db.events ≡ w.db.events
  unfolding touch_last_used
  touch_last_used-events i t = ground arith

  pub save-account_tables : (e : Event) → account_tables (save pg e w).1.db ≡ account_tables w.db
  unfolding save
  save-account_tables e = ground arith

  pub get-account_tables : (i : String) → account_tables (get pg i w).1.db ≡ account_tables w.db
  unfolding get
  get-account_tables i = ground arith

  pub list-account_tables : account_tables (list pg w).1.db ≡ account_tables w.db
  unfolding list
  list-account_tables = ground arith

  pub update-account_tables :
      (e : Event) → account_tables (update pg e w).1.db ≡ account_tables w.db
  unfolding update
  update-account_tables e = ground arith

  pub delete-account_tables :
      (i : String) → account_tables (delete pg i w).1.db ≡ account_tables w.db
  unfolding delete
  delete-account_tables i = ground arith
