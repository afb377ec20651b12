-- ===== src/Postgres/AgentQuery.antt =====
-- The statements of server/internal/adapters/postgres/queries on agents (gen/agents.sql.go).
use mathlib.Core.Option
use agent_events.Prelude.{
  ℕ, String, Bool, not, ◌&&◌, List, [], ◌∷◌, ◌++◌, filter, length, ◌==◌, if◌then◌else◌,
}
use agent_events.Exec.{App, ok}
use agent_events.World.{World}
use agent_events.Postgres.Table.{lookup, update}
use agent_events.Postgres.Schema.{Timestamptz, AgentRow, UserRow, Engine}
use agent_events.Postgres.Query.{
  send, read_uuid, check, one_row, is_none, kept, order_by, null_violation, foreign_key_violation,
  unique_violation,
}

-- user_id = $1 AND revoked_at IS NULL
unfoldable pub is_active_of : String → AgentRow → Bool
is_active_of user_id row = row.user_id == user_id && not row.revoked_at.valid

-- The number of active agents of a user.
unfoldable pub active_agents : String → List AgentRow → ℕ
unfolding filter is_active_of
active_agents user_id rows = length (filter (is_active_of user_id) rows)

module _ (pg : Engine) where
  open pg use {uuid}

  unfoldable pub lock_user_for_update : String → App World String
  unfolding send lookup
  lock_user_for_update id = send (
      read_uuid (uuid id) λ u db.
        one_row (Option.map (λ (r : UserRow). r.id) (lookup (λ (r : UserRow). r.id) u db.users)) db)

  unfoldable pub count_active_agents_by_user : String → App World ℕ
  unfolding send active_agents
  count_active_agents_by_user user_id =
      send (read_uuid (uuid user_id) λ u db. (ok (active_agents u db.agents), db))

  unfoldable pub get_agent_by_id : String → App World AgentRow
  unfolding send lookup
  get_agent_by_id id =
      send (read_uuid (uuid id) λ u db. one_row (lookup (λ (r : AgentRow). r.id) u db.agents) db)

  unfoldable pub get_agent_by_key_hash : String → App World AgentRow
  unfolding send lookup
  get_agent_by_key_hash key_hash =
      send λ db. one_row (lookup (λ (r : AgentRow). r.key_hash) key_hash db.agents) db

  -- The row that the table keeps of `row`.
  abbrev pub kept_agent : (id user_id : String) → AgentRow → AgentRow
  kept_agent id user_id row = record row {
    id = id;
    user_id = user_id;
    created_at = kept pg row.created_at;
    revoked_at = kept pg row.revoked_at;
    last_used_at = kept pg row.last_used_at;
  }

  unfoldable pub insert_agent : AgentRow → App World (Unit {0})
  unfolding send lookup
  insert_agent row = send (
      read_uuid (uuid row.id) λ id. read_uuid (uuid row.user_id) λ user_id db.
        check row.created_at.valid null_violation
          (check (is_none (lookup (λ (r : AgentRow). r.id) id db.agents)) unique_violation (
            check (is_none (lookup (λ (r : AgentRow). r.key_hash) row.key_hash db.agents))
              unique_violation
              (check (not (is_none (lookup (λ (r : UserRow). r.id) user_id db.users)))
                foreign_key_violation
                λ db. (ok tt, record db { agents = db.agents ++ kept_agent id user_id row ∷ [] }))))
          db)

  unfoldable pub list_agents_by_user : String → App World (List AgentRow)
  unfolding send order_by filter
  list_agents_by_user user_id = send (
      read_uuid (uuid user_id) λ u db. (
        ok (
            order_by (λ (r : AgentRow). r.created_at.time)
              (filter (λ (r : AgentRow). r.user_id == u) db.agents)),
        db,
      ))

  -- SET revoked_at = $2 where it IS NULL
  abbrev pub set_revoked : Timestamptz → AgentRow → AgentRow
  set_revoked t row = if row.revoked_at.valid then row else record row { revoked_at = kept pg t }

  -- The number of rows that were changed is returned.
  unfoldable pub revoke_agent : String → Timestamptz → App World ℕ
  unfolding send update filter
  revoke_agent id t = send (
      read_uuid (uuid id) λ u db. (
        ok (length (filter (λ (r : AgentRow). r.id == u && not r.revoked_at.valid) db.agents)),
        record db { agents = update (λ (r : AgentRow). r.id) u (set_revoked t) db.agents },
      ))

  abbrev pub set_last_used : Timestamptz → AgentRow → AgentRow
  set_last_used t row = record row { last_used_at = kept pg t }

  unfoldable pub touch_agent_last_used : String → Timestamptz → App World (Unit {0})
  unfolding send update
  touch_agent_last_used id t = send (
      read_uuid (uuid id) λ u db. (
        ok tt,
        record db { agents = update (λ (r : AgentRow). r.id) u (set_last_used t) db.agents },
      ))
