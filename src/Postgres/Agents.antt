-- ===== src/Postgres/Agents.antt =====
-- server/internal/adapters/postgres/agent_repository.go
use agent_events.Prelude.{String, Bool, true, false, eqb, List, map, if◌then◌else◌}
use agent_events.Prelude.Int.{ℤ, pos, leb_ℤ}
use agent_events.Time.{Time}
use agent_events.Apperr.{sentinel, agent_not_found, user_not_found}
use agent_events.Exec.{App, Result, ok, err, pure, fail, catch, when, ◌>>=◌, ◌>>◌}
use agent_events.Domain.{Agent}
use agent_events.Port.{AgentRepository}
use agent_events.World.{World}
use agent_events.Postgres.Schema.{Db, AgentRow, Engine, timestamptz, agent_from_row}
use agent_events.Postgres.Errors.{as_not_found}
use agent_events.Postgres.Query.{send}
use agent_events.Postgres.AgentQuery.{
  lock_user_for_update, count_active_agents_by_user, get_agent_by_id, get_agent_by_key_hash,
  insert_agent, list_agents_by_user, revoke_agent, touch_agent_last_used,
}

-- `Begin` and `Commit`: each is sent to the database, and may fail.
unfoldable pub round_trip : App World (Unit {0})
unfolding send
round_trip = send λ db. (ok tt, db)

-- `defer tx.Rollback`: what was written is kept only where the function reached the end and
-- returned true.
abbrev pub unless_committed : Db → Result Bool × World → Result Bool × World
unless_committed db (ok true, w) = (ok true, w)
unless_committed db (ok false, w) = (ok false, record w { db = db })
unless_committed db (err e, w) = (err e, record w { db = db })

-- `insertAgentParams`
unfoldable pub insert_agent_params : Agent → AgentRow
unfolding timestamptz
insert_agent_params agent = record {
  id = agent.id;
  user_id = agent.user_id;
  name = agent.name;
  key_hash = agent.key_hash;
  created_at = timestamptz agent.created_at;
  revoked_at = timestamptz agent.revoked_at;
  last_used_at = timestamptz agent.last_used_at;
}

module _ (pg : Engine) where
  -- `AgentRepository.CreateIfUnderLimit`, inside the transaction
  unfoldable pub attempt : Agent → (max : ℤ) → App World Bool
  unfolding round_trip lock_user_for_update count_active_agents_by_user insert_agent as_not_found
      insert_agent_params
  attempt agent max = do
    round_trip
    catch (lock_user_for_update pg agent.user_id) λ e. fail (as_not_found e user_not_found)
    count ← count_active_agents_by_user pg agent.user_id
    if leb_ℤ max (pos count)
        then pure false
        else do insert_agent pg (insert_agent_params agent); round_trip; pure true

  -- `AgentRepository.CreateIfUnderLimit`
  unfoldable pub create_if_under_limit : Agent → (max : ℤ) → App World Bool
  unfolding attempt
  create_if_under_limit agent max w = unless_committed w.db (attempt agent max w)

  -- `AgentRepository.Get`
  unfoldable pub get_agent : String → App World Agent
  unfolding get_agent_by_id as_not_found agent_from_row
  get_agent id = do
    row ← catch (get_agent_by_id pg id) λ e. fail (as_not_found e agent_not_found)
    pure (agent_from_row row)

  -- `AgentRepository.GetByKeyHash`
  unfoldable pub get_by_key_hash : String → App World Agent
  unfolding get_agent_by_key_hash as_not_found agent_from_row
  get_by_key_hash key_hash = do
    row ← catch (get_agent_by_key_hash pg key_hash) λ e. fail (as_not_found e agent_not_found)
    pure (agent_from_row row)

  -- `AgentRepository.ListByUser`
  unfoldable pub list_by_user : String → App World (List Agent)
  unfolding list_agents_by_user agent_from_row
  list_by_user user_id = do rows ← list_agents_by_user pg user_id; pure (map agent_from_row rows)

  -- `AgentRepository.Revoke`
  unfoldable pub revoke : String → Time → App World (Unit {0})
  unfolding revoke_agent timestamptz get_agent
  revoke id revoked_at = do
    affected ← revoke_agent pg id (timestamptz revoked_at)
    when (eqb affected 0) do catch (get_agent id) λ e. fail (sentinel agent_not_found); pure tt
    pure tt

  -- `AgentRepository.TouchLastUsed`
  unfoldable pub touch_last_used : String → Time → App World (Unit {0})
  unfolding touch_agent_last_used timestamptz
  touch_last_used id at = touch_agent_last_used pg id (timestamptz at)

  abbrev pub agent_repository : AgentRepository World
  agent_repository = record {
    create_if_under_limit = create_if_under_limit;
    get = get_agent;
    get_by_key_hash = get_by_key_hash;
    list_by_user = list_by_user;
    revoke = revoke;
    touch_last_used = touch_last_used;
  }
