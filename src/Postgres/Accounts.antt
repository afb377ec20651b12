-- ===== src/Postgres/Accounts.antt =====
-- The accounts that the tables hold, as the ports see them.
pub mod Tokens
pub mod Purge
pub mod UserRows
pub mod UserLaws
pub mod AgentRows
pub mod AgentView
pub mod AgentLaws
use agent_events.Postgres.Ids.{canonical_or, same_some, eq_of_same_some, kept_time, kept-read}
use mathlib.Core.Option
use agent_events.Prelude.{
  ℕ, String, Bool, true, false, not, Option, none, some, List, ◌==◌, if◌then◌else◌,
}
use agent_events.Time.{Time, zero_time, is_zero}
use agent_events.Domain.{Agent, User, UserToken}
use agent_events.Port.Accounts.{StoredAgent, Accounts, AccountModel}
use agent_events.World.{World}
use agent_events.Postgres.Table.{lookup}
use agent_events.Postgres.AgentQuery.{active_agents}
use agent_events.Postgres.Schema.{
  Db, AgentRow, UserRow, UserTokenRow, Engine, user_from_row, user_token_from_row, agent_from_row,
}

abbrev pub stored_row : AgentRow → StoredAgent
stored_row row = record { agent = agent_from_row row; active = not row.revoked_at.valid }

-- The user and the agent that an id names, and the number of active agents of a user.
abbrev pub find_user : List UserRow → Option String → Option User
find_user rows none = none
find_user rows (some u) = Option.map user_from_row (lookup (λ (r : UserRow). r.id) u rows)

abbrev pub find_agent : List AgentRow → Option String → Option StoredAgent
find_agent rows none = none
find_agent rows (some u) = Option.map stored_row (lookup (λ (r : AgentRow). r.id) u rows)

abbrev pub count_active : List AgentRow → Option String → ℕ
count_active rows none = 0
count_active rows (some u) = active_agents u rows

abbrev pub find_token : List UserTokenRow → String → Option UserToken
find_token rows hash =
    Option.map user_token_from_row (lookup (λ (r : UserTokenRow). r.token_hash) hash rows)

abbrev pub find_keyed : List AgentRow → String → Option StoredAgent
find_keyed rows key = Option.map stored_row (lookup (λ (r : AgentRow). r.key_hash) key rows)

module _ (pg : Engine) where
  open pg use {uuid, micros}

  abbrev pub accounts_in : Db → Accounts
  accounts_in db = record {
    token = find_token db.user_tokens;
    user = λ i. find_user db.users (uuid i);
    agent = λ i. find_agent db.agents (uuid i);
    keyed = find_keyed db.agents;
    active = λ u. count_active db.agents (uuid u);
  }

  abbrev pub accounts_at : World → Accounts
  accounts_at w = accounts_in w.db

  -- PostgreSQL keeps ids in their canonical form, and microseconds of times.
  abbrev pub stored_token : UserToken → UserToken
  stored_token t = record t {
    user_id = canonical_or (uuid t.user_id) t.user_id;
    expires_at = kept_time pg t.expires_at;
    created_at = kept_time pg t.created_at;
  }

  abbrev pub stored_agent : Agent → Agent
  stored_agent g = record g {
    id = canonical_or (uuid g.id) g.id;
    user_id = canonical_or (uuid g.user_id) g.user_id;
    created_at = kept_time pg g.created_at;
    revoked_at = kept_time pg g.revoked_at;
    last_used_at = kept_time pg g.last_used_at;
  }

  abbrev pub account_model : AccountModel
  account_model = record {
    stored_token = stored_token;
    stored_agent = stored_agent;
    stored_time = kept_time pg;
    same = λ i j. same_some (uuid i) (uuid j);
    names = λ i j. same_some (uuid i) (some j);
  }
