-- ===== src/Usecase/Auth/AgentOutcome.antt =====
-- server/internal/core/usecase/auth.go: the contracts of the methods on agents, in terms of the
-- stored accounts alone. The errors of the ports that a method may wrap are those of which `fails`
-- holds; AgentFails.antt has them.
use agent_events.Prelude.{String, ◌≡◌, ◌≢◌, ◌⊎◌, ◌≤◌, ◌||◌, true, false, none, some}
use agent_events.Prelude.Int.{ℤ, pos, leb_ℤ}
use agent_events.Text.{trim_space}
use agent_events.Time.{Time, minute, zero_time, is_zero, sub}
use agent_events.Apperr.{Error, not_found, invalid, unauthorized, forbidden, wrap_error}
use agent_events.Exec.{Result, ok, err}
use agent_events.Domain.{Agent, User, revoked}
use agent_events.Port.Accounts.{
  Accounts, AccountModel, agent_of, put_agent, change_agent, mark_revoked, mark_used,
}
use agent_events.Usecase.Auth.{AgentWithKey, AgentCredentials}

-- The agent of a request, by the hash of its key. `untouched` holds of an agent where the time of its
-- last use could not be written.
pub data CredentialsOutcome (fails : Error → Type 0) (untouched : Agent → Type 0) (m : AccountModel)
    (hash : String) (before after : Accounts) : Result AgentCredentials → Type 0 where
  unknown :
      before.keyed hash ≡ none
      → after ≡ before
      → CredentialsOutcome fails untouched m hash before after
          (err (unauthorized "invalid agent key"))
  barred :
      (g : Agent)
      → agent_of (before.keyed hash) ≡ some g
      → revoked g ≡ true
      → after ≡ before
      → CredentialsOutcome fails untouched m hash before after
          (err (unauthorized "agent key has been revoked"))
  orphan :
      (g : Agent)
      → agent_of (before.keyed hash) ≡ some g
      → revoked g ≡ false
      → before.user g.user_id ≡ none
      → after ≡ before
      → CredentialsOutcome fails untouched m hash before after
          (err (unauthorized "invalid agent key"))
  failed :
      (e : Error)
      → fails e
      → after ≡ before
      → CredentialsOutcome fails untouched m hash before after
          (err (wrap_error e "could not authenticate"))
  -- The last use is a minute ago or more, or there was none: the time is written, unless that
  -- fails.
  used :
      (g : Agent) (u : User) (now : Time)
      → agent_of (before.keyed hash) ≡ some g
      → revoked g ≡ false
      → before.user g.user_id ≡ some u
      → (is_zero g.last_used_at || leb_ℤ minute (sub now g.last_used_at)) ≡ true
      → (untouched g × (after ≡ before))
        ⊎ (after ≡ change_agent m before.active g.id (mark_used m now) before)
      → CredentialsOutcome fails untouched m hash before after (ok (record { agent = g; user = u }))
  used_lately :
      (g : Agent) (u : User) (now : Time)
      → agent_of (before.keyed hash) ≡ some g
      → revoked g ≡ false
      → before.user g.user_id ≡ some u
      → (is_zero g.last_used_at || leb_ℤ minute (sub now g.last_used_at)) ≡ false
      → after ≡ before
      → CredentialsOutcome fails untouched m hash before after (ok (record { agent = g; user = u }))

-- The agent that `create_agent` makes, with the hash of its key.
abbrev pub new_agent : (id user_id name key_hash : String) → Time → Agent
new_agent id user_id name key_hash now = record {
  id = id;
  user_id = user_id;
  name = name;
  key_hash = key_hash;
  created_at = now;
  revoked_at = zero_time;
  last_used_at = zero_time;
}

pub data NewAgentOutcome (fails : Error → Type 0) (m : AccountModel) (hash : String → String)
    (max : ℤ) (user_id name : String) (before after : Accounts) : Result AgentWithKey → Type 0 where
  blank_name :
      trim_space name ≡ ""
      → after ≡ before
      → NewAgentOutcome fails m hash max user_id name before after
          (err (invalid "agent name is required"))
  failed :
      (e : Error)
      → fails e
      → after ≡ before
      → NewAgentOutcome fails m hash max user_id name before after
          (err (wrap_error e "could not create agent"))
  full :
      leb_ℤ max (pos (before.active user_id)) ≡ true
      → after ≡ before
      → NewAgentOutcome fails m hash max user_id name before after
          (err (forbidden "agent limit reached, revoke an agent first"))
  created :
      (id key : String) (now : Time)
      → trim_space name ≢ ""
      → leb_ℤ max (pos (before.active user_id)) ≡ false
      → before.agent id ≡ none
      → before.keyed (hash key) ≡ none
      → after ≡ put_agent m (new_agent id user_id name (hash key) now) before
      → NewAgentOutcome fails m hash max user_id name before after
          (ok (record { agent = new_agent id user_id name (hash key) now; key = key }))

pub data RevokeOutcome (fails : Error → Type 0) (m : AccountModel) (user_id agent_id : String)
    (before after : Accounts) : Result (Unit {0}) → Type 0 where
  missing :
      before.agent agent_id ≡ none
      → after ≡ before
      → RevokeOutcome fails m user_id agent_id before after (err (not_found "agent not found"))
  denied :
      (g : Agent)
      → agent_of (before.agent agent_id) ≡ some g
      → g.user_id ≢ user_id
      → after ≡ before
      → RevokeOutcome fails m user_id agent_id before after
          (err (forbidden "agent does not belong to you"))
  failed :
      (e : Error)
      → fails e
      → after ≡ before
      → RevokeOutcome fails m user_id agent_id before after
          (err (wrap_error e "could not revoke agent"))
  revoked_before :
      (g : Agent)
      → agent_of (before.agent agent_id) ≡ some g
      → g.user_id ≡ user_id
      → revoked g ≡ true
      → after ≡ before
      → RevokeOutcome fails m user_id agent_id before after (ok tt)
  revoked_now :
      (g : Agent) (now : Time)
      → agent_of (before.agent agent_id) ≡ some g
      → g.user_id ≡ user_id
      → revoked g ≡ false
      → after ≡ change_agent m after.active agent_id (mark_revoked m now) before
      → ((u : String) → after.active u ≤ before.active u)
      → RevokeOutcome fails m user_id agent_id before after (ok tt)
