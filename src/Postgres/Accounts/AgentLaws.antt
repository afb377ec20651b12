-- ===== src/Postgres/Accounts/AgentLaws.antt =====
-- server/internal/adapters/postgres/agent_repository.go against the laws of its port.
use agent_events.Postgres.Ids.{eq_of_same_some}
use mathlib.Core.Option
use agent_events.Prelude.{
  ◌≤◌, String, ◌≡◌, ap, ◌∙◌, [], ◌∷◌, ◌++◌, inl, inr, true, false, Option, none, some, arith,
  Option-cases,
}
use agent_events.Prelude.Int.{ℤ, pos, leb_ℤ}
use agent_events.Time.{Time, zero_time}
use agent_events.Apperr.{Error, agent_not_found, is}
use agent_events.Exec.{ok, err}
use agent_events.Domain.{Agent, revoked}
use agent_events.Port.Accounts.{
  StoredAgent, agent_of, AgentRepositoryLaws, put_agent, change_agent, mark_revoked, mark_used,
}
use agent_events.World.{World}
use agent_events.Postgres.Table.{lookup, update}
use agent_events.Postgres.Schema.{AgentRow, Engine, timestamptz, agent_from_row}
use agent_events.Postgres.AgentQuery.{active_agents, set_revoked, set_last_used, kept_agent}
use agent_events.Postgres.Agents.{
  create_if_under_limit, insert_agent_params, get_agent, get_by_key_hash, list_by_user, revoke,
  touch_last_used, agent_repository,
}
use agent_events.Postgres.Accounts.{
  stored_row, find_agent, count_active, accounts_in, accounts_at, account_model,
}
use agent_events.Postgres.Accounts.AgentRows.{id_of, update-inactive}
use agent_events.Postgres.Accounts.AgentView.{
  inserted, accounts_in-insert, accounts_in-revoke, active-revoke, accounts_in-touch,
}

module _ (pg : Engine) where
  open pg use {uuid}

  create-ok-row :
      (g : Agent) (max : ℤ) (w w' : World)
      → create_if_under_limit pg g max w ≡ (ok true, w')
      → (u v : String) × (uuid g.id ≡ some u)
        × (uuid g.user_id ≡ some v)
        × (leb_ℤ max (pos (active_agents v w.db.agents)) ≡ false)
        × (lookup id_of u w.db.agents ≡ none)
        × (lookup (λ (r : AgentRow). r.key_hash) g.key_hash w.db.agents ≡ none)
        × (w'.db ≡ record w.db {
          agents = w.db.agents ++ kept_agent pg u v (insert_agent_params g) ∷ [];
        })
  unfolding create_if_under_limit insert_agent_params
  create-ok-row g max w w' h = ground arith

  create-full :
      (g : Agent) (max : ℤ) (w w' : World)
      → create_if_under_limit pg g max w ≡ (ok false, w')
      → (leb_ℤ max (pos ((accounts_at pg w).active g.user_id)) ≡ true)
        × (accounts_at pg w' ≡ accounts_at pg w)
  unfolding create_if_under_limit
  create-full g max w w' h = ground arith

  create-err :
      (g : Agent) (max : ℤ) (w w' : World) (x : Error)
      → create_if_under_limit pg g max w ≡ (err x, w')
      → accounts_at pg w' ≡ accounts_at pg w
  unfolding create_if_under_limit
  create-err g max w w' x h = ground arith

  get-ok :
      (i : String) (w w' : World) (g : Agent)
      → get_agent pg i w ≡ (ok g, w')
      → (accounts_at pg w' ≡ accounts_at pg w) × (agent_of ((accounts_at pg w).agent i) ≡ some g)
  unfolding get_agent
  get-ok i w w' g h = ground arith

  get-err :
      (i : String) (w w' : World) (x : Error)
      → get_agent pg i w ≡ (err x, w')
      → (accounts_at pg w' ≡ accounts_at pg w)
        × (is x agent_not_found ≡ true → (accounts_at pg w).agent i ≡ none)
  unfolding get_agent is
  get-err i w w' x h = ground arith

  get_by_key-ok :
      (k : String) (w w' : World) (g : Agent)
      → get_by_key_hash pg k w ≡ (ok g, w')
      → (accounts_at pg w' ≡ accounts_at pg w) × (agent_of ((accounts_at pg w).keyed k) ≡ some g)
  unfolding get_by_key_hash
  get_by_key-ok k w w' g h = ground arith

  get_by_key-err :
      (k : String) (w w' : World) (x : Error)
      → get_by_key_hash pg k w ≡ (err x, w')
      → (accounts_at pg w' ≡ accounts_at pg w)
        × (is x agent_not_found ≡ true → (accounts_at pg w).keyed k ≡ none)
  unfolding get_by_key_hash is
  get_by_key-err k w w' x h = ground arith

  list-quiet : (u : String) (w : World) → accounts_at pg (list_by_user pg u w).1 ≡ accounts_at pg w
  unfolding list_by_user
  list-quiet u w = ground arith

  -- A revocation that succeeds ran its statement on a row or found the agent revoked already.
  revoke-ok-row :
      (i : String) (t : Time) (w w' : World)
      → revoke pg i t w ≡ (ok tt, w')
      → (u : String) × (uuid i ≡ some u)
        × (w'.db
            ≡ record w.db { agents = update id_of u (set_revoked pg (timestamptz t)) w.db.agents })
  unfolding revoke
  revoke-ok-row i t w w' h = ground arith

  revoke-err :
      (i : String) (t : Time) (w w' : World) (x : Error)
      → revoke pg i t w ≡ (err x, w')
      → accounts_at pg w' ≡ accounts_at pg w
  unfolding revoke
  revoke-err i t w w' x h = elim (Option-cases (uuid i)) [
    | inl bad ↦ ground (arith, bad)
    | inr (u, named) ↦
        ground (
          arith,
          named,
          update-inactive u (set_revoked pg (timestamptz t)) (λ r v. rw v) w.db.agents,
        )
  ]

  touch-ok-row :
      (i : String) (t : Time) (w w' : World)
      → touch_last_used pg i t w ≡ (ok tt, w')
      → (u : String) × (uuid i ≡ some u)
        × (w'.db ≡ record w.db {
          agents = update id_of u (set_last_used pg (timestamptz t)) w.db.agents;
        })
  unfolding touch_last_used
  touch-ok-row i t w w' h = ground arith

  touch-err :
      (i : String) (t : Time) (w w' : World) (x : Error)
      → touch_last_used pg i t w ≡ (err x, w')
      → accounts_at pg w' ≡ accounts_at pg w
  unfolding touch_last_used
  touch-err i t w w' x h = ground arith

  create-ok :
      (g : Agent) (max : ℤ) (w w' : World)
      → g.revoked_at ≡ zero_time
      → create_if_under_limit pg g max w ≡ (ok true, w')
      → (leb_ℤ max (pos ((accounts_at pg w).active g.user_id)) ≡ false)
        × ((accounts_at pg w).agent g.id ≡ none)
        × ((accounts_at pg w).keyed g.key_hash ≡ none)
        × (accounts_at pg w' ≡ put_agent (account_model pg) g (accounts_at pg w))
  unfolding inserted
  create-ok g max w w' fresh h =
      let (u, v, named, owned, room, free, key_free, after) = create-ok-row g max w w' h in
      (
        rw owned room,
        rw (named, free),
        rw key_free,
        ap (accounts_in pg) after
            ∙ accounts_in-insert pg g u v w.db named owned fresh free key_free,
      )

  revoke-ok :
      (i : String) (t : Time) (w w' : World)
      → revoke pg i t w ≡ (ok tt, w')
      → (accounts_at pg w'
          ≡ change_agent
              (account_model pg)
              (accounts_at pg w').active
              i
              (mark_revoked (account_model pg) t)
              (accounts_at pg w))
        × ((u : String) → (accounts_at pg w').active u ≤ (accounts_at pg w).active u)
  revoke-ok i t w w' h =
      let (u, named, after) = revoke-ok-row i t w w' h in
      rw after
        (accounts_in-revoke pg i u t w.db named, λ v. active-revoke pg u t w.db.agents (uuid v))

  touch-ok :
      (i : String) (t : Time) (w w' : World)
      → touch_last_used pg i t w ≡ (ok tt, w')
      → accounts_at pg w'
        ≡ change_agent
            (account_model pg)
            (accounts_at pg w).active
            i
            (mark_used (account_model pg) t)
            (accounts_at pg w)
  touch-ok i t w w' h =
      let (u, named, after) = touch-ok-row i t w w' h in
      rw after (accounts_in-touch pg i u t w.db named)

  -- What the table counts as active has no time of revocation.
  active-row :
      (o : Option AgentRow) (g : StoredAgent)
      → Option.map stored_row o ≡ some g
      → g.active ≡ true
      → revoked g.agent ≡ false
  unfolding agent_from_row
  active-row none g h k = cc
  active-row (some row) g h k = ground arith

  active-agent :
      (o : Option String) (w : World) (g : StoredAgent)
      → find_agent w.db.agents o ≡ some g
      → g.active ≡ true
      → revoked g.agent ≡ false
  active-agent none w g h k = cc
  active-agent (some u) w g h k = active-row (lookup id_of u w.db.agents) g h k

  -- The PostgreSQL repository of agents keeps every law of its port: an agent is stored only
  -- under the limit of its user and under a free id and key, a transaction that fails changes
  -- nothing, and a revocation and a touch change exactly the agent of the id.
  pub agent_repository-AgentRepositoryLaws :
      AgentRepositoryLaws (account_model pg) (accounts_at pg) (agent_repository pg)
  agent_repository-AgentRepositoryLaws = record {
    at_same = λ i j w h. ap (find_agent w.db.agents) (eq_of_same_some (uuid i) (uuid j) h);
    active_same = λ i j w h. ap (count_active w.db.agents) (eq_of_same_some (uuid i) (uuid j) h);
    active_agent = λ i w. active-agent (uuid i) w;
    active_keyed = λ k w. active-row (lookup (λ (r : AgentRow). r.key_hash) k w.db.agents);
    create_ok = create-ok;
    create_full = create-full;
    create_err = create-err;
    get_ok = get-ok;
    get_err = get-err;
    get_by_key_ok = get_by_key-ok;
    get_by_key_err = get_by_key-err;
    list_quiet = list-quiet;
    revoke_ok = revoke-ok;
    revoke_err = revoke-err;
    touch_ok = touch-ok;
    touch_err = touch-err;
  }
