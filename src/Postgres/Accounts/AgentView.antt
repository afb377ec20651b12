-- ===== src/Postgres/Accounts/AgentView.antt =====
-- server/internal/adapters/postgres/agent_repository.go: the accounts after a row of an agent was
-- inserted, revoked or touched.

use agent_events.Postgres.Ids.{kept-read}
use mathlib.Core.Path.{ap₂}
use agent_events.Prelude.{
  ℕ, ◌≤◌, String, ◌≡◌, refl, ap, [], ◌∷◌, ◌++◌, inl, inr, true, not, Option, none, some, List,
  arith, Bool-cases,
}
use agent_events.Time.{Time, zero_time, is_zero}
use agent_events.Domain.{Agent}
use agent_events.Port.Accounts.{
  Accounts, StoredAgent, put_agent, change_agent, mark_revoked, mark_used,
}
use agent_events.Postgres.Table.{lookup, update}
use agent_events.Postgres.Schema.{Db, AgentRow, Engine, timestamptz, agent_from_row}
use agent_events.Postgres.AgentQuery.{set_revoked, set_last_used, kept_agent}
use agent_events.Postgres.Agents.{insert_agent_params}
use agent_events.Postgres.Accounts.{
  stored_row, count_active, accounts_in, stored_agent, account_model,
}
use agent_events.Postgres.Accounts.AgentRows.{
  id_of, find_agent-insert, find_keyed-insert, count_active-insert, find_agent-update,
  find_keyed-update, active_agents-update, count_active-update,
}

-- Accounts that agree on every agent and on the rest.
agents_eq :
    (a : Accounts) {f f' k k' : String → Option StoredAgent} {n n' : String → ℕ}
    → ((i : String) → f i ≡ f' i)
    → ((i : String) → k i ≡ k' i)
    → ((i : String) → n i ≡ n' i)
    → record a { agent = f; keyed = k; active = n }
      ≡ record a { agent = f'; keyed = k'; active = n' }
agents_eq a hf hk hn =
    λ p. record a { agent = λ i. hf i p; keyed = λ i. hk i p; active = λ i. hn i p }

module _ (pg : Engine) where
  open pg use {uuid}

  valid-timestamptz : (t : Time) → not (timestamptz t).valid ≡ is_zero t
  unfolding timestamptz
  valid-timestamptz t = elim (Bool-cases (is_zero t)) [
    | inl unset ↦ rw unset
    | inr given ↦ rw given
  ]

  unfoldable pub inserted : Agent → String → String → AgentRow
  inserted g u v = kept_agent pg u v (insert_agent_params g)

  stored_row-inserted :
      (g : Agent) (u v : String)
      → uuid g.id ≡ some u
      → uuid g.user_id ≡ some v
      → g.revoked_at ≡ zero_time
      → stored_row (inserted g u v) ≡ record { agent = stored_agent pg g; active = true }
  unfolding inserted insert_agent_params agent_from_row
  stored_row-inserted g u v named owned fresh =
      let seen : agent_from_row (inserted g u v) ≡ stored_agent pg g =
        rw (named, owned)
          (ap₂
            (λ x (yz : Time × Time). record g {
              id = u;
              user_id = v;
              created_at = x;
              revoked_at = yz.0;
              last_used_at = yz.1;
            })
            (kept-read pg g.created_at)
            (ap₂ (λ y z. (y, z)) (kept-read pg g.revoked_at) (kept-read pg g.last_used_at))) in
      ap₂ (λ a b. record { agent = a; active = b }) seen (rw fresh)

  pub accounts_in-insert :
      (g : Agent) (u v : String) (db : Db)
      → uuid g.id ≡ some u
      → uuid g.user_id ≡ some v
      → g.revoked_at ≡ zero_time
      → lookup id_of u db.agents ≡ none
      → lookup (λ (r : AgentRow). r.key_hash) g.key_hash db.agents ≡ none
      → accounts_in pg (record db { agents = db.agents ++ inserted g u v ∷ [] })
        ≡ put_agent (account_model pg) g (accounts_in pg db)
  unfolding inserted insert_agent_params timestamptz
  accounts_in-insert g u v db named owned fresh free key_free =
      let row = inserted g u v in
      let seen = stored_row-inserted g u v named owned fresh in
      agents_eq (accounts_in pg db)
        (λ i. rw (find_agent-insert row db.agents free (uuid i), seen, named))
        (λ k. rw (find_keyed-insert row db.agents key_free k, seen))
        (λ i. rw (count_active-insert row db.agents (rw fresh) (uuid i), owned))

  -- A revocation as the ports see it.
  stored_row-set_revoked :
      (t : Time) (r : AgentRow)
      → stored_row (set_revoked pg (timestamptz t) r)
        ≡ mark_revoked (account_model pg) t (stored_row r)
  unfolding agent_from_row
  stored_row-set_revoked t r = elim (Bool-cases r.revoked_at.valid) [
    | inl over ↦ rw over
    | inr open_row ↦ rw open_row (
        ap₂ (λ x b. record { agent = record (agent_from_row r) { revoked_at = x }; active = b })
          (kept-read pg t) (valid-timestamptz t))
  ]

  set_revoked-id : (t : Time) (r : AgentRow) → (set_revoked pg (timestamptz t) r).id ≡ r.id
  set_revoked-id t r = elim (Bool-cases r.revoked_at.valid) [ inl v ↦ rw v | inr v ↦ rw v ]

  set_revoked-user :
      (t : Time) (r : AgentRow) → (set_revoked pg (timestamptz t) r).user_id ≡ r.user_id
  set_revoked-user t r = elim (Bool-cases r.revoked_at.valid) [ inl v ↦ rw v | inr v ↦ rw v ]

  set_revoked-key :
      (t : Time) (r : AgentRow) → (set_revoked pg (timestamptz t) r).key_hash ≡ r.key_hash
  set_revoked-key t r = elim (Bool-cases r.revoked_at.valid) [ inl v ↦ rw v | inr v ↦ rw v ]

  pub accounts_in-revoke :
      (i u : String) (t : Time) (db : Db)
      → uuid i ≡ some u
      → accounts_in pg
          (record db { agents = update id_of u (set_revoked pg (timestamptz t)) db.agents })
        ≡ change_agent
            (account_model pg)
            (λ j. count_active (update id_of u (set_revoked pg (timestamptz t)) db.agents) (uuid j))
            i
            (mark_revoked (account_model pg) t)
            (accounts_in pg db)
  accounts_in-revoke i u t db named =
      let f = set_revoked pg (timestamptz t) in
      let g = mark_revoked (account_model pg) t in
      agents_eq (accounts_in pg db)
        (λ j. rw named (
          find_agent-update u f g (set_revoked-id t) (set_revoked-key t) (stored_row-set_revoked t)
            db.agents (uuid j)))
        (λ k. rw named (
          find_keyed-update u f g (set_revoked-id t) (set_revoked-key t) (stored_row-set_revoked t)
            db.agents k))
        (λ j. refl)

  pub active-revoke :
      (u : String) (t : Time) (rows : List AgentRow) (o : Option String)
      → count_active (update id_of u (set_revoked pg (timestamptz t)) rows) o ≤ count_active rows o
  active-revoke u t rows none = omega arith
  active-revoke u t rows (some v) =
      active_agents-update u (set_revoked pg (timestamptz t)) (mark_revoked (account_model pg) t)
        (set_revoked-id t) (set_revoked-key t) (stored_row-set_revoked t) (set_revoked-user t)
        (λ r h. rw h) v rows

  -- The time of the last use.
  stored_row-set_last_used :
      (t : Time) (r : AgentRow)
      → stored_row (set_last_used pg (timestamptz t) r)
        ≡ mark_used (account_model pg) t (stored_row r)
  unfolding agent_from_row
  stored_row-set_last_used t r =
      ap (λ x. record (stored_row r) { agent = record (agent_from_row r) { last_used_at = x } })
        (kept-read pg t)

  pub accounts_in-touch :
      (i u : String) (t : Time) (db : Db)
      → uuid i ≡ some u
      → accounts_in pg
          (record db { agents = update id_of u (set_last_used pg (timestamptz t)) db.agents })
        ≡ change_agent
            (account_model pg)
            (accounts_in pg db).active
            i
            (mark_used (account_model pg) t)
            (accounts_in pg db)
  accounts_in-touch i u t db named =
      let f = set_last_used pg (timestamptz t) in
      let g = mark_used (account_model pg) t in
      agents_eq (accounts_in pg db)
        (λ j. rw named (
          find_agent-update u f g (λ r. refl) (λ r. refl) (stored_row-set_last_used t) db.agents
            (uuid j)))
        (λ k. rw named (
          find_keyed-update u f g (λ r. refl) (λ r. refl) (stored_row-set_last_used t) db.agents k))
        (λ j. count_active-update u f (λ r. refl) (λ r. refl) db.agents (uuid j))
