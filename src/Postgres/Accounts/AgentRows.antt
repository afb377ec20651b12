-- ===== src/Postgres/Accounts/AgentRows.antt =====
-- server/internal/adapters/postgres/agent_repository.go: the agents of a table as the port sees
-- them, and how they change with a row.
use agent_events.Postgres.Ids.{same_some}
use mathlib.Core.Option
use agent_events.Prelude.{
  ◌+◌, ◌≤◌, String, ◌≡◌, refl, [], ◌∷◌, ◌++◌, inl, inr, true, false, not, ◌&&◌, Option, none, some,
  List, arith, eq_iff, filter, length, ◌==◌, Bool-cases, Option-cases, if◌then◌else◌,
}
use agent_events.Port.Accounts.{StoredAgent}
use agent_events.Postgres.Table.{lookup, update, lookup-append, lookup-update, lookup-map}
use agent_events.Postgres.Schema.{AgentRow, agent_from_row}
use agent_events.Postgres.AgentQuery.{is_active_of, active_agents}
use agent_events.Postgres.Accounts.{stored_row, find_agent, find_keyed, count_active}

abbrev pub id_of : AgentRow → String
id_of r = r.id

module _ (row : AgentRow) (rows : List AgentRow) where
  pub find_agent-insert :
      lookup id_of row.id rows ≡ none
      → (o : Option String)
      → find_agent (rows ++ row ∷ []) o
        ≡ (if same_some o (some row.id) then some (stored_row row) else find_agent rows o)
  find_agent-insert fresh none = refl
  find_agent-insert fresh (some v) =
      rw (lookup-append id_of v row rows fresh) (ground (arith, eq_iff v row.id, eq_iff row.id v))

  pub find_keyed-insert :
      lookup (λ (r : AgentRow). r.key_hash) row.key_hash rows ≡ none
      → (k : String)
      → find_keyed (rows ++ row ∷ []) k
        ≡ (if k == row.key_hash then some (stored_row row) else find_keyed rows k)
  find_keyed-insert fresh k =
      rw (lookup-append (λ (r : AgentRow). r.key_hash) k row rows fresh)
        (ground (arith, eq_iff k row.key_hash, eq_iff row.key_hash k))

active_agents-insert :
    (u : String) (row : AgentRow) (rows : List AgentRow)
    → row.revoked_at.valid ≡ false
    → active_agents u (rows ++ row ∷ [])
      ≡ (if u == row.user_id then active_agents u rows + 1 else active_agents u rows)
unfolding active_agents filter is_active_of
active_agents-insert u row [] h = ground (arith, eq_iff u row.user_id, eq_iff row.user_id u)
active_agents-insert u row (r ∷ rows) h = ground (arith, active_agents-insert u row rows h)

pub count_active-insert :
    (row : AgentRow) (rows : List AgentRow)
    → row.revoked_at.valid ≡ false
    → (o : Option String)
    → count_active (rows ++ row ∷ []) o
      ≡ (if same_some o (some row.user_id) then count_active rows o + 1 else count_active rows o)
count_active-insert row rows h none = refl
count_active-insert row rows h (some u) = active_agents-insert u row rows h

module _ (u : String) (f : AgentRow → AgentRow) (g : StoredAgent → StoredAgent)
    (keeps_id : (r : AgentRow) → (f r).id ≡ r.id)
    (keeps_key : (r : AgentRow) → (f r).key_hash ≡ r.key_hash)
    (seen : (r : AgentRow) → stored_row (f r) ≡ g (stored_row r)) where
  pub find_agent-update :
      (rows : List AgentRow) (o : Option String)
      → find_agent (update id_of u f rows) o
        ≡ (if same_some o (some u) then Option.map g (find_agent rows o) else find_agent rows o)
  find_agent-update rows none = refl
  find_agent-update rows (some v) =
      rw (lookup-update id_of u v f keeps_id rows) (elim (Option-cases (lookup id_of v rows)) [
        | inl missing ↦ rw missing (ground arith)
        | inr (row, found) ↦ rw found (ground (arith, seen row))
      ])

  pub find_keyed-update :
      (rows : List AgentRow) (k : String)
      → find_keyed (update id_of u f rows) k
        ≡ Option.map
            (λ a. if same_some (some u) (some a.agent.id) then g a else a)
            (find_keyed rows k)
  unfolding update agent_from_row
  find_keyed-update rows k =
      let change : AgentRow → AgentRow = λ r. if r.id == u then f r else r in
      let keeps : (r : AgentRow) → (change r).key_hash ≡ r.key_hash = λ r.
        elim (Bool-cases (r.id == u)) [ inl same ↦ rw same (keeps_key r) | inr other ↦ rw other ] in
      rw (lookup-map (λ (r : AgentRow). r.key_hash) k change keeps rows)
        (elim (Option-cases (lookup (λ (r : AgentRow). r.key_hash) k rows)) [
          | inl missing ↦ rw missing
          | inr (row, found) ↦ rw found (elim (Bool-cases (row.id == u)) [
            | inl same ↦ rw same (ground (arith, seen row, same, eq_iff row.id u, eq_iff u row.id))
            | inr other ↦ rw other (ground (arith, other, eq_iff row.id u, eq_iff u row.id))
          ])
        ])

  pub active_agents-update :
      ((r : AgentRow) → (f r).user_id ≡ r.user_id)
      → ((r : AgentRow) → r.revoked_at.valid ≡ true → (f r).revoked_at.valid ≡ true)
      → (v : String) (rows : List AgentRow)
      → active_agents v (update id_of u f rows) ≤ active_agents v rows
  unfolding active_agents filter is_active_of update
  active_agents-update keeps_user stays v [] = omega arith
  active_agents-update keeps_user stays v (r ∷ rows) =
      ground (arith, keeps_user r, stays r, active_agents-update keeps_user stays v rows)

-- Rows of which none is active stay as they are when they are revoked again.
pub update-inactive :
    (u : String) (f : AgentRow → AgentRow)
    → ((r : AgentRow) → r.revoked_at.valid ≡ true → f r ≡ r)
    → (rows : List AgentRow)
    → length (filter (λ (r : AgentRow). r.id == u && not r.revoked_at.valid) rows) ≡ 0
    → update id_of u f rows ≡ rows
unfolding update filter
update-inactive u f fixed [] h = refl
update-inactive u f fixed (r ∷ rows) h = ground (arith, fixed r, update-inactive u f fixed rows)

-- A change that keeps the owner of a row and whether it is active.
active_agents-same :
    (u : String) (f : AgentRow → AgentRow)
    → ((r : AgentRow) → (f r).user_id ≡ r.user_id)
    → ((r : AgentRow) → (f r).revoked_at.valid ≡ r.revoked_at.valid)
    → (v : String) (rows : List AgentRow)
    → active_agents v (update id_of u f rows) ≡ active_agents v rows
unfolding active_agents filter is_active_of update
active_agents-same u f keeps_user stays v [] = refl
active_agents-same u f keeps_user stays v (r ∷ rows) =
    ground (arith, keeps_user r, stays r, active_agents-same u f keeps_user stays v rows)

pub count_active-update :
    (u : String) (f : AgentRow → AgentRow)
    → ((r : AgentRow) → (f r).user_id ≡ r.user_id)
    → ((r : AgentRow) → (f r).revoked_at.valid ≡ r.revoked_at.valid)
    → (rows : List AgentRow) (o : Option String)
    → count_active (update id_of u f rows) o ≡ count_active rows o
count_active-update u f keeps_user stays rows none = refl
count_active-update u f keeps_user stays rows (some v) =
    active_agents-same u f keeps_user stays v rows
