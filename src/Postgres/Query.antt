-- ===== src/Postgres/Query.antt =====
-- The statements of server/internal/adapters/postgres/queries as the functions that sqlc generates
-- for them run (gen/*.sql.go). A statement fails and changes nothing where the connection fails,
-- where a text is no UUID, and where a constraint of the tables is broken.
use agent_events.Prelude.{
  ◌≡◌, arith, ℕ, String, Bool, true, false, not, ◌&&◌, ◌||◌, Option, none, some, List, [], ◌∷◌,
  ◌++◌, if◌then◌else◌,
}
use agent_events.Prelude.Int.{leb_ℤ}
use agent_events.Time.{Time}
use agent_events.Apperr.{Error, plain, no_rows, pg_error}
use agent_events.Exec.{App, Result, ok, err}
use agent_events.World.{World, rest}
use agent_events.Postgres.Table.{lookup, update, delete, count}
use agent_events.Postgres.Schema.{Timestamptz, EventRow, UserRow, Db, Engine}

-- What a statement does to the database.
abbrev pub Statement : Type 0 → Type 0
Statement A = Db → Result A × Db

-- Sends a statement to the database.
abbrev answer : {A : Type 0} → Option String → Statement A → App World A
answer (some reason) statement w = (err (plain reason), record w { faults = rest w.faults })
answer none statement w =
    let (r, db) = statement w.db in (r, record w { faults = rest w.faults; db = db })

unfoldable pub send : {A : Type 0} → Statement A → App World A
send statement w = answer (w.faults 0) statement w

abbrev pub invalid_text : Error
invalid_text = pg_error "22P02" "invalid input syntax for type uuid"

abbrev pub null_violation : Error
null_violation = pg_error "23502" "null value violates not-null constraint"

abbrev pub foreign_key_violation : Error
foreign_key_violation = pg_error "23503" "insert violates foreign key constraint"

abbrev pub unique_violation : Error
unique_violation = pg_error "23505" "duplicate key value violates unique constraint"

-- A text in the place of a UUID.
abbrev pub read_uuid : {A : Type 0} → Option String → (String → Statement A) → Statement A
read_uuid none statement db = (err invalid_text, db)
read_uuid (some u) statement db = statement u db

-- A constraint of a table.
abbrev pub check : {A : Type 0} → Bool → Error → Statement A → Statement A
check holds e statement db = if holds then statement db else (err e, db)

-- A SELECT that returns one row.
abbrev pub one_row : {A : Type 0} → Option A → Statement A
one_row (some row) db = (ok row, db)
one_row none db = (err no_rows, db)

abbrev pub is_none : {A : Type 0} → Option A → Bool
is_none none = true
is_none (some _) = false

module _ {R : Type 0} (created : R → Time) where
  -- ORDER BY created_at; rows of one time stay in their order
  unfoldable pub insert_by : R → List R → List R
  insert_by r [] = r ∷ []
  insert_by r (x ∷ rows) =
      if leb_ℤ (created r) (created x) then r ∷ x ∷ rows else x ∷ insert_by r rows

  unfoldable pub order_by : List R → List R
  unfolding insert_by
  order_by [] = []
  order_by (r ∷ rows) = insert_by r (order_by rows)

module _ (pg : Engine) where
  open pg use {uuid, micros}

  -- a time as the table keeps it
  abbrev pub kept : Timestamptz → Timestamptz
  kept t = record t { time = micros t.time }

  unfoldable pub insert_event : EventRow → App World (Unit {0})
  unfolding send lookup
  insert_event row = send (
      read_uuid (uuid row.id) λ id. read_uuid (uuid row.user_id) λ user_id db.
        check (row.created_at.valid && row.updated_at.valid) null_violation
          (check (is_none (lookup (λ (r : EventRow). r.id) id db.events)) unique_violation (
            check (not (is_none (lookup (λ (r : UserRow). r.id) user_id db.users)))
              foreign_key_violation
              λ db. (
                ok tt,
                record db {
                  events =
                      db.events
                      ++ record row {
                        id = id;
                        user_id = user_id;
                        created_at = kept row.created_at;
                        updated_at = kept row.updated_at;
                      }
                        ∷ [];
                },
              )))
          db)

  unfoldable pub get_event_by_id : String → App World EventRow
  unfolding send lookup
  get_event_by_id id =
      send (read_uuid (uuid id) λ u db. one_row (lookup (λ (r : EventRow). r.id) u db.events) db)

  unfoldable pub list_events : App World (List EventRow)
  unfolding send order_by
  list_events = send (λ db. (ok (order_by (λ (r : EventRow). r.created_at.time) db.events), db))

  -- the SET clause of UpdateEvent
  abbrev pub set_event : (name description : String) → Timestamptz → EventRow → EventRow
  set_event name description updated_at row = record row {
    name = name;
    description = description;
    updated_at = kept updated_at;
  }

  -- The number of rows that were changed is returned.
  unfoldable pub update_event : (id name description : String) → Timestamptz → App World ℕ
  unfolding send update count
  update_event id name description updated_at = send (
      read_uuid (uuid id) λ u db.
        check (updated_at.valid || is_none (lookup (λ (r : EventRow). r.id) u db.events))
          null_violation
          (λ db. (
            ok (count (λ (r : EventRow). r.id) u db.events),
            record db {
              events =
                  update (λ (r : EventRow). r.id) u (set_event name description updated_at)
                    db.events;
            },
          ))
          db)

  unfoldable pub delete_event : String → App World ℕ
  unfolding send delete count
  delete_event id = send (
      read_uuid (uuid id) λ u db. (
        ok (count (λ (r : EventRow). r.id) u db.events),
        record db { events = delete (λ (r : EventRow). r.id) u db.events },
      ))

  -- A row that was inserted.
  pub insert_event-ok :
      (row : EventRow) (w w' : World)
      → insert_event row w ≡ (ok tt, w')
      → (id user_id : String) × (uuid row.id ≡ some id)
        × (uuid row.user_id ≡ some user_id)
        × (lookup (λ (r : EventRow). r.id) id w.db.events ≡ none)
        × (w'.db.events
            ≡ w.db.events
              ++ record row {
                id = id;
                user_id = user_id;
                created_at = kept row.created_at;
                updated_at = kept row.updated_at;
              }
                ∷ [])
  unfolding insert_event
  insert_event-ok row w w' h = ground arith

  pub update_event-ok :
      (id name description : String) (updated_at : Timestamptz) (w w' : World) (n : ℕ)
      → update_event id name description updated_at w ≡ (ok n, w')
      → (u : String) × (uuid id ≡ some u)
        × (w'.db.events
            ≡ update (λ (r : EventRow). r.id) u (set_event name description updated_at) w.db.events)
  unfolding update_event
  update_event-ok id name description updated_at w w' n h = ground arith

  pub delete_event-ok :
      (id : String) (w w' : World) (n : ℕ)
      → delete_event id w ≡ (ok n, w')
      → (u : String) × (uuid id ≡ some u)
        × (w'.db.events ≡ delete (λ (r : EventRow). r.id) u w.db.events)
  unfolding delete_event
  delete_event-ok id w w' n h = ground arith
