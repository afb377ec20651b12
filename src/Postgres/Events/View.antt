-- ===== src/Postgres/Events/View.antt =====
-- server/internal/adapters/postgres/event_repository.go: the events of the table as the port sees
-- them, and how they change with a row.
use agent_events.Postgres.Ids.{canonical_or, same_some, kept_time, kept-read}
use mathlib.Core.Option
use mathlib.Core.Option.{some-injective, none-ne-some}
use mathlib.Core.Path.{ap₂}
use agent_events.Prelude.{
  String, ◌≡◌, refl, ap, [], ◌∷◌, ◌++◌, inl, inr, Option, none, some, List, arith, ◌==◌, eq_iff,
  Bool-cases, Option-cases, if◌then◌else◌,
}
use agent_events.Domain.{Event}
use agent_events.Port.Laws.{Events, EventModel, revise}
use agent_events.World.{World}
use agent_events.Postgres.Table.{
  lookup, lookup-append, lookup-update, lookup-delete, update-absent, delete-absent, key-lookup,
}
use agent_events.Postgres.Table
use agent_events.Postgres.Query.{set_event, kept}
use agent_events.Postgres.Schema.{Db, EventRow, Engine, timestamptz, event_from_row}

module _ (pg : Engine) where
  open pg use {uuid, micros, uuid_canonical}

  -- The event that an id names in the tables.
  abbrev pub find_event : List EventRow → Option String → Option Event
  find_event rows none = none
  find_event rows (some u) = Option.map event_from_row (lookup (λ (r : EventRow). r.id) u rows)

  abbrev pub events_in : Db → Events
  events_in db id = find_event db.events (uuid id)

  abbrev pub events_at : World → Events
  events_at w = events_in w.db

  -- PostgreSQL keeps ids in their canonical form, and microseconds of times.
  abbrev pub stored_event : Event → Event
  stored_event e = record e {
    id = canonical_or (uuid e.id) e.id;
    user_id = canonical_or (uuid e.user_id) e.user_id;
    created_at = kept_time pg e.created_at;
    updated_at = kept_time pg e.updated_at;
  }

  abbrev pub event_model : EventModel
  event_model = record { stored = stored_event; same = λ i j. same_some (uuid i) (uuid j) }

  pub find-delete :
      (u : String) (rows : List EventRow) (o : Option String)
      → find_event (Table.delete (λ (r : EventRow). r.id) u rows) o
        ≡ (if same_some o (some u) then none else find_event rows o)
  find-delete u rows none = refl
  find-delete u rows (some v) = rw lookup-delete (ground arith)

  -- The row that an update of `e` leaves, as an event.
  pub event_from_row-set_event :
      (e : Event) (row : EventRow)
      → event_from_row (set_event pg e.name e.description (timestamptz e.updated_at) row)
        ≡ revise event_model e (event_from_row row)
  unfolding event_from_row
  event_from_row-set_event e row =
      ap
        (λ t. record (event_from_row row) {
          name = e.name;
          description = e.description;
          updated_at = t;
        })
        (kept-read pg e.updated_at)

  pub find-update :
      (u : String) (e : Event) (rows : List EventRow) (o : Option String)
      → find_event
          (Table.update
            (λ (r : EventRow). r.id)
            u
            (set_event pg e.name e.description (timestamptz e.updated_at))
            rows)
          o
        ≡ (if same_some o (some u)
            then Option.map (revise event_model e) (find_event rows o)
            else find_event rows o)
  find-update u e rows none = refl
  find-update u e rows (some v) =
      rw
        (lookup-update (λ (r : EventRow). r.id) u v
          (set_event pg e.name e.description (timestamptz e.updated_at)) (λ r. refl))
        (elim (Bool-cases (v == u)) [
          | inr other ↦ rw other
          | inl same ↦ rw same (elim (Option-cases (lookup (λ (r : EventRow). r.id) v rows)) [
            | inl missing ↦ rw missing
            | inr (row, found) ↦ rw found (ap some (event_from_row-set_event e row))
          ])
        ])

  -- The row that is inserted for `e`.
  abbrev pub inserted : Event → String → String → EventRow
  inserted e u v = record {
    id = u;
    user_id = v;
    name = e.name;
    description = e.description;
    created_at = kept pg (timestamptz e.created_at);
    updated_at = kept pg (timestamptz e.updated_at);
  }

  pub event_from_row-inserted :
      (e : Event) (u v : String)
      → uuid e.id ≡ some u
      → uuid e.user_id ≡ some v
      → event_from_row (inserted e u v) ≡ stored_event e
  unfolding event_from_row
  event_from_row-inserted e u v named owned =
      rw (named, owned)
        (ap₂ (λ t t'. record e { id = u; user_id = v; created_at = t; updated_at = t' })
          (kept-read pg e.created_at) (kept-read pg e.updated_at))

  pub find-insert :
      (u : String) (row : EventRow) (rows : List EventRow) (o : Option String)
      → lookup (λ (r : EventRow). r.id) row.id rows ≡ none
      → row.id ≡ u
      → find_event (rows ++ row ∷ []) o
        ≡ (if same_some o (some u) then some (event_from_row row) else find_event rows o)
  find-insert u row rows none fresh named = refl
  find-insert u row rows (some v) fresh named =
      rw (lookup-append (λ (r : EventRow). r.id) v row rows fresh, named)
        (ground (arith, eq_iff u v, eq_iff v u))
