-- ===== src/Postgres/Events/Laws.antt =====
-- server/internal/adapters/postgres/event_repository.go against the laws of its port.
use agent_events.Postgres.Ids.{same_some, eq_of_same_some}
use mathlib.Core.Option
use mathlib.Core.Option.{some-injective, none-ne-some}
use agent_events.Prelude.{
  String, eqb, false, ◌≡◌, refl, sym, ap, ◌∙◌, [], ◌∷◌, ◌++◌, inl, inr, true, none, some, arith,
  eq_refl, Option-cases, if◌then◌else◌,
}
use agent_events.Apperr.{Error, event_not_found, is}
use agent_events.Exec.{ok, err}
use agent_events.Domain.{Event}
use agent_events.Port.Laws.{EventRepositoryLaws, revise}
use agent_events.World.{World}
use agent_events.Postgres.Table.{
  lookup, lookup-append, lookup-update, lookup-delete, update-absent, delete-absent, key-lookup,
  lookup-absent, lookup-counted,
}
use agent_events.Postgres.Table
use agent_events.Postgres.Query.{set_event}
use agent_events.Postgres.Schema.{EventRow, Engine, timestamptz, event_from_row}
use agent_events.Postgres.Events.{save, get, list, update, delete, event_repository}
use agent_events.Postgres.Events.Listed.{list-all}
use agent_events.Postgres.Events.View.{
  find_event, events_at, stored_event, event_model, find-delete, find-update, inserted,
  event_from_row-inserted, find-insert,
}

module _ (pg : Engine) where
  open pg use {uuid, micros, uuid_canonical}

  get-ok :
      (i : String) (w w' : World) (e : Event)
      → get pg i w ≡ (ok e, w')
      → (events_at pg w' ≡ events_at pg w) × (events_at pg w i ≡ some e)
  unfolding get
  get-ok i w w' e h = ground arith

  get-err :
      (i : String) (w w' : World) (x : Error)
      → get pg i w ≡ (err x, w')
      → (events_at pg w' ≡ events_at pg w) × (is x event_not_found ≡ true → events_at pg w i ≡ none)
  unfolding get is
  get-err i w w' x h = ground arith

  list-quiet : (w : World) → events_at pg (list pg w).1 ≡ events_at pg w
  unfolding list
  list-quiet w = ground arith

  save-ok :
      (e : Event) (w w' : World) (r : Event)
      → save pg e w ≡ (ok r, w')
      → (r ≡ e)
        × (events_at pg w e.id ≡ none)
        × ((j : String)
            → events_at pg w' j ≡ (
                if same_some (uuid j) (uuid e.id)
                then some (stored_event pg e)
                else events_at pg w j))
  unfolding save
  save-ok e w w' r h =
      let done : (u v : String) × (uuid e.id ≡ some u)
          × (uuid e.user_id ≡ some v)
          × (lookup (λ (r : EventRow). r.id) u w.db.events ≡ none)
          × (w'.db.events ≡ w.db.events ++ inserted pg e u v ∷ []) =
        ground arith in
      let row = inserted pg e done.0 done.1 in
      (
        ground arith,
        rw (done.2, done.4),
        λ j.
            rw (done.5, ← event_from_row-inserted pg e done.0 done.1 done.2 done.3, done.2)
              (find-insert pg done.0 row w.db.events (uuid j) done.4 refl),
      )

  save-err :
      (e : Event) (w w' : World) (x : Error)
      → save pg e w ≡ (err x, w')
      → events_at pg w' ≡ events_at pg w
  unfolding save
  save-err e w w' x h = ground arith

  -- A statement that finds a row to change, or finds none.
  stored-counted :
      (i : String) (w : World)
      → ((u : String) × (uuid i ≡ some u)
          × (eqb (Table.count (λ (r : EventRow). r.id) u w.db.events) 0 ≡ false))
      → (old : Event) × (events_at pg w i ≡ some old)
  stored-counted i w (u, named, more) =
      let (row, found) = lookup-counted (λ (r : EventRow). r.id) u w.db.events more in
      (event_from_row row, rw (named, found) refl)

  update-ok :
      (e : Event) (w w' : World) (r : Event)
      → update pg e w ≡ (ok r, w')
      → (r ≡ e)
        × ((old : Event) × (events_at pg w e.id ≡ some old))
        × ((j : String)
            → events_at pg w' j ≡ (
                if same_some (uuid j) (uuid e.id)
                then Option.map (revise (event_model pg) e) (events_at pg w j)
                else events_at pg w j))
  unfolding update
  update-ok e w w' r h = (
    ground arith,
    stored-counted e.id w (ground arith),
    λ j.
        let changed : (u : String) × (uuid e.id ≡ some u)
            × (w'.db.events
                ≡ Table.update (λ (r : EventRow). r.id) u
                    (set_event pg e.name e.description (timestamptz e.updated_at)) w.db.events) =
          ground arith in
        rw (changed.2, changed.1) (find-update pg changed.0 e w.db.events (uuid j)),
  )

  update-err :
      (e : Event) (w w' : World) (x : Error)
      → update pg e w ≡ (err x, w')
      → (events_at pg w' ≡ events_at pg w)
        × (is x event_not_found ≡ true → events_at pg w e.id ≡ none)
  unfolding update is
  update-err e w w' x h = elim (Option-cases (uuid e.id)) [
    | inl bad ↦ ground (arith, bad)
    | inr (u, named) ↦ ground (
      arith,
      named,
      lookup-absent (λ (r : EventRow). r.id) u w.db.events,
      update-absent (λ (r : EventRow). r.id) u
          (set_event pg e.name e.description (timestamptz e.updated_at)) w.db.events,
    )
  ]

  delete-ok :
      (i : String) (w w' : World)
      → delete pg i w ≡ (ok tt, w')
      → ((old : Event) × (events_at pg w i ≡ some old))
        × ((j : String)
            → events_at pg w' j ≡ (if same_some (uuid j) (uuid i) then none else events_at pg w j))
  unfolding delete
  delete-ok i w w' h = (
    stored-counted i w (ground arith),
    λ j.
        let changed : (u : String) × (uuid i ≡ some u)
            × (w'.db.events ≡ Table.delete (λ (r : EventRow). r.id) u w.db.events) =
          ground arith in
        rw (changed.2, changed.1) (find-delete pg changed.0 w.db.events (uuid j)),
  )

  delete-err :
      (i : String) (w w' : World) (x : Error)
      → delete pg i w ≡ (err x, w')
      → (events_at pg w' ≡ events_at pg w) × (is x event_not_found ≡ true → events_at pg w i ≡ none)
  unfolding delete is
  delete-err i w w' x h = elim (Option-cases (uuid i)) [
    | inl bad ↦ ground (arith, bad)
    | inr (u, named) ↦ ground (
      arith,
      named,
      lookup-absent (λ (r : EventRow). r.id) u w.db.events,
      delete-absent (λ (r : EventRow). r.id) u w.db.events,
    )
  ]

  at-same :
      (i j : String) (w : World)
      → same_some (uuid i) (uuid j) ≡ true
      → events_at pg w i ≡ events_at pg w j
  at-same i j w h = ap (find_event pg w.db.events) (eq_of_same_some (uuid i) (uuid j) h)

  same-id :
      (i : String) (w : World) (e : Event)
      → events_at pg w i ≡ some e
      → same_some (uuid i) (uuid e.id) ≡ true
  unfolding event_from_row
  same-id i w e h = elim (Option-cases (uuid i)) [
    | inl bad ↦ absurd (none-ne-some e (rw bad at h))
    | inr (u, named) ↦ elim (Option-cases (lookup (λ (r : EventRow). r.id) u w.db.events)) [
      | inl missing ↦ absurd (none-ne-some e (rw (named, missing) at h))
      | inr (row, found) ↦
          let from_row : event_from_row row ≡ e = some-injective _ _ (rw (named, found) at h) in
          let id-u : e.id ≡ u =
            sym (ap (λ (x : Event). x.id) from_row)
            ∙ key-lookup (λ (r : EventRow). r.id) u w.db.events row found in
          simp (named, id-u, uuid_canonical i u named) (eq_refl u)
    ]
  ]

  -- The PostgreSQL repository keeps every law of the event port: `get` returns the event that the
  -- id names, `list` leaves out no stored event, `save` stores the event under an id that was free,
  -- and `update` and `delete` succeed only where the id names an event, and change exactly that
  -- one; a method that fails changes none, and `get`, `update` and `delete` answer that the event
  -- is not found only where the id names none.
  pub event_repository-EventRepositoryLaws :
      EventRepositoryLaws (event_model pg) (events_at pg) (event_repository pg)
  event_repository-EventRepositoryLaws = record {
    at_same = at-same;
    same_id = same-id;
    get_ok = get-ok;
    get_err = get-err;
    list_quiet = list-quiet;
    list_all = list-all pg;
    save_ok = save-ok;
    save_err = save-err;
    update_ok = update-ok;
    update_err = update-err;
    delete_ok = delete-ok;
    delete_err = delete-err;
  }
