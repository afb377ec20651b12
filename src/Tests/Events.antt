-- ===== src/Tests/Events.antt =====
-- The event service over PostgreSQL.
use text.Mathlib.TextEquality.{eq_iff}
use agent_events.Prelude.{◌≡◌, refl, ◌≢◌, some, List, [], ◌∷◌, arith}
use agent_events.Apperr.{forbidden}
use agent_events.Exec.{err}
use agent_events.Postgres.Events.{event_repository, get}
use agent_events.Postgres.Table.{lookup}
use agent_events.Postgres.Schema.{event_from_row}
use agent_events.Postgres.Events.View.{events_in, event_model, events_at}
use agent_events.Postgres.Events.Laws.{event_repository-EventRepositoryLaws}
use agent_events.World.{World, memory_limiter, allow_in, journal_logger, world_runtime}
use agent_events.Server.{event_service, db-KeepsView}
use agent_events.Usecase.{Actor}
use agent_events.Usecase.Event
use agent_events.Usecase.Event.{EventService, UpdateEventInput, CreateEventInput}
use agent_events.Text.{◌^^◌}
use agent_events.Port.Laws.{KeepsView, EventRepositoryLaws}
use agent_events.Usecase.Event.Fails.{UpdateFails, DeleteFails, CreateFails}
use agent_events.Usecase.Event.Outcome.{UpdateOutcome, DeleteOutcome, CreateOutcome}
use agent_events.Usecase.Event.CreateRefines.{create-refines}
use agent_events.Usecase.Event.Refines.{update-refines, delete-refines}
use agent_events.Usecase.Event.Ownership.{
  Request, update_event, delete_event, list_events, replay-keeps_others, replay,
}
use agent_events.Tests.Fixtures.{engine, world, limits, ann, bob, launch}

abbrev service : EventService World
service = event_service engine limits

bob_is_denied :
    (Event.delete service bob "e1" world).0 ≡ err (forbidden "event does not belong to you")
unfolding Event.delete get
bob_is_denied = refl

abbrev history : List (Actor × Request)
history =
    (bob, delete_event "e1")
    ∷ (bob, update_event "e1" (record { name = "mine"; description = "" }))
    ∷ (bob, list_events)
    ∷ []

bob_is_not_ann : (c : Actor) → c.user_id ≡ "bob" → launch.user_id ≢ c.user_id
bob_is_not_ann c h = ground (arith, eq_iff "ann" "bob", h)

launch_is_stored : events_at engine world "e1" ≡ some launch
unfolding event_from_row lookup
launch_is_stored = refl

-- Bob's calls leave Ann's event as it was.
replay-keeps_others_example : events_at engine (replay service history world) "e1" ≡ some launch
replay-keeps_others_example =
    replay-keeps_others service (event_model engine) (events_at engine)
      (event_repository-EventRepositoryLaws engine)
      (db-KeepsView (λ db. events_in engine db) limits) history world "e1" launch
      (bob_is_not_ann bob refl, (bob_is_not_ann bob refl, (bob_is_not_ann bob refl, tt)))
      launch_is_stored

frame : KeepsView (events_at engine) (memory_limiter limits) journal_logger world_runtime
frame = db-KeepsView (λ db. events_in engine db) limits

event_repository-EventRepositoryLaws_example :
    EventRepositoryLaws (event_model engine) (events_at engine) (event_repository engine)
event_repository-EventRepositoryLaws_example = event_repository-EventRepositoryLaws engine

abbrev rename : UpdateEventInput
rename = record { name = "relaunch"; description = "again" }

update-refines_example :
    UpdateOutcome
      (UpdateFails service ann "e1" rename world)
      (event_model engine)
      ann
      "e1"
      rename
      (events_at engine world)
      (events_at engine (Event.update service ann "e1" rename world).1)
      (Event.update service ann "e1" rename world).0
update-refines_example =
    update-refines service (event_model engine) (events_at engine)
      (event_repository-EventRepositoryLaws engine) frame ann "e1" rename world

delete-refines_example :
    DeleteOutcome
      (DeleteFails service ann "e1" world)
      (event_model engine)
      ann
      "e1"
      (events_at engine world)
      (events_at engine (Event.delete service ann "e1" world).1)
      (Event.delete service ann "e1" world).0
delete-refines_example =
    delete-refines service (event_model engine) (events_at engine)
      (event_repository-EventRepositoryLaws engine) frame ann "e1" world

abbrev party : CreateEventInput
party = record { name = "party"; description = "" }

create-refines_example :
    CreateOutcome
      (CreateFails service bob party world)
      (event_model engine)
      bob
      party
      (allow_in limits ("user:" ^^ bob.user_id) Event.action_create_event world).0
      (events_at engine world)
      (events_at engine (Event.create service bob party world).1)
      (Event.create service bob party world).0
create-refines_example =
    create-refines service (event_model engine) (events_at engine)
      (event_repository-EventRepositoryLaws engine) frame bob party world
