-- ===== src/Postgres/Events.antt =====
-- server/internal/adapters/postgres/event_repository.go
pub mod View
pub mod Listed
pub mod Laws
use agent_events.Prelude.{String, Bool, ℕ, eqb, List, map, if◌then◌else◌}
use agent_events.Apperr.{sentinel, event_not_found}
use agent_events.Exec.{App, pure, fail, catch, when, ◌>>=◌, ◌>>◌}
use agent_events.Domain.{Event}
use agent_events.Port.{EventRepository}
use agent_events.World.{World}
use agent_events.Postgres.Schema.{EventRow, Engine, timestamptz, event_from_row}
use agent_events.Postgres.Errors.{as_not_found}
use agent_events.Postgres.Query.{
  insert_event, get_event_by_id, list_events, update_event, delete_event,
}

module _ (pg : Engine) where
  -- `EventRepository.Save`
  unfoldable pub save : Event → App World Event
  unfolding insert_event timestamptz
  save event = do
    insert_event pg (record {
      id = event.id;
      user_id = event.user_id;
      name = event.name;
      description = event.description;
      created_at = timestamptz event.created_at;
      updated_at = timestamptz event.updated_at;
    })
    pure event

  -- `EventRepository.Get`
  unfoldable pub get : String → App World Event
  unfolding get_event_by_id as_not_found event_from_row
  get id = do
    row ← catch (get_event_by_id pg id) λ e. fail (as_not_found e event_not_found)
    pure (event_from_row row)

  -- `EventRepository.List`
  unfoldable pub list : App World (List Event)
  unfolding list_events event_from_row
  list = do rows ← list_events pg; pure (map event_from_row rows)

  -- `EventRepository.Update`
  unfoldable pub update : Event → App World Event
  unfolding update_event timestamptz
  update event = do
    affected ← update_event pg event.id event.name event.description (timestamptz event.updated_at)
    when (eqb affected 0) (fail (sentinel event_not_found))
    pure event

  -- `EventRepository.Delete`
  unfoldable pub delete : String → App World (Unit {0})
  unfolding delete_event
  delete id = do
    affected ← delete_event pg id
    when (eqb affected 0) (fail (sentinel event_not_found))
    pure tt

  abbrev pub event_repository : EventRepository World
  event_repository = record {
    save = save;
    get = get;
    list = list;
    update = update;
    delete = delete;
  }
