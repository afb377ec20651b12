-- ===== src/Usecase/Event.antt =====
-- server/internal/core/usecase/event.go: the event service, over any implementation of its ports.
pub mod Outcome
pub mod Fails
pub mod Refines
pub mod CreateRefines
pub mod Ownership
pub mod Keeps
use agent_events.Prelude.{
  String, Bool, true, false, Option, none, some, List, [], ◌∷◌, length, not, ◌==◌, if◌then◌else◌,
}
use agent_events.Prelude.Int.{pos}
use agent_events.Text.{◌^^◌}
use agent_events.Apperr.{
  Error, Sentinel, sentinel_text, event_not_found, is, not_found, invalid, forbidden, too_many,
  wrap_error,
}
use agent_events.Exec.{App, pure, fail, catch, lift, when, ◌>>=◌, ◌>>◌}
use agent_events.Domain.{Event, validate_event}
use agent_events.Port.{
  EventRepository, RateLimiter, Logger, Runtime, Field, str, int, err_field, debug, info, warn,
  error_log,
}
use agent_events.Usecase.{Actor}

abbrev pub action_create_event : String
action_create_event = "event.create"

-- type CreateEventInput struct
pub record CreateEventInput : Type 0 where
  pub name : String
  pub description : String

-- type UpdateEventInput struct
pub record UpdateEventInput : Type 0 where
  pub name : String
  pub description : String

-- type EventService struct, with the runtime that its methods read
pub record EventService (W : Type 0) : Type 0 where
  pub repo : EventRepository W
  pub limiter : RateLimiter W
  pub logger : Logger W
  pub runtime : Runtime W

module _ {W : Type 0} (s : EventService W) where
  -- `if err := event.Validate(); err != nil { … }`
  reject_invalid : String → List Field → Event → App W (Unit {0})
  reject_invalid msg fields event = elim (validate_event event) [
    | none ↦ pure tt
    | some e ↦ (do
      warn s.logger msg (err_field (Error.sentinel e) ∷ fields)
      fail (invalid (sentinel_text e)))
  ]

  -- `EventService.Create`, from the reading of the clock to the end
  save_new : Actor → CreateEventInput → App W Event
  unfolding reject_invalid
  save_new actor input = do
    now ← lift s.runtime.now
    id ← lift s.runtime.new_uuid
    let event : Event = record {
      id = id;
      user_id = actor.user_id;
      name = input.name;
      description = input.description;
      created_at = now;
      updated_at = now;
    }
    reject_invalid "event rejected" [] event
    saved ← catch (s.repo.save event) λ e. do
      error_log s.logger "failed to save event" (err_field e ∷ str "event_id" event.id ∷ [])
      fail (wrap_error e "could not create event")
    info s.logger "event created"
        (str "event_id" saved.id ∷ str "user_id" actor.user_id ∷ str "agent_id" actor.agent_id ∷ [])
    pure saved

  -- `EventService.Create`
  unfoldable pub create : Actor → CreateEventInput → App W Event
  unfolding save_new
  create actor input = do
    when (actor.user_id == "") (fail (invalid "user is required"))
    allowed ← catch (s.limiter.allow ("user:" ^^ actor.user_id) action_create_event) λ e. do
      error_log s.logger "event rate limit check failed" (err_field e ∷ [])
      fail (wrap_error e "could not check rate limit")
    when (not allowed) do
      warn s.logger "event create rate limited"
          (str "user_id" actor.user_id ∷ str "agent_id" actor.agent_id ∷ [])
      fail (too_many "event creation limit reached, try again later")
    save_new actor input

  -- The call of `repo.Get` in three methods, with the switch on its error: the log message for a
  -- missing event, the one for another error, and the message that wraps it.
  fetch : (missing failed wrapped id : String) → App W Event
  fetch missing failed wrapped id = catch (s.repo.get id) λ e.
      if is e event_not_found
      then (do debug s.logger missing (str "event_id" id ∷ []); fail (not_found "event not found"))
      else (do
        error_log s.logger failed (err_field e ∷ str "event_id" id ∷ [])
        fail (wrap_error e wrapped))

  -- The test of ownership in two methods.
  require_owner : String → Actor → String → Event → App W (Unit {0})
  require_owner denied actor id event = when (not (event.user_id == actor.user_id)) do
    warn s.logger denied (
        str "event_id" id
        ∷ str "requesting_user_id" actor.user_id
        ∷ str "event_user_id" event.user_id
        ∷ [])
    fail (forbidden "event does not belong to you")

  -- `EventService.Get`
  unfoldable pub get : String → App W Event
  unfolding fetch
  get id = fetch "event not found" "failed to fetch event" "could not fetch event" id

  -- `EventService.List`
  unfoldable pub list : App W (List Event)
  list = do
    events ← catch s.repo.list λ e. do
      error_log s.logger "failed to list events" (err_field e ∷ [])
      fail (wrap_error e "could not list events")
    debug s.logger "events listed" (int "count" (pos (length events)) ∷ [])
    pure events

  -- `EventService.Update`, from its assignments to the end
  write : Actor → String → UpdateEventInput → Event → App W Event
  unfolding reject_invalid
  write actor id input event = do
    now ← lift s.runtime.now
    let revised : Event = record event {
      name = input.name;
      description = input.description;
      updated_at = now;
    }
    reject_invalid "event update rejected" (str "event_id" id ∷ []) revised
    updated ← catch (s.repo.update revised) λ e. do
      error_log s.logger "failed to update event" (err_field e ∷ str "event_id" id ∷ [])
      fail (wrap_error e "could not update event")
    info s.logger "event updated" (str "event_id" updated.id ∷ str "user_id" actor.user_id ∷ [])
    pure updated

  -- `EventService.Update`
  unfoldable pub update : Actor → String → UpdateEventInput → App W Event
  unfolding fetch require_owner write
  update actor id input = do
    event ←
        fetch "event to update not found" "failed to fetch event for update"
          "could not update event" id
    require_owner "event update denied for non-user" actor id event
    write actor id input event

  -- `EventService.Delete`
  unfoldable pub delete : Actor → String → App W (Unit {0})
  unfolding fetch require_owner
  delete actor id = do
    event ←
        fetch "event to delete not found" "failed to fetch event for delete"
          "could not delete event" id
    require_owner "event delete denied for non-user" actor id event
    catch (s.repo.delete id) λ e. do
      error_log s.logger "failed to delete event" (err_field e ∷ str "event_id" id ∷ [])
      fail (wrap_error e "could not delete event")
    info s.logger "event deleted" (str "event_id" id ∷ str "user_id" actor.user_id ∷ [])
    pure tt
