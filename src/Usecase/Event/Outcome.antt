-- ===== src/Usecase/Event/Outcome.antt =====
-- server/internal/core/usecase/event.go: the contracts of the methods, in terms of the stored
-- events alone: how the events before the call, those after it and the result are related. The
-- errors of the ports that a method may wrap are those of which `fails` holds; Fails.antt has them.
use agent_events.Prelude.{String, ◌≡◌, ◌≢◌, Bool, true, false, none, some, if◌then◌else◌}
use agent_events.Text.{trim_space}
use agent_events.Time.{Time}
use agent_events.Apperr.{Error, not_found, invalid, forbidden, too_many, wrap_error}
use agent_events.Exec.{Result, ok, err}
use agent_events.Domain.{Event}
use agent_events.Port.Laws.{Events, EventModel, revise}
use agent_events.Usecase.{Actor}
use agent_events.Usecase.Event.{CreateEventInput, UpdateEventInput}

-- The event that `create` makes.
abbrev pub new_event : Actor → CreateEventInput → String → Time → Event
new_event actor input id now = record {
  id = id;
  user_id = actor.user_id;
  name = input.name;
  description = input.description;
  created_at = now;
  updated_at = now;
}

-- The event that `update` writes over `old`.
abbrev pub revised_event : UpdateEventInput → Time → Event → Event
revised_event input now old = record old {
  name = input.name;
  description = input.description;
  updated_at = now;
}

-- `verdict` is the answer of the rate limiter.
pub data CreateOutcome (fails : Error → Type 0) (m : EventModel) (actor : Actor)
    (input : CreateEventInput) (verdict : Result Bool) (before after : Events)
    : Result Event → Type 0 where
  no_user :
      actor.user_id ≡ ""
      → after ≡ before
      → CreateOutcome fails m actor input verdict before after (err (invalid "user is required"))
  unchecked :
      (e : Error)
      → actor.user_id ≢ ""
      → verdict ≡ err e
      → after ≡ before
      → CreateOutcome fails m actor input verdict before after
          (err (wrap_error e "could not check rate limit"))
  limited :
      actor.user_id ≢ ""
      → verdict ≡ ok false
      → after ≡ before
      → CreateOutcome fails m actor input verdict before after
          (err (too_many "event creation limit reached, try again later"))
  blank_name :
      actor.user_id ≢ ""
      → verdict ≡ ok true
      → trim_space input.name ≡ ""
      → after ≡ before
      → CreateOutcome fails m actor input verdict before after
          (err (invalid "event name is required"))
  failed :
      (e : Error)
      → fails e
      → after ≡ before
      → CreateOutcome fails m actor input verdict before after
          (err (wrap_error e "could not create event"))
  created :
      (id : String) (now : Time)
      → actor.user_id ≢ ""
      → verdict ≡ ok true
      → trim_space input.name ≢ ""
      → before id ≡ none
      → ((j : String)
          → after j
            ≡ (if m.same j id then some (m.stored (new_event actor input id now)) else before j))
      → CreateOutcome fails m actor input verdict before after (ok (new_event actor input id now))

pub data UpdateOutcome (fails : Error → Type 0) (m : EventModel) (actor : Actor) (id : String)
    (input : UpdateEventInput) (before after : Events) : Result Event → Type 0 where
  missing :
      before id ≡ none
      → after ≡ before
      → UpdateOutcome fails m actor id input before after (err (not_found "event not found"))
  denied :
      (old : Event)
      → before id ≡ some old
      → old.user_id ≢ actor.user_id
      → after ≡ before
      → UpdateOutcome fails m actor id input before after
          (err (forbidden "event does not belong to you"))
  blank_name :
      (old : Event)
      → before id ≡ some old
      → old.user_id ≡ actor.user_id
      → trim_space input.name ≡ ""
      → after ≡ before
      → UpdateOutcome fails m actor id input before after (err (invalid "event name is required"))
  failed :
      (e : Error)
      → fails e
      → after ≡ before
      → UpdateOutcome fails m actor id input before after
          (err (wrap_error e "could not update event"))
  updated :
      (old : Event) (now : Time)
      → before id ≡ some old
      → old.user_id ≡ actor.user_id
      → trim_space input.name ≢ ""
      → ((j : String)
          → after j ≡ (
              if m.same j old.id
              then some (revise m (revised_event input now old) old)
              else before j))
      → UpdateOutcome fails m actor id input before after (ok (revised_event input now old))

pub data DeleteOutcome (fails : Error → Type 0) (m : EventModel) (actor : Actor) (id : String)
    (before after : Events) : Result (Unit {0}) → Type 0 where
  missing :
      before id ≡ none
      → after ≡ before
      → DeleteOutcome fails m actor id before after (err (not_found "event not found"))
  denied :
      (old : Event)
      → before id ≡ some old
      → old.user_id ≢ actor.user_id
      → after ≡ before
      → DeleteOutcome fails m actor id before after (err (forbidden "event does not belong to you"))
  failed :
      (e : Error)
      → fails e
      → after ≡ before
      → DeleteOutcome fails m actor id before after (err (wrap_error e "could not delete event"))
  deleted :
      (old : Event)
      → before id ≡ some old
      → old.user_id ≡ actor.user_id
      → ((j : String) → after j ≡ (if m.same j id then none else before j))
      → DeleteOutcome fails m actor id before after (ok tt)

pub data GetOutcome (fails : Error → Type 0) (id : String) (before after : Events)
    : Result Event → Type 0 where
  missing :
      before id ≡ none
      → after ≡ before
      → GetOutcome fails id before after (err (not_found "event not found"))
  failed :
      (e : Error)
      → fails e
      → after ≡ before
      → GetOutcome fails id before after (err (wrap_error e "could not fetch event"))
  found :
      (e : Event) → before id ≡ some e → after ≡ before → GetOutcome fails id before after (ok e)
