-- ===== src/Usecase/Event/Fails.antt =====
-- server/internal/core/usecase/event.go: the failures of the ports that the methods pass on. Each
-- type holds of an error just where a call that the method makes has failed with it, and says what
-- the calls before that one returned.
use agent_events.Prelude.{String, ◌≡◌, ◌≢◌, true, false}
use agent_events.Text.{◌^^◌, trim_space}
use agent_events.Apperr.{Error, event_not_found, is}
use agent_events.Exec.{ok, err}
use agent_events.Domain.{Event}
use agent_events.Usecase.{Actor}
use agent_events.Usecase.Event.{
  EventService, CreateEventInput, UpdateEventInput, action_create_event,
}
use agent_events.Usecase.Event.Outcome.{new_event, revised_event}

pub data GetFails {W : Type 0} (s : EventService W) (id : String) (w : W) : Error → Type 0 where
  unread :
      (e : Error) (w' : W)
      → s.repo.get id w ≡ (err e, w')
      → is e event_not_found ≡ false
      → GetFails s id w e

pub data CreateFails {W : Type 0} (s : EventService W) (actor : Actor) (input : CreateEventInput)
    (w : W) : Error → Type 0 where
  unsaved :
      (e : Error) (w₁ w₂ : W)
      → actor.user_id ≢ ""
      → s.limiter.allow ("user:" ^^ actor.user_id) action_create_event w ≡ (ok true, w₁)
      → trim_space input.name ≢ ""
      → s.repo.save
          (new_event actor input (s.runtime.new_uuid (s.runtime.now w₁).1).0 (s.runtime.now w₁).0)
          (s.runtime.new_uuid (s.runtime.now w₁).1).1
        ≡ (err e, w₂)
      → CreateFails s actor input w e

pub data UpdateFails {W : Type 0} (s : EventService W) (actor : Actor) (id : String)
    (input : UpdateEventInput) (w : W) : Error → Type 0 where
  unread :
      (e : Error) (w' : W)
      → s.repo.get id w ≡ (err e, w')
      → is e event_not_found ≡ false
      → UpdateFails s actor id input w e
  unwritten :
      (e : Error) (old : Event) (w₁ w₂ : W)
      → s.repo.get id w ≡ (ok old, w₁)
      → old.user_id ≡ actor.user_id
      → trim_space input.name ≢ ""
      → s.repo.update (revised_event input (s.runtime.now w₁).0 old) (s.runtime.now w₁).1
        ≡ (err e, w₂)
      → UpdateFails s actor id input w e

pub data DeleteFails {W : Type 0} (s : EventService W) (actor : Actor) (id : String) (w : W)
    : Error → Type 0 where
  unread :
      (e : Error) (w' : W)
      → s.repo.get id w ≡ (err e, w')
      → is e event_not_found ≡ false
      → DeleteFails s actor id w e
  undeleted :
      (e : Error) (old : Event) (w₁ w₂ : W)
      → s.repo.get id w ≡ (ok old, w₁)
      → old.user_id ≡ actor.user_id
      → s.repo.delete id w₁ ≡ (err e, w₂)
      → DeleteFails s actor id w e
