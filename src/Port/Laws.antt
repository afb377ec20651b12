-- ===== src/Port/Laws.antt =====
-- What the use cases rely on of the implementations of their ports.
use mathlib.Core.Option
use mathlib.Core.List.{Mem}
use agent_events.Prelude.{String, ◌≡◌, Bool, true, Option, none, some, List, if◌then◌else◌}
use agent_events.Apperr.{Error, event_not_found, is}
use agent_events.Exec.{ok, err}
use agent_events.Domain.{Event}
use agent_events.Port.{EventRepository, RateLimiter, Logger, Runtime, Level, Field}

-- The events that a store holds, seen from outside: the event that an id names.
abbrev pub Events : Type 0
Events = String → Option Event

-- The form in which a store gives back an event that was written, and when two texts spell one id.
pub record EventModel : Type 0 where
  pub stored : Event → Event
  pub same : String → String → Bool

-- The event `old` after an update by `new`: its id, its owner and its creation time stay.
abbrev pub revise : EventModel → Event → Event → Event
revise m new old = record old {
  name = (m.stored new).name;
  description = (m.stored new).description;
  updated_at = (m.stored new).updated_at;
}

-- What an event repository promises, for each outcome of each method.
pub record EventRepositoryLaws {W : Type 0} (m : EventModel) (at : W → Events)
    (repo : EventRepository W) : Type 0 where
  -- Two spellings of one id name one event, and an event is found under a spelling of its id.
  pub at_same : (i j : String) (w : W) → m.same i j ≡ true → at w i ≡ at w j
  pub same_id : (i : String) (w : W) (e : Event) → at w i ≡ some e → m.same i e.id ≡ true
  pub get_ok :
      (i : String) (w w' : W) (e : Event)
      → repo.get i w ≡ (ok e, w')
      → (at w' ≡ at w) × (at w i ≡ some e)
  pub get_err :
      (i : String) (w w' : W) (x : Error)
      → repo.get i w ≡ (err x, w')
      → (at w' ≡ at w) × (is x event_not_found ≡ true → at w i ≡ none)
  pub list_quiet : (w : W) → at (repo.list w).1 ≡ at w
  -- A list leaves out no event that some id names.
  pub list_all :
      (w w' : W) (events : List Event) (i : String) (e : Event)
      → repo.list w ≡ (ok events, w')
      → at w i ≡ some e
      → Mem e events
  pub save_ok :
      (e : Event) (w w' : W) (r : Event)
      → repo.save e w ≡ (ok r, w')
      → (r ≡ e)
        × (at w e.id ≡ none)
        × ((j : String) → at w' j ≡ (if m.same j e.id then some (m.stored e) else at w j))
  pub save_err : (e : Event) (w w' : W) (x : Error) → repo.save e w ≡ (err x, w') → at w' ≡ at w
  pub update_ok :
      (e : Event) (w w' : W) (r : Event)
      → repo.update e w ≡ (ok r, w')
      → (r ≡ e)
        × ((old : Event) × (at w e.id ≡ some old))
        × ((j : String)
            → at w' j ≡ (if m.same j e.id then Option.map (revise m e) (at w j) else at w j))
  pub update_err :
      (e : Event) (w w' : W) (x : Error)
      → repo.update e w ≡ (err x, w')
      → (at w' ≡ at w) × (is x event_not_found ≡ true → at w e.id ≡ none)
  pub delete_ok :
      (i : String) (w w' : W)
      → repo.delete i w ≡ (ok tt, w')
      → ((old : Event) × (at w i ≡ some old))
        × ((j : String) → at w' j ≡ (if m.same j i then none else at w j))
  pub delete_err :
      (i : String) (w w' : W) (x : Error)
      → repo.delete i w ≡ (err x, w')
      → (at w' ≡ at w) × (is x event_not_found ≡ true → at w i ≡ none)

-- The other ports of a service leave alone what `view` shows of the state.
pub record KeepsView {W X : Type 0} (view : W → X) (limiter : RateLimiter W) (logger : Logger W)
    (runtime : Runtime W) : Type 0 where
  pub allow_quiet : (key action : String) (w : W) → view (limiter.allow key action w).1 ≡ view w
  pub log_quiet :
      (l : Level) (msg : String) (fs : List Field) (w : W) → view (logger.log l msg fs w) ≡ view w
  pub now_quiet : (w : W) → view (runtime.now w).1 ≡ view w
  pub uuid_quiet : (w : W) → view (runtime.new_uuid w).1 ≡ view w
  pub random_quiet : (w : W) → view (runtime.random_bytes w).1 ≡ view w
