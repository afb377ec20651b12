-- ===== src/Usecase/Event/Ownership.antt =====
-- server/internal/core/usecase/event.go: histories of calls, and who may change which event.
use mathlib.Core.Option.{some-injective, none-ne-some}
use agent_events.Prelude.{
  String, ◌≡◌, ◌≢◌, sym, ◌∙◌, inl, inr, ap, Bool, true, Option, some, if◌then◌else◌, List, [], ◌∷◌,
  Bool-cases, All,
}
use agent_events.Apperr.{Error}
use agent_events.Exec.{Result}
use agent_events.Domain.{Event}
use agent_events.Port.Laws.{Events, EventModel, EventRepositoryLaws, KeepsView}
use agent_events.Usecase.{Actor}
use agent_events.Usecase.Event.{
  EventService, UpdateEventInput, CreateEventInput, create, update, delete, get, list,
}
use agent_events.Usecase.Event.Outcome.{CreateOutcome, UpdateOutcome, DeleteOutcome, GetOutcome}
use agent_events.Usecase.Event.CreateRefines.{create-refines}
use agent_events.Usecase.Event.Refines.{update-refines, delete-refines, get-refines, list-quiet}

-- A call of the event service.
pub data Request : Type 0 where
  create_event : CreateEventInput → Request
  update_event : String → UpdateEventInput → Request
  delete_event : String → Request
  get_event : String → Request
  list_events : Request

module _ {W : Type 0} (s : EventService W) where
  -- The state after one call, whatever its result.
  unfoldable pub perform : Actor → Request → W → W
  perform actor (create_event input) w = (create s actor input w).1
  perform actor (update_event id input) w = (update s actor id input w).1
  perform actor (delete_event id) w = (delete s actor id w).1
  perform actor (get_event id) w = (get s id w).1
  perform actor list_events w = (list s w).1

  -- The state after the calls of a history, in their order.
  unfoldable pub replay : List (Actor × Request) → W → W
  unfolding perform
  replay [] w = w
  replay ((actor, request) ∷ history) w = replay history (perform actor request w)

-- An event that was there, and that belongs to nobody who acts, is still there after a call with
-- one of the outcomes.
module _ (m : EventModel) (before : Events)
    (at_same : (i j : String) → m.same i j ≡ true → before i ≡ before j)
    (same_id : (i : String) (e : Event) → before i ≡ some e → m.same i e.id ≡ true) (j : String)
    (kept : Event) (found : before j ≡ some kept) where
  -- A write under an id that does not name the event leaves it.
  miss :
      (i : String) (written : Option Event) {after : Events}
      → ¬ (m.same j i ≡ true)
      → ((k : String) → after k ≡ (if m.same k i then written else before k))
      → after j ≡ some kept
  miss i written other write = elim (Bool-cases (m.same j i)) [
    | inl same ↦ absurd (other same)
    | inr h ↦ write j ∙ rw h found
  ]

  -- An id of another user's event does not name it.
  apart :
      (actor : Actor) (i : String) (old : Event)
      → kept.user_id ≢ actor.user_id
      → old.user_id ≡ actor.user_id
      → before i ≡ some old
      → ¬ (m.same j i ≡ true)
  apart actor i old other own h same =
      other (
        ap (λ (e : Event). e.user_id) (some-injective _ _ (sym found ∙ at_same j i same ∙ h)) ∙ own)

  create-keeps :
      {actor : Actor} {input : CreateEventInput} {verdict : Result Bool} {after : Events}
      {fails : Error → Type 0} {r : Result Event}
      → CreateOutcome fails m actor input verdict before after r
      → after j ≡ some kept
  create-keeps (CreateOutcome.no_user _ quiet) = rw quiet found
  create-keeps (CreateOutcome.unchecked _ _ _ quiet) = rw quiet found
  create-keeps (CreateOutcome.limited _ _ quiet) = rw quiet found
  create-keeps (CreateOutcome.blank_name _ _ _ quiet) = rw quiet found
  create-keeps (CreateOutcome.failed _ _ quiet) = rw quiet found
  create-keeps (CreateOutcome.created id _ _ _ _ fresh write) =
      miss id _ (λ same. none-ne-some _ (sym fresh ∙ sym (at_same j id same) ∙ found)) write

  update-keeps :
      {actor : Actor} {id : String} {input : UpdateEventInput} {after : Events}
      {fails : Error → Type 0} {r : Result Event}
      → kept.user_id ≢ actor.user_id
      → UpdateOutcome fails m actor id input before after r
      → after j ≡ some kept
  update-keeps other (UpdateOutcome.missing _ quiet) = rw quiet found
  update-keeps other (UpdateOutcome.denied _ _ _ quiet) = rw quiet found
  update-keeps other (UpdateOutcome.blank_name _ _ _ _ quiet) = rw quiet found
  update-keeps other (UpdateOutcome.failed _ _ quiet) = rw quiet found
  update-keeps {actor} {id} other (UpdateOutcome.updated old _ h own _ write) =
      miss old.id _
        (apart actor old.id old other own (sym (at_same id old.id (same_id id old h)) ∙ h)) write

  delete-keeps :
      {actor : Actor} {id : String} {after : Events} {fails : Error → Type 0}
      {r : Result (Unit {0})}
      → kept.user_id ≢ actor.user_id
      → DeleteOutcome fails m actor id before after r
      → after j ≡ some kept
  delete-keeps other (DeleteOutcome.missing _ quiet) = rw quiet found
  delete-keeps other (DeleteOutcome.denied _ _ _ quiet) = rw quiet found
  delete-keeps other (DeleteOutcome.failed _ _ quiet) = rw quiet found
  delete-keeps {actor} {id} other (DeleteOutcome.deleted old h own write) =
      miss id _ (apart actor id old other own h) write

GetOutcome-quiet :
    {id : String} {before after : Events} {fails : Error → Type 0} {r : Result Event}
    → GetOutcome fails id before after r
    → after ≡ before
GetOutcome-quiet (GetOutcome.missing _ quiet) = quiet
GetOutcome-quiet (GetOutcome.failed _ _ quiet) = quiet
GetOutcome-quiet (GetOutcome.found _ _ quiet) = quiet

module _ {W : Type 0} (s : EventService W) (m : EventModel) (at : W → Events)
    (laws : EventRepositoryLaws m at s.repo)
    (frame : KeepsView at s.limiter s.logger s.runtime) where
  pub perform-keeps :
      (actor : Actor) (request : Request) (w : W) (j : String) (kept : Event)
      → kept.user_id ≢ actor.user_id
      → at w j ≡ some kept
      → at (perform s actor request w) j ≡ some kept
  unfolding perform
  perform-keeps actor (create_event input) w j kept other found =
      create-keeps m (at w) (λ i k. laws.at_same i k w) (λ i. laws.same_id i w) j kept found
        (create-refines s m at laws frame actor input w)
  perform-keeps actor (update_event id input) w j kept other found =
      update-keeps m (at w) (λ i k. laws.at_same i k w) (λ i. laws.same_id i w) j kept found other
        (update-refines s m at laws frame actor id input w)
  perform-keeps actor (delete_event id) w j kept other found =
      delete-keeps m (at w) (λ i k. laws.at_same i k w) (λ i. laws.same_id i w) j kept found other
        (delete-refines s m at laws frame actor id w)
  perform-keeps actor (get_event id) w j kept other found =
      rw (GetOutcome-quiet (get-refines s m at laws frame id w)) found
  perform-keeps actor list_events w j kept other found = rw (list-quiet s m at laws frame w) found

  -- Over any ports that keep their laws, a stored event whose owner makes none of the calls of
  -- a history is stored unchanged at its end, whatever the calls are and whether they succeed
  -- or fail.
  pub replay-keeps_others :
      (history : List (Actor × Request)) (w : W) (j : String) (kept : Event)
      → All (λ call. kept.user_id ≢ call.0.user_id) history
      → at w j ≡ some kept
      → at (replay s history w) j ≡ some kept
  unfolding replay
  replay-keeps_others [] w j kept others found = found
  replay-keeps_others ((actor, request) ∷ history) w j kept others found =
      replay-keeps_others history (perform s actor request w) j kept others.1
        (perform-keeps actor request w j kept others.0 found)
