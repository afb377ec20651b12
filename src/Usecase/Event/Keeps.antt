-- ===== src/Usecase/Event/Keeps.antt =====
-- server/internal/core/usecase/event.go: what the event service leaves alone, if its ports do.
use agent_events.Prelude.{String, List, [], ◌∷◌, not, ◌==◌, Option-cases, inl, inr}
use agent_events.Apperr.{is, event_not_found, invalid, wrap_error}
use agent_events.Exec.{pure, fail, catch, lift, ◌>>=◌, ◌>>◌}
use agent_events.Exec.Keeps.{
  Keeps, >>=-Keeps, catch-Keeps, if-Keeps, when-Keeps, fail-Keeps, end-Keeps,
}
use agent_events.Domain.{Event, validate_event}
use agent_events.Port.{Level, Field, str, err_field, error_log, info}
use agent_events.Usecase.{Actor}
use agent_events.Usecase.Event.{
  EventService, CreateEventInput, UpdateEventInput, create, get, list, update, delete, fetch,
  require_owner, reject_invalid, save_new, write,
}
use agent_events.Usecase.Event.Ownership.{
  Request, create_event, update_event, delete_event, get_event, list_events, perform,
}

-- Every method of the ports keeps the property.
pub record PortsKeep {W : Type 0} (P : W → Type 0) (s : EventService W) : Type 0 where
  pub save : (e : Event) → Keeps P (s.repo.save e)
  pub get : (id : String) → Keeps P (s.repo.get id)
  pub list : Keeps P s.repo.list
  pub update : (e : Event) → Keeps P (s.repo.update e)
  pub delete : (id : String) → Keeps P (s.repo.delete id)
  pub allow : (key action : String) → Keeps P (s.limiter.allow key action)
  pub log : (l : Level) (msg : String) (fs : List Field) (w : W) → P w → P (s.logger.log l msg fs w)
  pub now : Keeps P (lift s.runtime.now)
  pub new_uuid : Keeps P (lift s.runtime.new_uuid)

module _ {W : Type 0} {P : W → Type 0} (s : EventService W) (ports : PortsKeep P s) where
  fetch-Keeps : (a b c id : String) → Keeps P (fetch s a b c id)
  unfolding fetch
  fetch-Keeps a b c id = catch-Keeps (ports.get id) λ e.
      if-Keeps (is e event_not_found) (end-Keeps (ports.log _ _ _)) (end-Keeps (ports.log _ _ _))

  reject_invalid-Keeps :
      (msg : String) (fs : List Field) (e : Event) → Keeps P (reject_invalid s msg fs e)
  unfolding reject_invalid
  reject_invalid-Keeps msg fs e = end-Keeps λ w p. elim (Option-cases (validate_event e)) [
    | inl valid ↦ rw (reject_invalid, valid) p
    | inr (x, bad) ↦ rw (reject_invalid, bad) (ports.log _ _ _ w p)
  ]

  require_owner-Keeps :
      (denied : String) (actor : Actor) (id : String) (e : Event)
      → Keeps P (require_owner s denied actor id e)
  unfolding require_owner
  require_owner-Keeps denied actor id e =
      when-Keeps (not (e.user_id == actor.user_id)) (end-Keeps (ports.log _ _ _))

  save_new-Keeps : (actor : Actor) (input : CreateEventInput) → Keeps P (save_new s actor input)
  unfolding save_new
  save_new-Keeps actor input = >>=-Keeps ports.now λ now. >>=-Keeps ports.new_uuid λ id.
      let event : Event = record {
        id = id;
        user_id = actor.user_id;
        name = input.name;
        description = input.description;
        created_at = now;
        updated_at = now;
      } in
      >>=-Keeps
        {f = λ _. do
          saved ← catch (s.repo.save event) λ e. do
            error_log s.logger "failed to save event" (err_field e ∷ str "event_id" event.id ∷ [])
            fail (wrap_error e "could not create event")
          info s.logger "event created" (
              str "event_id" saved.id
              ∷ str "user_id" actor.user_id
              ∷ str "agent_id" actor.agent_id
              ∷ [])
          pure saved}
        (reject_invalid-Keeps "event rejected" [] event)
        λ _.
          >>=-Keeps (catch-Keeps (ports.save event) λ e. end-Keeps (ports.log _ _ _))
            λ saved. end-Keeps (ports.log _ _ _)

  pub create-Keeps : (actor : Actor) (input : CreateEventInput) → Keeps P (create s actor input)
  unfolding create
  create-Keeps actor input =
      >>=-Keeps (when-Keeps (actor.user_id == "") (fail-Keeps (invalid "user is required"))) λ _.
        >>=-Keeps (catch-Keeps (ports.allow _ _) λ e. end-Keeps (ports.log _ _ _)) λ allowed.
          >>=-Keeps (when-Keeps (not allowed) (end-Keeps (ports.log _ _ _)))
            λ _. save_new-Keeps actor input

  pub get-Keeps : (id : String) → Keeps P (get s id)
  unfolding get
  get-Keeps id = fetch-Keeps _ _ _ id

  pub list-Keeps : Keeps P (list s)
  unfolding list
  list-Keeps =
      >>=-Keeps (catch-Keeps ports.list λ e. end-Keeps (ports.log _ _ _))
        λ events. end-Keeps (ports.log _ _ _)

  write-Keeps :
      (actor : Actor) (id : String) (input : UpdateEventInput) (e : Event)
      → Keeps P (write s actor id input e)
  unfolding write
  write-Keeps actor id input e = >>=-Keeps ports.now λ now.
      let revised : Event = record e {
        name = input.name;
        description = input.description;
        updated_at = now;
      } in
      >>=-Keeps
        {f = λ _. do
          updated ← catch (s.repo.update revised) λ e. do
            error_log s.logger "failed to update event" (err_field e ∷ str "event_id" id ∷ [])
            fail (wrap_error e "could not update event")
          info s.logger "event updated"
              (str "event_id" updated.id ∷ str "user_id" actor.user_id ∷ [])
          pure updated}
        (reject_invalid-Keeps "event update rejected" (str "event_id" id ∷ []) revised)
        λ _.
          >>=-Keeps (catch-Keeps (ports.update revised) λ e. end-Keeps (ports.log _ _ _))
            λ updated. end-Keeps (ports.log _ _ _)

  pub update-Keeps :
      (actor : Actor) (id : String) (input : UpdateEventInput) → Keeps P (update s actor id input)
  unfolding update
  update-Keeps actor id input =
      >>=-Keeps (fetch-Keeps _ _ _ id)
        λ e. >>=-Keeps (require_owner-Keeps _ actor id e) λ _. write-Keeps actor id input e

  pub delete-Keeps : (actor : Actor) (id : String) → Keeps P (delete s actor id)
  unfolding delete
  delete-Keeps actor id = >>=-Keeps (fetch-Keeps _ _ _ id) λ e.
      >>=-Keeps (require_owner-Keeps _ actor id e) λ _.
        >>=-Keeps (catch-Keeps (ports.delete id) λ e. end-Keeps (ports.log _ _ _))
          λ _. end-Keeps (ports.log _ _ _)

  -- A call of the service, whatever it is.
  pub perform-Keeps :
      (actor : Actor) (request : Request) (w : W) → P w → P (perform s actor request w)
  unfolding perform
  perform-Keeps actor (create_event input) w p = (create-Keeps actor input).kept w p
  perform-Keeps actor (update_event id input) w p = (update-Keeps actor id input).kept w p
  perform-Keeps actor (delete_event id) w p = (delete-Keeps actor id).kept w p
  perform-Keeps actor (get_event id) w p = (get-Keeps id).kept w p
  perform-Keeps actor list_events w p = list-Keeps.kept w p
