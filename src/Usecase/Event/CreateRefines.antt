-- ===== src/Usecase/Event/CreateRefines.antt =====
-- server/internal/core/usecase/event.go: `Create` against Outcome.antt.
use agent_events.Prelude.{
  String, ◌≡◌, ◌≢◌, refl, ap, ◌∙◌, inl, inr, Bool, true, false, eq_iff, Bool-cases, ne_of_eq_false,
  ◌==◌,
}
use agent_events.Text.{◌^^◌, trim_space}
use agent_events.Apperr.{sentinel_text}
use agent_events.Exec.{Result, ok, run-cases}
use agent_events.Domain.Laws.{validate_event-blank, validate_event-named}
use agent_events.Port.{warn_level, error_level}
use agent_events.Port.Laws.{Events, EventModel, EventRepositoryLaws, KeepsView}
use agent_events.Usecase.{Actor}
use agent_events.Usecase.Event.{
  EventService, CreateEventInput, create, save_new, action_create_event, reject_invalid,
}
use agent_events.Usecase.Event.Fails.{CreateFails}
use agent_events.Usecase.Event.Outcome.{CreateOutcome, new_event}

module _ {W : Type 0} (s : EventService W) (m : EventModel) (at : W → Events)
    (laws : EventRepositoryLaws m at s.repo)
    (frame : KeepsView at s.limiter s.logger s.runtime) where
  limiter-quiet :
      (key action : String) (w : W) {r : Result Bool} {w' : W}
      → s.limiter.allow key action w ≡ (r, w')
      → at w' ≡ at w
  limiter-quiet key action w h =
      rw (ap (λ (p : Result Bool × W). p.1) h) at (frame.allow_quiet key action w)

  -- The part of `create` behind the rate limiter.
  save-refines :
      (actor : Actor) (input : CreateEventInput) (verdict : Result Bool) (w w' : W)
      → at w' ≡ at w
      → actor.user_id ≢ ""
      → verdict ≡ ok true
      → s.limiter.allow ("user:" ^^ actor.user_id) action_create_event w ≡ (ok true, w')
      → CreateOutcome
          (CreateFails s actor input w)
          m
          actor
          input
          verdict
          (at w)
          (at (save_new s actor input w').1)
          (save_new s actor input w').0
  unfolding save_new sentinel_text
  save-refines actor input verdict w w' quiet user allowed h =
      let now = (s.runtime.now w').0 in
      let w₁ = (s.runtime.now w').1 in
      let id = (s.runtime.new_uuid w₁).0 in
      let w₂ = (s.runtime.new_uuid w₁).1 in
      let new = new_event actor input id now in
      let quiet₂ : at w₂ ≡ at w = frame.uuid_quiet w₁ ∙ frame.now_quiet w' ∙ quiet in
      elim (Bool-cases (trim_space input.name == "")) [
        | inl blank ↦
            rw (validate_event-blank new ((eq_iff _ _).0 blank), reject_invalid)
              (CreateOutcome.blank_name user allowed ((eq_iff _ _).0 blank)
                (frame.log_quiet warn_level _ _ w₂ ∙ quiet₂))
        | inr named ↦ elim (run-cases (s.repo.save new w₂)) [
          | inr (e, w₃, k) ↦
              rw (validate_event-named new (ne_of_eq_false _ _ named), reject_invalid, k)
                (CreateOutcome.failed e
                  (CreateFails.unsaved e w' w₃ user h (ne_of_eq_false _ _ named) k)
                  (frame.log_quiet error_level _ _ w₃ ∙ laws.save_err new w₂ w₃ e k ∙ quiet₂))
          | inl (r, w₃, k) ↦
              let (same, fresh, after) = laws.save_ok new w₂ w₃ r k in
              rw (validate_event-named new (ne_of_eq_false _ _ named), reject_invalid, k, same)
                (CreateOutcome.created id now user allowed (ne_of_eq_false _ _ named)
                  (rw (← quiet₂) fresh) λ j. rw (frame.log_quiet, after j, quiet₂))
        ]
      ]

  -- Over any ports that keep their laws, `create` has one of the outcomes of CreateOutcome, with
  -- the failures of CreateFails: without a user, without an answer of the limiter, over the limit
  -- and with a blank name it gives the error of the case and changes no event; where the event
  -- cannot be saved, the error of the store is wrapped and no event is changed; success adds
  -- exactly the new event, under an id that was free.
  pub create-refines :
      (actor : Actor) (input : CreateEventInput) (w : W)
      → CreateOutcome
          (CreateFails s actor input w)
          m
          actor
          input
          (s.limiter.allow ("user:" ^^ actor.user_id) action_create_event w).0
          (at w)
          (at (create s actor input w).1)
          (create s actor input w).0
  unfolding create
  create-refines actor input w = elim (Bool-cases (actor.user_id == "")) [
    | inl nobody ↦ rw nobody (CreateOutcome.no_user ((eq_iff _ _).0 nobody) refl)
    | inr user ↦
        let key = "user:" ^^ actor.user_id in
        elim (run-cases (s.limiter.allow key action_create_event w)) [
          | inr (e, w', h) ↦
              rw (user, h)
                (CreateOutcome.unchecked e (ne_of_eq_false _ _ user) refl
                  (frame.log_quiet error_level _ _ w' ∙ limiter-quiet key action_create_event w h))
          | inl (false, w', h) ↦
              rw (user, h)
                (CreateOutcome.limited (ne_of_eq_false _ _ user) refl
                  (frame.log_quiet warn_level _ _ w' ∙ limiter-quiet key action_create_event w h))
          | inl (true, w', h) ↦
              rw (user, h)
                (save-refines actor input (ok true) w w' (limiter-quiet key action_create_event w h)
                  (ne_of_eq_false _ _ user) refl h)
        ]
  ]
