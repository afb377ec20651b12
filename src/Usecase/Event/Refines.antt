-- ===== src/Usecase/Event/Refines.antt =====
-- server/internal/core/usecase/event.go: `Get`, `List`, `Update` and `Delete` against Outcome.antt.
use agent_events.Prelude.{
  String, ◌≡◌, refl, sym, ap, ◌∙◌, inl, inr, some, eq_iff, Bool-cases, if◌then◌else◌,
  ne_of_eq_false, ◌==◌,
}
use agent_events.Text.{trim_space}
use agent_events.Apperr.{event_not_found, is, sentinel_text}
use agent_events.Exec.{ok, run-cases}
use agent_events.Domain.{Event}
use agent_events.Domain.Laws.{validate_event-blank, validate_event-named}
use agent_events.Port.{debug_level, warn_level, error_level}
use agent_events.Port.Laws.{Events, EventModel, revise, EventRepositoryLaws, KeepsView}
use agent_events.Usecase.{Actor}
use agent_events.Usecase.Event.{
  EventService, UpdateEventInput, update, write, reject_invalid, delete, get, list,
}
use agent_events.Usecase.Event.Fails.{GetFails, UpdateFails, DeleteFails}
use agent_events.Usecase.Event.Outcome.{UpdateOutcome, DeleteOutcome, GetOutcome, revised_event}

module _ {W : Type 0} (s : EventService W) (m : EventModel) (at : W → Events)
    (laws : EventRepositoryLaws m at s.repo)
    (frame : KeepsView at s.limiter s.logger s.runtime) where
  -- Over any ports that keep their laws, `get` has one of the outcomes of GetOutcome: it
  -- returns the stored event, not found only where the id names none, or the wrapped error of
  -- the store, and it changes no event.
  pub get-refines :
      (id : String) (w : W)
      → GetOutcome (GetFails s id w) id (at w) (at (get s id w).1) (get s id w).0
  unfolding get
  get-refines id w = elim (run-cases (s.repo.get id w)) [
    | inl (event, w', h) ↦
        rw h
          (GetOutcome.found event (laws.get_ok id w w' event h).1 (laws.get_ok id w w' event h).0)
    | inr (e, w', h) ↦ elim (Bool-cases (is e event_not_found)) [
      | inl gone ↦
          rw (h, gone)
            (GetOutcome.missing ((laws.get_err id w w' e h).1 gone)
              (frame.log_quiet debug_level _ _ w' ∙ (laws.get_err id w w' e h).0))
      | inr other ↦
          rw (h, other)
            (GetOutcome.failed e (GetFails.unread e w' h other)
              (frame.log_quiet error_level _ _ w' ∙ (laws.get_err id w w' e h).0))
    ]
  ]

  -- Over any ports that keep their laws, `delete` has one of the outcomes of DeleteOutcome, with
  -- the failures of DeleteFails: a missing event and another's event give the error of the case and
  -- change nothing; where a call of the store fails otherwise, its error is wrapped and nothing is
  -- changed; success removes the caller's own event and no other.
  pub delete-refines :
      (actor : Actor) (id : String) (w : W)
      → DeleteOutcome
          (DeleteFails s actor id w)
          m
          actor
          id
          (at w)
          (at (delete s actor id w).1)
          (delete s actor id w).0
  unfolding delete
  delete-refines actor id w = elim (run-cases (s.repo.get id w)) [
    | inr (e, w', h) ↦ elim (Bool-cases (is e event_not_found)) [
      | inl gone ↦
          rw (h, gone)
            (DeleteOutcome.missing ((laws.get_err id w w' e h).1 gone)
              (frame.log_quiet debug_level _ _ w' ∙ (laws.get_err id w w' e h).0))
      | inr other ↦
          rw (h, other)
            (DeleteOutcome.failed e (DeleteFails.unread e w' h other)
              (frame.log_quiet error_level _ _ w' ∙ (laws.get_err id w w' e h).0))
    ]
    | inl (event, w', h) ↦
        let (quiet, found) = laws.get_ok id w w' event h in
        elim (Bool-cases (event.user_id == actor.user_id)) [
          | inr other ↦
              rw (h, other)
                (DeleteOutcome.denied event found (ne_of_eq_false _ _ other)
                  (frame.log_quiet warn_level _ _ w' ∙ quiet))
          | inl own ↦ elim (run-cases (s.repo.delete id w')) [
            | inr (e, w'', k) ↦
                rw (h, own, k)
                  (DeleteOutcome.failed e
                    (DeleteFails.undeleted e event w' w'' h ((eq_iff _ _).0 own) k)
                    (frame.log_quiet error_level _ _ w''
                      ∙ (laws.delete_err id w' w'' e k).0
                      ∙ quiet))
            | inl (_, w'', k) ↦
                rw (h, own, k)
                  (DeleteOutcome.deleted event found ((eq_iff _ _).0 own)
                    λ j. rw (frame.log_quiet, (laws.delete_ok id w' w'' k).1 j, quiet))
          ]
        ]
  ]

  update-at :
      (id : String) (w w' w'' : W) (old new : Event)
      → at w' ≡ at w
      → at w id ≡ some old
      → new.id ≡ old.id
      → s.repo.update new w' ≡ (ok new, w'')
      → (j : String) → at w'' j ≡ (if m.same j old.id then some (revise m new old) else at w j)
  update-at id w w' w'' old new quiet found same_id k j = elim (Bool-cases (m.same j old.id)) [
    | inl same ↦
        let stays : at w j ≡ some old =
          laws.at_same j old.id w same
          ∙ sym (laws.at_same id old.id w (laws.same_id id w old found))
          ∙ found in
        rw same ((laws.update_ok new w' w'' new k).2 j ∙ rw (same_id, same, quiet, stays))
    | inr other ↦ rw other ((laws.update_ok new w' w'' new k).2 j ∙ rw (same_id, other, quiet))
  ]

  -- The part of `update` behind the test of ownership.
  write-refines :
      (actor : Actor) (id : String) (input : UpdateEventInput) (w w' : W) (old : Event)
      → s.repo.get id w ≡ (ok old, w')
      → at w' ≡ at w
      → at w id ≡ some old
      → old.user_id ≡ actor.user_id
      → UpdateOutcome
          (UpdateFails s actor id input w)
          m
          actor
          id
          input
          (at w)
          (at (write s actor id input old w').1)
          (write s actor id input old w').0
  unfolding write sentinel_text
  write-refines actor id input w w' old h quiet found own =
      let w₁ = (s.runtime.now w').1 in
      let new = revised_event input (s.runtime.now w').0 old in
      let quiet₁ : at w₁ ≡ at w = frame.now_quiet w' ∙ quiet in
      elim (Bool-cases (trim_space input.name == "")) [
        | inl blank ↦
            rw (validate_event-blank new ((eq_iff _ _).0 blank), reject_invalid)
              (UpdateOutcome.blank_name old found own ((eq_iff _ _).0 blank)
                (frame.log_quiet warn_level _ _ w₁ ∙ quiet₁))
        | inr named ↦ elim (run-cases (s.repo.update new w₁)) [
          | inr (e, w₂, k) ↦
              rw (validate_event-named new (ne_of_eq_false _ _ named), reject_invalid, k)
                (UpdateOutcome.failed e
                  (UpdateFails.unwritten e old w' w₂ h own (ne_of_eq_false _ _ named) k)
                  (frame.log_quiet error_level _ _ w₂ ∙ (laws.update_err new w₁ w₂ e k).0 ∙ quiet₁))
          | inl (r, w₂, k) ↦
              let same : r ≡ new = (laws.update_ok new w₁ w₂ r k).0 in
              let k' : s.repo.update new w₁ ≡ (ok new, w₂) = k ∙ ap (λ e. (ok e, w₂)) same in
              rw (validate_event-named new (ne_of_eq_false _ _ named), reject_invalid, k')
                (UpdateOutcome.updated old (s.runtime.now w').0 found own (ne_of_eq_false _ _ named)
                  λ j. rw frame.log_quiet (update-at id w w₁ w₂ old new quiet₁ found refl k' j))
        ]
      ]

  -- Over any ports that keep their laws, `update` has one of the outcomes of UpdateOutcome, with
  -- the failures of UpdateFails: a missing event, another's event and a blank name give the error
  -- of the case and change nothing; where a call of the store fails otherwise, its error is wrapped
  -- and nothing is changed; success writes the new name, description and time over the caller's own
  -- event and no other.
  pub update-refines :
      (actor : Actor) (id : String) (input : UpdateEventInput) (w : W)
      → UpdateOutcome
          (UpdateFails s actor id input w)
          m
          actor
          id
          input
          (at w)
          (at (update s actor id input w).1)
          (update s actor id input w).0
  unfolding update
  update-refines actor id input w = elim (run-cases (s.repo.get id w)) [
    | inr (e, w', h) ↦ elim (Bool-cases (is e event_not_found)) [
      | inl gone ↦
          rw (h, gone)
            (UpdateOutcome.missing ((laws.get_err id w w' e h).1 gone)
              (frame.log_quiet debug_level _ _ w' ∙ (laws.get_err id w w' e h).0))
      | inr other ↦
          rw (h, other)
            (UpdateOutcome.failed e (UpdateFails.unread e w' h other)
              (frame.log_quiet error_level _ _ w' ∙ (laws.get_err id w w' e h).0))
    ]
    | inl (event, w', h) ↦
        let (quiet, found) = laws.get_ok id w w' event h in
        elim (Bool-cases (event.user_id == actor.user_id)) [
          | inr other ↦
              rw (h, other)
                (UpdateOutcome.denied event found (ne_of_eq_false _ _ other)
                  (frame.log_quiet warn_level _ _ w' ∙ quiet))
          | inl own ↦
              rw (h, own)
                (write-refines actor id input w w' event h quiet found ((eq_iff _ _).0 own))
        ]
  ]

  pub list-quiet : (w : W) → at (list s w).1 ≡ at w
  unfolding list
  list-quiet w = elim (run-cases (s.repo.list w)) [
    | inr (e, w', h) ↦ rw h (frame.log_quiet error_level _ _ w' ∙ rw h at (laws.list_quiet w))
    | inl (events, w', h) ↦ rw h (frame.log_quiet debug_level _ _ w' ∙ rw h at (laws.list_quiet w))
  ]
