-- ===== src/Domain/Laws.antt =====
-- When `Validate` accepts a name.
use agent_events.Prelude.{◌≡◌, ◌≢◌, none, some, eq_false_of_ne, arith, eq_iff}
use agent_events.Text.{trim_space}
use agent_events.Apperr.{agent_name_required, name_required}
use agent_events.Domain.{Agent, Event, validate_agent, validate_event}

pub validate_event-blank :
    (e : Event) → trim_space e.name ≡ "" → validate_event e ≡ some name_required
unfolding validate_event
validate_event-blank e h = ground (arith, eq_iff (trim_space e.name) "")

pub validate_event-named : (e : Event) → trim_space e.name ≢ "" → validate_event e ≡ none
unfolding validate_event
validate_event-named e h = rw (eq_false_of_ne _ _ h)

pub validate_agent-blank :
    (a : Agent) → trim_space a.name ≡ "" → validate_agent a ≡ some agent_name_required
unfolding validate_agent
validate_agent-blank a h = ground (arith, eq_iff (trim_space a.name) "")

pub validate_agent-named : (a : Agent) → trim_space a.name ≢ "" → validate_agent a ≡ none
unfolding validate_agent
validate_agent-named a h = rw (eq_false_of_ne _ _ h)
