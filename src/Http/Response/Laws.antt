-- ===== src/Http/Response/Laws.antt =====
-- What a client learns from an error.
use agent_events.Prelude.{◌≡◌, ◌≢◌, arith, ◌≤◌, ◌<◌, ◌⊎◌}
use agent_events.Apperr.{Error, kind_internal, kind_of, details_of, message_of}
use agent_events.Http.Response.{
  status_code, error_body, internal_server_error_text, status_internal_server_error,
}

-- An error of kind internal gives status 500 and the fixed text; any other gives a status
-- between 400 and 499 and its own message.
pub error_body_cases :
    (e : Error)
    → ((kind_of e ≡ kind_internal)
        × (status_code e ≡ status_internal_server_error)
        × ((error_body e).message ≡ internal_server_error_text))
      ⊎ ((kind_of e ≢ kind_internal)
          × (400 ≤ status_code e)
          × (status_code e < 500)
          × ((error_body e).message ≡ message_of e))
unfolding error_body
error_body_cases e = ground arith

-- Two errors of kind internal with the same details give the same status and the same body, so
-- nothing of their messages and of what they wrap reaches the client.
pub error_body-hides_internal :
    (e f : Error)
    → kind_of e ≡ kind_internal
    → kind_of f ≡ kind_internal
    → details_of e ≡ details_of f
    → (status_code e ≡ status_code f) × (error_body e ≡ error_body f)
unfolding error_body
error_body-hides_internal e f he hf same = ground arith
