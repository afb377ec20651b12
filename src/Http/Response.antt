-- ===== src/Http/Response.antt =====
-- server/internal/transport/http/handler/response.go: how an error becomes a response.
pub mod Laws
use agent_events.Prelude.{
  ℕ, suc, String, Bool, true, false, ◌&&◌, List, [], ◌∷◌, leb, if◌then◌else◌,
}
use agent_events.Prelude.Int.{pos}
use agent_events.Apperr.{
  Error, Kind, kind_not_found, kind_invalid, kind_unauthorized, kind_forbidden, kind_too_many,
  kind_internal, Details, kind_of, kind_text, message_of, details_of,
}
use agent_events.Port.{Logger, error_level, warn_level, err_field, int}

-- type ErrorBody struct
pub record ErrorBody : Type 0 where
  pub code : String
  pub message : String
  pub details : Details

-- A response: its status, and the body before it is encoded.
pub record Response (B : Type 0) : Type 0 where
  pub status : ℕ
  pub body : B

-- the status codes of net/http
abbrev pub status_bad_request : ℕ
status_bad_request = 400

abbrev pub status_unauthorized : ℕ
status_unauthorized = 401

abbrev pub status_forbidden : ℕ
status_forbidden = 403

abbrev pub status_not_found : ℕ
status_not_found = 404

abbrev pub status_too_many_requests : ℕ
status_too_many_requests = 429

abbrev pub status_internal_server_error : ℕ
status_internal_server_error = 500

-- `StatusCode`, on the kind of the error
unfoldable pub status_of_kind : Kind → ℕ
status_of_kind kind_not_found = status_not_found
status_of_kind kind_invalid = status_bad_request
status_of_kind kind_unauthorized = status_unauthorized
status_of_kind kind_forbidden = status_forbidden
status_of_kind kind_too_many = status_too_many_requests
status_of_kind kind_internal = status_internal_server_error

-- `StatusCode`
unfoldable pub status_code : Error → ℕ
unfolding status_of_kind kind_of
status_code err = status_of_kind (kind_of err)

-- `http.StatusText(500)`
abbrev pub internal_server_error_text : String
internal_server_error_text = "Internal Server Error"

-- The body that `WriteError` sends.
unfoldable pub error_body : Error → ErrorBody
unfolding status_code message_of details_of kind_text
error_body err = record {
  code = kind_text (kind_of err);
  message =
      if leb status_internal_server_error (status_code err)
      then internal_server_error_text
      else message_of err;
  details = details_of err;
}

-- `WriteError`: a line of the log and the response
unfoldable pub write_error : {W : Type 0} → Logger W → Error → W → Response ErrorBody × W
unfolding error_body
write_error logger err w =
    let status = status_code err in
    (
      record { status = status; body = error_body err },
      if leb status_internal_server_error status
          then logger.log error_level "request failed"
              (err_field err ∷ int "status" (pos status) ∷ []) w
          else logger.log warn_level "request rejected"
              (err_field err ∷ int "status" (pos status) ∷ []) w,
    )
