-- ===== src/Apperr.antt =====
-- server/pkg/apperr/apperr.go, and the values of Go's `error` interface that reach it: the
-- sentinels of internal/core/domain and internal/core/port, driver errors, wrapped errors.
use agent_events.Prelude.{ℕ, String, Bool, false, Option, none, some, List, [], eqb}
use agent_events.Text.{◌^^◌}

-- type Kind string
pub data Kind : Type 0 where
  kind_not_found kind_invalid kind_unauthorized : Kind
  kind_forbidden kind_too_many kind_internal : Kind

-- the text of a kind
unfoldable pub kind_text : Kind → String
kind_text kind_not_found = "not_found"
kind_text kind_invalid = "invalid"
kind_text kind_unauthorized = "unauthorized"
kind_text kind_forbidden = "forbidden"
kind_text kind_too_many = "too_many"
kind_text kind_internal = "internal"

-- The variables that hold an `errors.New` value; two of them are equal only if they are one.
pub data Sentinel : Type 0 where
  agent_not_found agent_name_required not_event_user agent_key_revoked : Sentinel
  event_not_found name_required user_not_found user_token_not_found : Sentinel
  provider_unavailable : Sentinel

abbrev pub ordinal : Sentinel → ℕ
ordinal agent_not_found = 0
ordinal agent_name_required = 1
ordinal not_event_user = 2
ordinal agent_key_revoked = 3
ordinal event_not_found = 4
ordinal name_required = 5
ordinal user_not_found = 6
ordinal user_token_not_found = 7
ordinal provider_unavailable = 8

unfoldable pub sentinel_text : Sentinel → String
sentinel_text agent_not_found = "agent not found"
sentinel_text agent_name_required = "agent name is required"
sentinel_text not_event_user = "actor does not own the event"
sentinel_text agent_key_revoked = "agent key has been revoked"
sentinel_text event_not_found = "event not found"
sentinel_text name_required = "event name is required"
sentinel_text user_not_found = "user not found"
sentinel_text user_token_not_found = "user token not found"
sentinel_text provider_unavailable = "identity provider is not configured"

-- `map[string]string`, in the order of its keys
abbrev pub Details : Type 0
Details = List (String × String)

mutual
  -- The errors that the server meets. `app` is `*apperr.Error`; `wrapped` is `fmt.Errorf` with
  -- `%w`, its whole text first; `plain` is any error that unwraps to nothing.
  pub data Error : Type 0 where
    sentinel : Sentinel → Error
    plain : String → Error
    no_rows : Error
    pg_error : (code : String) (text : String) → Error
    wrapped : (text : String) → Error → Error
    app : Kind → (message : String) → Details → Cause → Error

  -- the field `Err`, which may be nil
  pub data Cause : Type 0 where
    nil : Cause
    caused_by : Error → Cause

-- type Error struct
pub record AppError : Type 0 where
  pub kind : Kind
  pub message : String
  pub details : Details
  pub err : Cause

abbrev pub new : Kind → String → Error
new kind message = app kind message [] nil

abbrev pub not_found : String → Error
not_found message = new kind_not_found message

abbrev pub invalid : String → Error
invalid message = new kind_invalid message

abbrev pub unauthorized : String → Error
unauthorized message = new kind_unauthorized message

abbrev pub forbidden : String → Error
forbidden message = new kind_forbidden message

abbrev pub too_many : String → Error
too_many message = new kind_too_many message

abbrev pub wrap_error : Error → String → Error
wrap_error err message = app kind_internal message [] (caused_by err)

-- `WithDetails`; on any error but an `*Error` there is no such method
unfoldable pub with_details : Details → Error → Error
with_details details (app kind message _ err) = app kind message details err
with_details details e = e

unfoldable mutual
  -- `err.Error()`
  pub error_text : Error → String
  error_text (sentinel s) = sentinel_text s
  error_text (plain text) = text
  error_text no_rows = "no rows in result set"
  error_text (pg_error code text) = text
  error_text (wrapped text e) = text
  error_text (app kind message details err) = error_text_with message err

  -- `(*Error).Error`, on its message and cause
  pub error_text_with : String → Cause → String
  error_text_with message nil = message
  error_text_with message (caused_by e) = message ^^ ": " ^^ error_text e

unfoldable mutual
  -- `errors.Is(err, target)` at a sentinel: along the chain of `Unwrap`
  pub is : Error → Sentinel → Bool
  is (sentinel s) target = eqb (ordinal s) (ordinal target)
  is (plain text) target = false
  is no_rows target = false
  is (pg_error code text) target = false
  is (wrapped text e) target = is e target
  is (app kind message details err) target = is_cause err target

  pub is_cause : Cause → Sentinel → Bool
  is_cause nil target = false
  is_cause (caused_by e) target = is e target

-- `From`: the first `*Error` on the chain
unfoldable pub from : Error → Option AppError
from (app kind message details err) =
    some (record { kind = kind; message = message; details = details; err = err })
from (wrapped text e) = from e
from e = none

unfoldable pub kind_of : Error → Kind
unfolding from
kind_of err = elim (from err) [ some e ↦ e.kind | none ↦ kind_internal ]

unfoldable pub message_of : Error → String
unfolding from error_text
message_of err = elim (from err) [ some e ↦ e.message | none ↦ error_text err ]

unfoldable pub details_of : Error → Details
unfolding from
details_of err = elim (from err) [ some e ↦ e.details | none ↦ [] ]
