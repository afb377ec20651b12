-- ===== src/Postgres/Errors.antt =====
-- `asNotFound` of server/internal/adapters/postgres/db.go.
use agent_events.Prelude.{String, Bool, true, false, ◌||◌, Option, none, some, ◌==◌, if◌then◌else◌}
use agent_events.Apperr.{
  Error, Sentinel, Cause, sentinel, plain, no_rows, pg_error, wrapped, app, nil, caused_by,
}

mutual
  -- `errors.Is(err, pgx.ErrNoRows)`
  is_no_rows : Error → Bool
  is_no_rows (sentinel s) = false
  is_no_rows (plain text) = false
  is_no_rows no_rows = true
  is_no_rows (pg_error code text) = false
  is_no_rows (wrapped text e) = is_no_rows e
  is_no_rows (app kind message details err) = is_no_rows_cause err

  is_no_rows_cause : Cause → Bool
  is_no_rows_cause nil = false
  is_no_rows_cause (caused_by e) = is_no_rows e

mutual
  -- the code of the `*pgconn.PgError` that `errors.As` finds
  pg_code : Error → Option String
  pg_code (sentinel s) = none
  pg_code (plain text) = none
  pg_code no_rows = none
  pg_code (pg_error code text) = some code
  pg_code (wrapped text e) = pg_code e
  pg_code (app kind message details err) = pg_code_cause err

  pg_code_cause : Cause → Option String
  pg_code_cause nil = none
  pg_code_cause (caused_by e) = pg_code e

abbrev code_is : Option String → String → Bool
code_is none code = false
code_is (some c) code = c == code

unfoldable pub as_not_found : Error → Sentinel → Error
unfolding is_no_rows pg_code
as_not_found err s = if is_no_rows err || code_is (pg_code err) "22P02" then sentinel s else err
