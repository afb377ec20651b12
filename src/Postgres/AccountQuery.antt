-- ===== src/Postgres/AccountQuery.antt =====
-- The statements of server/internal/adapters/postgres/queries on users and their tokens
-- (gen/users.sql.go, gen/user_tokens.sql.go).
use agent_events.Prelude.{
  String, Bool, not, ◌&&◌, Option, none, some, [], ◌∷◌, ◌++◌, map, filter, find?, ◌==◌,
  if◌then◌else◌,
}
use agent_events.Prelude.Int.{ltb_ℤ}
use agent_events.Exec.{App, ok}
use agent_events.World.{World}
use agent_events.Postgres.Table.{lookup, delete}
use agent_events.Postgres.Schema.{Timestamptz, UserRow, UserTokenRow, Engine}
use agent_events.Postgres.Query.{
  Statement, send, read_uuid, check, one_row, is_none, kept, null_violation, foreign_key_violation,
  unique_violation,
}

-- UNIQUE (provider, subject)
unfoldable pub same_identity : UserRow → UserRow → Bool
same_identity r s = r.provider == s.provider && r.subject == s.subject

-- DO UPDATE SET email = EXCLUDED.email
abbrev pub set_email : UserRow → UserRow → UserRow
set_email excluded row = record row { email = excluded.email }

-- ON CONFLICT, when a row with the identity is found
unfoldable pub on_conflict : UserRow → Option UserRow → Statement UserRow → Statement UserRow
unfolding same_identity
on_conflict row none insert db = insert db
on_conflict row (some found) insert db = (
  ok (set_email row found),
  record db { users = map (λ r. if same_identity r row then set_email row r else r) db.users },
)

module _ (pg : Engine) where
  open pg use {uuid}

  unfoldable pub get_user_by_id : String → App World UserRow
  unfolding send lookup
  get_user_by_id id =
      send (read_uuid (uuid id) λ u db. one_row (lookup (λ (r : UserRow). r.id) u db.users) db)

  unfoldable pub upsert_user_identity : UserRow → App World UserRow
  unfolding send lookup on_conflict find?
  upsert_user_identity row = send (
      read_uuid (uuid row.id) λ id db.
        let inserted : UserRow = record row { id = id; created_at = kept pg row.created_at } in
        check row.created_at.valid null_violation
          (on_conflict row (find? (λ r. same_identity r row) db.users) (
            check (is_none (lookup (λ (r : UserRow). r.id) id db.users)) unique_violation
              λ db. (ok inserted, record db { users = db.users ++ inserted ∷ [] })))
          db)

  unfoldable pub insert_user_token : UserTokenRow → App World (Unit {0})
  unfolding send lookup
  insert_user_token row = send (
      read_uuid (uuid row.user_id) λ user_id db.
        check (row.expires_at.valid && row.created_at.valid) null_violation
          (check
            (is_none (lookup (λ (r : UserTokenRow). r.token_hash) row.token_hash db.user_tokens))
            unique_violation
            (check (not (is_none (lookup (λ (r : UserRow). r.id) user_id db.users)))
              foreign_key_violation
              λ db. (
                ok tt,
                record db {
                  user_tokens =
                      db.user_tokens
                      ++ record row {
                        user_id = user_id;
                        expires_at = kept pg row.expires_at;
                        created_at = kept pg row.created_at;
                      }
                        ∷ [];
                },
              )))
          db)

  unfoldable pub get_user_token_by_hash : String → App World UserTokenRow
  unfolding send lookup
  get_user_token_by_hash token_hash =
      send λ db. one_row (lookup (λ (r : UserTokenRow). r.token_hash) token_hash db.user_tokens) db

  unfoldable pub delete_user_token_by_hash : String → App World (Unit {0})
  unfolding send delete
  delete_user_token_by_hash token_hash = send λ db. (
    ok tt,
    record db {
      user_tokens = delete (λ (r : UserTokenRow). r.token_hash) token_hash db.user_tokens;
    },
  )

  -- `expires_at < $1` is not true where one of the two is NULL; pgx sends `$1` in microseconds.
  unfoldable pub expired_before : Timestamptz → UserTokenRow → Bool
  expired_before t row =
      t.valid && row.expires_at.valid && ltb_ℤ row.expires_at.time (kept pg t).time

  unfoldable pub delete_expired_user_tokens : Timestamptz → App World (Unit {0})
  unfolding send expired_before filter
  delete_expired_user_tokens t = send λ db.
      (ok tt, record db { user_tokens = filter (λ row. not (expired_before t row)) db.user_tokens })
