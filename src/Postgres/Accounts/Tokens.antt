-- ===== src/Postgres/Accounts/Tokens.antt =====
-- server/internal/adapters/postgres/user_token_repository.go against the laws of its port.
use agent_events.Postgres.Ids.{kept-read}
use mathlib.Core.Option
use agent_events.Prelude.{
  String, ◌≡◌, ap, ◌∙◌, [], ◌∷◌, ◌++◌, true, none, some, List, arith, eq_iff, fun_ext, ◌==◌,
  if◌then◌else◌,
}
use mathlib.Core.Path.{ap₂}
use agent_events.Apperr.{Error, user_token_not_found, is}
use agent_events.Exec.{ok, err}
use agent_events.Domain.{UserToken}
use agent_events.Port.Accounts.{UserTokenRepositoryLaws, put_token, drop_token}
use agent_events.World.{World}
use agent_events.Postgres.Table.{lookup, lookup-append, lookup-delete, delete}
use agent_events.Postgres.Schema.{Db, UserTokenRow, Engine, timestamptz, user_token_from_row}
use agent_events.Postgres.Query.{kept}
use agent_events.Postgres.Users.{create_token, get_by_hash, delete_by_hash, user_token_repository}
use agent_events.Postgres.Accounts.{
  find_token, accounts_in, accounts_at, stored_token, account_model,
}

find_token-insert :
    (row : UserTokenRow) (rows : List UserTokenRow) (k : String)
    → lookup (λ (r : UserTokenRow). r.token_hash) row.token_hash rows ≡ none
    → find_token (rows ++ row ∷ []) k
      ≡ (if k == row.token_hash then some (user_token_from_row row) else find_token rows k)
find_token-insert row rows k fresh =
    rw (lookup-append (λ (r : UserTokenRow). r.token_hash) k row rows fresh)
      (ground (arith, eq_iff k row.token_hash, eq_iff row.token_hash k))

find_token-delete :
    (j : String) (rows : List UserTokenRow) (k : String)
    → find_token (delete (λ (r : UserTokenRow). r.token_hash) j rows) k
      ≡ (if k == j then none else find_token rows k)
find_token-delete j rows k =
    rw (lookup-delete (λ (r : UserTokenRow). r.token_hash) j k rows) (ground arith)

module _ (pg : Engine) where
  open pg use {uuid}

  -- The row that is inserted for `t`.
  abbrev inserted : UserToken → String → UserTokenRow
  inserted t u = record {
    token_hash = t.token_hash;
    user_id = u;
    expires_at = kept pg (timestamptz t.expires_at);
    created_at = kept pg (timestamptz t.created_at);
  }

  user_token_from_row-inserted :
      (t : UserToken) (u : String)
      → uuid t.user_id ≡ some u
      → user_token_from_row (inserted t u) ≡ stored_token pg t
  unfolding user_token_from_row
  user_token_from_row-inserted t u owned = rw owned (
      ap₂ (λ x y. record t { user_id = u; expires_at = x; created_at = y })
        (kept-read pg t.expires_at) (kept-read pg t.created_at))

  -- The accounts after the row of a token was inserted.
  accounts_in-insert :
      (t : UserToken) (u : String) (db : Db)
      → uuid t.user_id ≡ some u
      → lookup (λ (r : UserTokenRow). r.token_hash) t.token_hash db.user_tokens ≡ none
      → accounts_in pg (record db { user_tokens = db.user_tokens ++ inserted t u ∷ [] })
        ≡ put_token (account_model pg) t (accounts_in pg db)
  accounts_in-insert t u db owned fresh =
      ap (λ f. record (accounts_in pg db) { token = f })
        (fun_ext λ k.
          find_token-insert (inserted t u) db.user_tokens k fresh
          ∙ ap (λ r. if k == t.token_hash then some r else find_token db.user_tokens k)
              (user_token_from_row-inserted t u owned))

  create-ok :
      (t : UserToken) (w w' : World)
      → create_token pg t w ≡ (ok tt, w')
      → ((accounts_at pg w).token t.token_hash ≡ none)
        × (accounts_at pg w' ≡ put_token (account_model pg) t (accounts_at pg w))
  unfolding create_token
  create-ok t w w' h =
      let done : (u : String) × (uuid t.user_id ≡ some u)
          × (lookup (λ (r : UserTokenRow). r.token_hash) t.token_hash w.db.user_tokens ≡ none)
          × (w'.db ≡ record w.db { user_tokens = w.db.user_tokens ++ inserted t u ∷ [] }) =
        ground arith in
      (
        ap (Option.map user_token_from_row) done.2,
        ap (accounts_in pg) done.3 ∙ accounts_in-insert t done.0 w.db done.1 done.2,
      )

  create-err :
      (t : UserToken) (w w' : World) (x : Error)
      → create_token pg t w ≡ (err x, w')
      → accounts_at pg w' ≡ accounts_at pg w
  unfolding create_token
  create-err t w w' x h = ground arith

  get-ok :
      (k : String) (w w' : World) (t : UserToken)
      → get_by_hash pg k w ≡ (ok t, w')
      → (accounts_at pg w' ≡ accounts_at pg w) × ((accounts_at pg w).token k ≡ some t)
  unfolding get_by_hash
  get-ok k w w' t h = ground arith

  get-err :
      (k : String) (w w' : World) (x : Error)
      → get_by_hash pg k w ≡ (err x, w')
      → (accounts_at pg w' ≡ accounts_at pg w)
        × (is x user_token_not_found ≡ true → (accounts_at pg w).token k ≡ none)
  unfolding get_by_hash is
  get-err k w w' x h = ground arith

  delete-ok :
      (k : String) (w w' : World)
      → delete_by_hash pg k w ≡ (ok tt, w')
      → accounts_at pg w' ≡ drop_token k (accounts_at pg w)
  unfolding delete_by_hash
  delete-ok k w w' h =
      let done : w'.db ≡ record w.db {
        user_tokens = delete (λ (r : UserTokenRow). r.token_hash) k w.db.user_tokens;
      } =
        ground arith in
      ap (accounts_in pg) done
      ∙ ap (λ f. record (accounts_at pg w) { token = f })
          (fun_ext (find_token-delete k w.db.user_tokens))

  delete-err :
      (k : String) (w w' : World) (x : Error)
      → delete_by_hash pg k w ≡ (err x, w')
      → accounts_at pg w' ≡ accounts_at pg w
  unfolding delete_by_hash
  delete-err k w w' x h = ground arith

  -- The PostgreSQL repository of user tokens keeps every law of its port: a token is stored
  -- only under a free hash, is found under it, and a deletion removes exactly the token of its
  -- hash.
  pub user_token_repository-UserTokenRepositoryLaws :
      UserTokenRepositoryLaws (account_model pg) (accounts_at pg) (user_token_repository pg)
  user_token_repository-UserTokenRepositoryLaws = record {
    create_ok = create-ok;
    create_err = create-err;
    get_ok = get-ok;
    get_err = get-err;
    delete_ok = delete-ok;
    delete_err = delete-err;
  }
