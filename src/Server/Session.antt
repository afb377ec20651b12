-- ===== src/Server/Session.antt =====
-- server/cmd/api/main.go: a sign-in to a server over PostgreSQL.
use agent_events.Prelude.{ℕ, String, arith, ◌≡◌, ◌⊎◌, true, some, List}
use agent_events.Prelude.Int.{ltb_ℤ}
use agent_events.Apperr.{Error, wrap_error}
use agent_events.Exec.{ok, err}
use agent_events.Domain.{User, UserToken}
use agent_events.Memory.{Limits}
use agent_events.Port.{IdentityVerifier}
use agent_events.Postgres.Ids.{kept_time}
use agent_events.Postgres.Schema.{Engine}
use agent_events.Postgres.Users.{upsert_by_identity, get_by_hash}
use agent_events.Postgres.Accounts.{accounts_at, account_model, stored_token}
use agent_events.Postgres.Accounts.UserRows.{UsersValid, find_user_self, upsert_by_identity-found}
use agent_events.Usecase.Auth.{AuthService, AuthConfig, ExchangeInput, ExchangeResult, hash_token}
use agent_events.Usecase.Auth.Users.{exchange, authenticate_user}
use agent_events.Usecase.Auth.SignIn.{exchange-accepted}
use agent_events.World.{World, db-allow_in}
use agent_events.Server.{auth_service, auth_service-AuthLaws}

module _ (pg : Engine) where
  -- The user is found under the id that the table of tokens keeps.
  upsert-stored :
      (provider subject email : String) (w w' : World) (u : User)
      → UsersValid pg w.db.users
      → upsert_by_identity pg provider subject email w ≡ (ok u, w')
      → (t : UserToken) → t.user_id ≡ u.id
      → (accounts_at pg w').user (stored_token pg t).user_id ≡ some u
  upsert-stored provider subject email w w' u valid h t own =
      let (still, found) = upsert_by_identity-found pg provider subject email w w' u valid h in
      let (canonical, there) = find_user_self pg w'.db.users u.id u found in
      rw (own, canonical) there

  clock-get_by_hash : (h : String) (w : World) → (get_by_hash pg h w).1.clock ≡ w.clock
  unfolding get_by_hash
  clock-get_by_hash h w = ground arith

  module _ (limits : Limits) (config : AuthConfig) (verifier : IdentityVerifier World)
      (sha256 : String → List ℕ)
      (quiet : (provider raw : String) (w : World)
        → (verifier.verify provider raw w).1.db ≡ w.db) where
    abbrev pub service : AuthService World
    service = auth_service pg limits config verifier sha256

    -- Over PostgreSQL with valid rows of users, if verifying an identity leaves the database alone,
    -- then the token that a sign-in returns is accepted for its user in any state with the accounts
    -- that the sign-in left, if the clock then says a time before its end, in microseconds; the
    -- only other answer is the error for a failure of the store.
    pub sign_in-accepted :
        (input : ExchangeInput) (w w' w'' : World) (result : ExchangeResult)
        → UsersValid pg w.db.users
        → exchange service input w ≡ (ok result, w')
        → accounts_at pg w'' ≡ accounts_at pg w'
        → ltb_ℤ (w''.clock 0) (kept_time pg result.expires_at) ≡ true
        → ((authenticate_user service result.token w'').0 ≡ ok result.user)
          ⊎ ((e : Error) × ((authenticate_user service result.token w'').0
                ≡ err (wrap_error e "could not authenticate")))
    sign_in-accepted input w w' w'' result valid h same fresh =
        exchange-accepted service (account_model pg) (accounts_at pg)
          (auth_service-AuthLaws pg limits config verifier sha256 quiet)
          (λ w. UsersValid pg w.db.users) (λ key action w p. rw (db-allow_in limits key action w) p)
          (λ provider raw w p. rw (quiet provider raw w) p) (upsert-stored) input w w' w'' result
          valid h same
          (λ t e. rw (e, clock-get_by_hash (hash_token service result.token) w'') fresh)
