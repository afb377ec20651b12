-- ===== src/Server/Steps/Users.antt =====
-- server/cmd/api/main.go: the rows of users across sequences of steps of the server, and a sign-in
-- to a server that runs.
use agent_events.Prelude.{
  String, ℕ, ◌≡◌, sym, subst, ap, ◌⊎◌, inl, inr, List, [], true, refl, find?,
}
use agent_events.Prelude.Int.{ltb_ℤ}
use agent_events.Apperr.{Error, wrap_error}
use agent_events.Config.{Config}
use agent_events.Exec.{App, ok, err, run-cases}
use agent_events.Exec.Keeps.{Keeps, end-Keeps}
use agent_events.World.{World, db-allow_in, db-random_read}
use agent_events.Postgres.Ids.{kept_time}
use agent_events.Postgres.Schema.{Engine, empty_db}
use agent_events.Postgres.Users.{upsert_by_identity, user_token_repository}
use agent_events.Postgres.Accounts.{accounts_at}
use agent_events.Postgres.Accounts.UserRows.{UsersValid, upsert_by_identity-found}
use agent_events.Postgres.UserFrames.{
  get_user-users, create_token-users, get_by_hash-users, delete_by_hash-users,
  create_if_under_limit-users, get_agent-users, get_by_key_hash-users, list_by_user-users,
  revoke-users, touch_last_used-users, delete_expired-users, upsert-failed_users,
}
use agent_events.Http.ClientIp.{Net}
use agent_events.Http.Api.{Api, Codec}
use agent_events.Http.EventHandler.{actor_of}
use agent_events.Oidc.{Library}
use agent_events.Oidc.Verifier.{Verifier, verify, identity_verifier}
use agent_events.Usecase.Auth.{ExchangeInput, ExchangeResult}
use agent_events.Usecase.Auth.Users.{exchange, authenticate_user}
use agent_events.Usecase.Auth.Keeps.{PortsKeep}
use agent_events.Usecase.Auth.Keeps.Agents
use agent_events.Usecase.Event.Keeps as EventKeeps
use agent_events.Server.{event_service}
use agent_events.Server.Frames.{event_service-PortsKeep}
use agent_events.Server.Session.{sign_in-accepted}
use agent_events.Server.Start.{provide_api, provide_rate_limiter, provide_auth_config}
use agent_events.Server.Steps.{Step, run}
use agent_events.Server.Steps.Keeps.{run-Holds}
use agent_events.Server.Steps.Agents.{anyone}

module _ (pg : Engine) where
  leaves :
      {A : Type 0} {m : App World A}
      → ((w : World) → (m w).1.db.users ≡ w.db.users)
      → Keeps (λ w. UsersValid pg w.db.users) m
  leaves same = end-Keeps λ w p. subst (UsersValid pg) (sym (same w)) p

  upsert-Keeps :
      (p s e : String) → Keeps (λ w. UsersValid pg w.db.users) (upsert_by_identity pg p s e)
  upsert-Keeps p s e = end-Keeps λ w valid. elim (run-cases (upsert_by_identity pg p s e w)) [
    | inl (u, w', h) ↦ rw h (upsert_by_identity-found pg p s e w w' u valid h).0
    | inr (x, w', h) ↦
        rw h (subst (UsersValid pg) (sym (upsert-failed_users pg w p s e x w' h)) valid)
  ]

module _ {net : Net} (cfg : Config net) (pg : Engine) (codec : Codec) (lib : Library World)
    (verifier : Verifier World) (sha256 : String → List ℕ)
    (quiet : (provider raw : String) (w : World)
      → (verify lib verifier provider raw w).1.db ≡ w.db) where
  abbrev api : Api World
  api = provide_api cfg pg codec lib verifier sha256

  ports : PortsKeep (λ w. UsersValid pg w.db.users) api.auth
  ports = record {
    verify = λ p raw. leaves pg λ w. ap (λ db. db.users) (quiet p raw w);
    upsert_by_identity = upsert-Keeps pg;
    get_user = λ i. leaves pg λ w. get_user-users pg w i;
    create_token = λ t. leaves pg λ w. create_token-users pg w t;
    get_by_hash = λ h. leaves pg λ w. get_by_hash-users pg w h;
    delete_by_hash = λ h. leaves pg λ w. delete_by_hash-users pg w h;
    create_if_under_limit = λ g max. leaves pg λ w. create_if_under_limit-users pg w g max;
    get_agent = λ i. leaves pg λ w. get_agent-users pg w i;
    get_by_key_hash = λ k. leaves pg λ w. get_by_key_hash-users pg w k;
    list_by_user = λ i. leaves pg λ w. list_by_user-users pg w i;
    revoke = λ i t. leaves pg λ w. revoke-users pg w i t;
    touch_last_used = λ i t. leaves pg λ w. touch_last_used-users pg w i t;
    allow =
        λ k a. leaves pg λ w. ap (λ db. db.users) (db-allow_in (provide_rate_limiter cfg) k a w);
    log = λ l msg fs w p. p;
    now = end-Keeps λ w p. p;
    new_uuid = end-Keeps λ w p. p;
    random_bytes = leaves pg λ w. ap (λ db. db.users) (db-random_read (w.random 0) w);
  }

  run-UsersValid :
      (steps : List Step) (w : World)
      → UsersValid pg w.db.users
      → UsersValid pg (run api (user_token_repository pg) steps w).db.users
  run-UsersValid steps w =
      run-Holds pg api (λ _. Unit) (λ _. Unit) (λ db. UsersValid pg db.users) (λ l msg fs w. refl)
        (λ call w by p. Agents.perform-Keeps api.auth ports call w p)
        (λ identity by call w p.
          EventKeeps.perform-Keeps (event_service pg (provide_rate_limiter cfg))
            (event_service-PortsKeep pg (provide_rate_limiter cfg) (λ t. UsersValid pg t.0))
            (actor_of identity) call w p)
        (λ w p. subst (UsersValid pg) (sym (delete_expired-users pg w)) p) steps w
        (anyone pg api steps w)

  none_is_UsersValid : UsersValid pg []
  unfolding find?
  none_is_UsersValid p r h = cc

  -- For every configuration, if verifying an identity leaves the database alone and the server has
  -- started over an empty database, then after any sequence of requests and removals of tokens, the
  -- token that a sign-in returns is accepted for its user in any state with the accounts that the
  -- sign-in left, if the clock then says a time before its end, in microseconds; the only other
  -- answer is the error for a failure of the store.
  pub run-accepts_sign_in :
      (steps : List Step) (start : World)
      → start.db ≡ empty_db
      → (input : ExchangeInput) (result : ExchangeResult) (w' w'' : World)
      → exchange api.auth input (run api (user_token_repository pg) steps start) ≡ (ok result, w')
      → accounts_at pg w'' ≡ accounts_at pg w'
      → ltb_ℤ (w''.clock 0) (kept_time pg result.expires_at) ≡ true
      → ((authenticate_user api.auth result.token w'').0 ≡ ok result.user)
        ⊎ ((e : Error) × ((authenticate_user api.auth result.token w'').0
              ≡ err (wrap_error e "could not authenticate")))
  run-accepts_sign_in steps start empty input result w' w'' h same fresh =
      let valid = run-UsersValid steps start (rw empty none_is_UsersValid) in
      sign_in-accepted pg (provide_rate_limiter cfg) (provide_auth_config cfg)
        (identity_verifier lib verifier) sha256 quiet input
        (run api (user_token_repository pg) steps start) w' w'' result valid h same fresh
