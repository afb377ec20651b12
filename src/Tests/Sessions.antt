-- ===== src/Tests/Sessions.antt =====
-- A session from the sign-in on, and the removal of tokens that have expired.
use agent_events.Prelude.{◌≡◌, ◌⊎◌, refl, true, false, [], ◌∷◌, List}
use agent_events.Apperr.{Error, wrap_error}
use agent_events.Exec.{ok, err}
use agent_events.Domain.{UserToken}
use agent_events.Postgres.Schema.{user_token_from_row, empty_db}
use agent_events.Postgres.Ids.{kept_time}
use agent_events.Postgres.Users.{
  upsert_by_identity, create_token, user_token_repository, delete_expired,
}
use agent_events.Time.{unix, truncate}
use agent_events.Oidc.{verify_google}
use agent_events.Oidc.Verifier.{verify}
use agent_events.Config.{config_of}
use agent_events.World.{allow_in, World, journal_logger}
use agent_events.Prelude.Int.{ltb_ℤ, pos}
use agent_events.Postgres.Table.{lookup}
use agent_events.Usecase.Auth.Users.{exchange, authenticate_user}
use agent_events.Tests.Fixtures.{noon, engine, world}
use agent_events.Server.Start.{provide_api}
use agent_events.Server.Cleanup.{Round, tick, done, sweep, cleanup_expired_tokens}
use agent_events.Server.Cleanup.Sessions.{
  Alive, cleanup_expired_tokens-Alive, cleanup_expired_tokens_ends, after_ticks,
}
use agent_events.Tests.Config.{config}
use agent_events.Tests.Requests.{codec}
use agent_events.Http.Api.{Api}
use agent_events.Server.Steps.{Step, clean_up, run}
use agent_events.Server.Steps.Users.{run-accepts_sign_in}
use agent_events.Usecase.Auth.{ExchangeResult}
use agent_events.Tests.Oidc.{library, verifier, digest, input, verifier_quiet}
use agent_events.Tests.Accounts.{start, token_row}

-- The server starts over an empty database and cleans up, and Ann signs in.
abbrev api : Api World
api = provide_api config engine codec library verifier digest

abbrev steps : List Step
steps = clean_up false ∷ []

abbrev first : World
first = record world { db = empty_db }

abbrev running : World
running = run api (user_token_repository engine) steps first

abbrev new_session : ExchangeResult
new_session = record {
  user = record {
    id = "e2";
    provider = "google";
    subject = "ann";
    email = "ann@example.com";
    created_at = noon;
  };
  token = "aeu_AQID";
  expires_at = pos 63_902_592_000_000_000_000;
}

abbrev signed_in : World
signed_in = (exchange api.auth input running).1

ann_signs_in : exchange api.auth input running ≡ (ok new_session, signed_in)
unfolding exchange verify verify_google config_of allow_in unix truncate upsert_by_identity
    create_token run delete_expired
ann_signs_in = refl

fresh : ltb_ℤ (signed_in.clock 0) (kept_time engine new_session.expires_at) ≡ true
unfolding exchange verify verify_google config_of allow_in unix truncate upsert_by_identity
    create_token run delete_expired
fresh = refl

run-accepts_sign_in_example :
    ((authenticate_user api.auth "aeu_AQID" signed_in).0 ≡ ok new_session.user)
    ⊎ ((e : Error) × ((authenticate_user api.auth "aeu_AQID" signed_in).0
          ≡ err (wrap_error e "could not authenticate")))
run-accepts_sign_in_example =
    run-accepts_sign_in config engine codec library verifier digest verifier_quiet steps first refl
      input new_session signed_in signed_in ann_signs_in refl fresh

-- Two rounds.
abbrev waits : Round World
waits = record { cancelled = false; others = λ w. w; wake = tick }

abbrev ends : Round World
ends = record { cancelled = true; others = λ w. w; wake = done }

abbrev token : UserToken
token = user_token_from_row token_row

token_is_Alive : Alive engine "03" token start
unfolding lookup user_token_from_row
token_is_Alive = (refl, λ n. refl)

left_alone : (w : World) → Alive engine "03" token w → Alive engine "03" token w
left_alone w alive = alive

cleanup_expired_tokens-Alive_example :
    Alive engine "03" token
      (cleanup_expired_tokens
        (user_token_repository engine)
        journal_logger
        (waits ∷ ends ∷ [])
        start).0
cleanup_expired_tokens-Alive_example =
    cleanup_expired_tokens-Alive engine "03" token (waits ∷ ends ∷ []) start
      (left_alone, (left_alone, tt)) token_is_Alive

cleanup_expired_tokens_ends_example :
    cleanup_expired_tokens
      (user_token_repository engine)
      journal_logger
      (waits ∷ ends ∷ waits ∷ [])
      start
    ≡ (
      (sweep
          (user_token_repository engine)
          journal_logger
          true
          (after_ticks (user_token_repository engine) journal_logger (waits ∷ []) start)).1,
      true,
    )
cleanup_expired_tokens_ends_example =
    cleanup_expired_tokens_ends (user_token_repository engine) journal_logger (waits ∷ []) ends
      (waits ∷ []) start (refl, tt) refl
