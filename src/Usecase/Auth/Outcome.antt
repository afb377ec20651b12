-- ===== src/Usecase/Auth/Outcome.antt =====
-- server/internal/core/usecase/auth.go: the contracts of the methods on users and tokens, in terms
-- of the stored accounts alone: how the accounts before the call, those after it and the result are
-- related. The errors of the ports that a method may wrap are those of which `fails` holds;
-- Fails.antt has them.
use agent_events.Prelude.{String, ◌≡◌, Bool, true, false, none, some}
use agent_events.Prelude.Int.{leb_ℤ, ltb_ℤ}
use agent_events.Time.{Time, add}
use agent_events.Apperr.{
  Error, provider_unavailable, is, invalid, unauthorized, too_many, wrap_error,
}
use agent_events.Exec.{Result, ok, err}
use agent_events.Domain.{User, UserToken, Identity, valid_provider}
use agent_events.Port.Accounts.{Accounts, AccountModel, put_token, drop_token}
use agent_events.Usecase.Auth.{AuthConfig, ExchangeInput, ExchangeResult}

-- A token is used at the time `now`.
pub data UserOutcome (fails : Error → Type 0) (hash : String) (now : Time) (before after : Accounts)
    : Result User → Type 0 where
  unknown :
      before.token hash ≡ none
      → after ≡ before
      → UserOutcome fails hash now before after (err (unauthorized "invalid or expired user token"))
  over :
      (t : UserToken)
      → before.token hash ≡ some t
      → leb_ℤ t.expires_at now ≡ true
      → after ≡ before
      → UserOutcome fails hash now before after (err (unauthorized "invalid or expired user token"))
  orphan :
      (t : UserToken)
      → before.token hash ≡ some t
      → ltb_ℤ now t.expires_at ≡ true
      → before.user t.user_id ≡ none
      → after ≡ before
      → UserOutcome fails hash now before after (err (unauthorized "invalid or expired user token"))
  failed :
      (e : Error)
      → fails e
      → after ≡ before
      → UserOutcome fails hash now before after (err (wrap_error e "could not authenticate"))
  accepted :
      (t : UserToken) (u : User)
      → before.token hash ≡ some t
      → ltb_ℤ now t.expires_at ≡ true
      → before.user t.user_id ≡ some u
      → after ≡ before
      → UserOutcome fails hash now before after (ok u)

-- `verdict` is the answer of the rate limiter, `verified` that of the identity provider.
pub data ExchangeOutcome (fails : Error → Type 0) (m : AccountModel) (hash : String → String)
    (config : AuthConfig) (input : ExchangeInput) (verdict : Result Bool)
    (verified : Result Identity) (before after : Accounts) : Result ExchangeResult → Type 0 where
  unknown_provider :
      valid_provider input.provider ≡ false
      → after ≡ before
      → ExchangeOutcome fails m hash config input verdict verified before after
          (err (invalid "unknown identity provider"))
  unchecked :
      (e : Error)
      → valid_provider input.provider ≡ true
      → verdict ≡ err e
      → after ≡ before
      → ExchangeOutcome fails m hash config input verdict verified before after
          (err (wrap_error e "could not check rate limit"))
  limited :
      valid_provider input.provider ≡ true
      → verdict ≡ ok false
      → after ≡ before
      → ExchangeOutcome fails m hash config input verdict verified before after
          (err (too_many "too many sign-in attempts, try again later"))
  unconfigured :
      (e : Error)
      → valid_provider input.provider ≡ true
      → verdict ≡ ok true
      → verified ≡ err e
      → is e provider_unavailable ≡ true
      → after ≡ before
      → ExchangeOutcome fails m hash config input verdict verified before after
          (err (invalid "identity provider is not configured"))
  rejected :
      (e : Error)
      → valid_provider input.provider ≡ true
      → verdict ≡ ok true
      → verified ≡ err e
      → is e provider_unavailable ≡ false
      → after ≡ before
      → ExchangeOutcome fails m hash config input verdict verified before after
          (err (unauthorized "invalid or expired identity token"))
  failed :
      (e : Error)
      → fails e
      → after ≡ record before { user = after.user }
      → ExchangeOutcome fails m hash config input verdict verified before after
          (err (wrap_error e "could not sign in"))
  issued :
      (identity : Identity) (user : User) (raw : String) (now : Time)
      → valid_provider input.provider ≡ true
      → verdict ≡ ok true
      → verified ≡ ok identity
      → user.provider ≡ identity.provider
      → user.subject ≡ identity.subject
      → before.token (hash raw) ≡ none
      → after
        ≡ put_token m
            (record {
              token_hash = hash raw;
              user_id = user.id;
              expires_at = add now config.user_token_ttl;
              created_at = now;
            })
            (record before { user = after.user })
      → ExchangeOutcome fails m hash config input verdict verified before after
          (ok (record { user = user; token = raw; expires_at = add now config.user_token_ttl }))

pub data LogoutOutcome (fails : Error → Type 0) (hash : String) (before after : Accounts)
    : Result (Unit {0}) → Type 0 where
  failed :
      (e : Error)
      → fails e
      → after ≡ before
      → LogoutOutcome fails hash before after (err (wrap_error e "could not log out"))
  removed : after ≡ drop_token hash before → LogoutOutcome fails hash before after (ok tt)
