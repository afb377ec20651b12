-- ===== src/Http/Router/SignOut.antt =====
-- server/internal/transport/http/handler/auth.go: the end of a session.
use mathlib.Core.Option.{some-injective}
use agent_events.Prelude.{String, ◌≤◌, ◌<◌, ◌≡◌, sym, ap, ◌∙◌, inl, inr, none, some, List, arith}
use agent_events.Exec.{Result, ok, run-cases}
use agent_events.Port.{Level, Field}
use agent_events.Port.Accounts.{Accounts, AccountModel}
use agent_events.Usecase.Auth.{hash_token}
use agent_events.Usecase.Auth.Laws.{AuthLaws}
use agent_events.Usecase.Auth.Users.{authenticate_user, revoke_user_token}
use agent_events.Usecase.Auth.UserRefines.{authenticate_user-refines, revoke_user_token-refines}
use agent_events.Usecase.Auth.Sessions.{unknown-refused, removed-gone}
use agent_events.Http.Response.{Response}
use agent_events.Http.Bearer.{bearer_token}
use agent_events.Http.Api.{Api, Request, Payload, UserIdentity, empty_context, with_user, respond}
use agent_events.Http.AccountHandler.{sign_out}
use agent_events.Http.Router.{Route, delete_session, require_user, route, serve}
use agent_events.Http.Router.Refused.{
  Credential, nothing, user_token, agent_key, credential, Unaccepted, respond-error, serve-refuses,
}

module _ {W : Type 0} (api : Api W) (m : AccountModel) (at : W → Accounts)
    (laws : AuthLaws m at api.auth)
    (log_quiet : (l : Level) (msg : String) (fs : List Field) (w : W)
      → at (api.log.log l msg fs w) ≡ at w) where
  sign_out-gone :
      (identity : UserIdentity) (w w' : W) (response : Response Payload)
      → sign_out api (with_user empty_context identity) w ≡ (ok response, w')
      → (at w').token identity.token_hash ≡ none
  unfolding sign_out
  sign_out-gone identity w w' response h =
      let hash = identity.token_hash in
      let outcome = revoke_user_token-refines api.auth m at laws hash w in
      elim (run-cases (revoke_user_token api.auth hash w)) [
        | inr (e, w₁, k) ↦ cc (rw k at h)
        | inl (_, w₁, k) ↦
            let gone = removed-gone (ap (λ (p : Result (Unit {0}) × W). p.0) k) outcome in
            let same : w₁ ≡ w' = let x = rw k at h in ground arith in rw (← same) (rw k at gone)
      ]

  session-gone :
      (raw : String) (r : Request) (w w' : W) (response : Response Payload)
      → bearer_token r.authorization ≡ some raw
      → route api delete_session r w ≡ (ok response, w')
      → (at w').token (hash_token api.auth raw) ≡ none
  unfolding route require_user
  session-gone raw r w w' response carried h = elim (run-cases (authenticate_user api.auth raw w)) [
    | inr (e, w₁, k) ↦ cc (rw (carried, require_user, k) at h)
    | inl (user, w₁, k) ↦
        sign_out-gone (record { user = user; token_hash = hash_token api.auth raw }) w₁ w' response
          (rw (carried, require_user, k) at h)
  ]

  gone_is_Unaccepted :
      (raw : String) (r : Request) (w : W)
      → (at w).token (hash_token api.auth raw) ≡ none
      → bearer_token r.authorization ≡ some raw
      → (kind : Credential) → kind ≡ user_token
      → Unaccepted api kind r w
  gone_is_Unaccepted raw r w gone carried user_token same = λ key u given known.
      let read : raw ≡ key = some-injective _ _ (sym carried ∙ given) in
      unknown-refused gone (authenticate_user-refines api.auth m at laws raw w) u
        (ap (λ k. (authenticate_user api.auth k w).0) read ∙ known)
  gone_is_Unaccepted raw r w gone carried nothing same = cc
  gone_is_Unaccepted raw r w gone carried agent_key same = cc

  -- Over any ports that keep their laws, if the log changes no accounts, then once a request to
  -- sign out has been answered with a status below 400, its token is refused with the status of an
  -- error on every route for users, in any state with the accounts that it left.
  pub serve-ends_session :
      (raw : String) (r : Request) (w : W)
      → bearer_token r.authorization ≡ some raw
      → (serve api delete_session r w).0.status < 400
      → (rt : Route) (r' : Request) (w' : W) → credential rt ≡ user_token
      → bearer_token r'.authorization ≡ some raw
      → at w' ≡ at (serve api delete_session r w).1
      → 400 ≤ (serve api rt r' w').0.status
  unfolding serve
  serve-ends_session raw r w carried success rt r' w' asks carried' same =
      elim (run-cases (route api delete_session r w)) [
        | inr (e, w₁, k) ↦
            let high = respond-error api.log e w₁ in
            let low = rw k at success in absurd (omega (arith, high, low))
        | inl (response, w₁, k) ↦
            let left : at w' ≡ at w₁ = rw (k, respond) at same in
            let gone = session-gone raw r w w₁ response carried k in
            (serve-refuses api m at laws log_quiet rt r' w'
              (gone_is_Unaccepted raw r' w' (rw left gone) carried' (credential rt) asks)).0
      ]
