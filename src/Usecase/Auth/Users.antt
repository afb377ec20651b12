-- ===== src/Usecase/Auth/Users.antt =====
-- server/internal/core/usecase/auth.go: signing in, the tokens of users, and signing out.
use agent_events.Prelude.{String, [], ◌∷◌, not, if◌then◌else◌}
use agent_events.Text.{◌^^◌}
use agent_events.Time.{add}
use agent_events.Apperr.{
  user_token_not_found, user_not_found, provider_unavailable, is, invalid, unauthorized, too_many,
  wrap_error,
}
use agent_events.Exec.{App, pure, fail, catch, lift, when, ◌>>=◌, ◌>>◌}
use agent_events.Domain.{User, Identity, valid_provider, expired}
use agent_events.Port.{str, err_field, info, warn, error_log}
use agent_events.Usecase.Auth.{
  AuthService, ExchangeInput, ExchangeResult, hash_token, new_token, action_auth_exchange,
  token_prefix_user,
}

module _ {W : Type 0} (s : AuthService W) where
  -- `AuthService.Exchange`, behind the verified identity
  unfoldable pub issue : ExchangeInput → Identity → App W ExchangeResult
  unfolding new_token add
  issue input identity = do
    user ← catch (s.users.upsert_by_identity identity.provider identity.subject identity.email) λ e.
        do
          error_log s.logger "failed to upsert user"
              (err_field e ∷ str "provider" identity.provider ∷ [])
          fail (wrap_error e "could not sign in")
    token ← catch (new_token s token_prefix_user) λ e. do
      error_log s.logger "failed to generate user token" (err_field e ∷ [])
      fail (wrap_error e "could not sign in")
    now ← lift s.runtime.now
    let expires_at = add now s.config.user_token_ttl
    catch
        (s.tokens.create (record {
          token_hash = token.1;
          user_id = user.id;
          expires_at = expires_at;
          created_at = now;
        }))
        λ e. do
          error_log s.logger "failed to store user token" (err_field e ∷ str "user_id" user.id ∷ [])
          fail (wrap_error e "could not sign in")
    info s.logger "user token issued" (
        str "user_id" user.id ∷ str "provider" user.provider ∷ str "client_ip" input.client_ip ∷ [])
    pure (record { user = user; token = token.0; expires_at = expires_at })

  -- `AuthService.Exchange`
  unfoldable pub exchange : ExchangeInput → App W ExchangeResult
  unfolding issue valid_provider
  exchange input = do
    when (not (valid_provider input.provider)) (fail (invalid "unknown identity provider"))
    allowed ← catch (s.limiter.allow ("ip:" ^^ input.client_ip) action_auth_exchange) λ e. do
      error_log s.logger "exchange rate limit check failed" (err_field e ∷ [])
      fail (wrap_error e "could not check rate limit")
    when (not allowed) do
      warn s.logger "exchange rate limited" (str "client_ip" input.client_ip ∷ [])
      fail (too_many "too many sign-in attempts, try again later")
    identity ← catch (s.verifier.verify input.provider input.id_token) λ e.
        if is e provider_unavailable
        then (do
          warn s.logger "exchange for unconfigured provider" (str "provider" input.provider ∷ [])
          fail (invalid "identity provider is not configured"))
        else (do
          warn s.logger "identity token rejected" (str "provider" input.provider ∷ err_field e ∷ [])
          fail (unauthorized "invalid or expired identity token"))
    issue input identity

  -- `AuthService.AuthenticateUser`
  unfoldable pub authenticate_user : String → App W User
  unfolding hash_token expired
  authenticate_user raw_token = do
    token ← catch (s.tokens.get_by_hash (hash_token s raw_token)) λ e.
        if is e user_token_not_found
        then fail (unauthorized "invalid or expired user token")
        else (do
          error_log s.logger "failed to fetch user token" (err_field e ∷ [])
          fail (wrap_error e "could not authenticate"))
    now ← lift s.runtime.now
    when (expired token now) (fail (unauthorized "invalid or expired user token"))
    catch (s.users.get token.user_id) λ e.
        if is e user_not_found then fail (unauthorized "invalid or expired user token") else (do
          error_log s.logger "failed to fetch user for token"
              (err_field e ∷ str "user_id" token.user_id ∷ [])
          fail (wrap_error e "could not authenticate"))

  -- `AuthService.RevokeUserToken`
  unfoldable pub revoke_user_token : String → App W (Unit {0})
  revoke_user_token token_hash = catch (s.tokens.delete_by_hash token_hash) λ e. do
    error_log s.logger "failed to revoke user token" (err_field e ∷ [])
    fail (wrap_error e "could not log out")
