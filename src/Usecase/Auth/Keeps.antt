-- ===== src/Usecase/Auth/Keeps.antt =====
-- server/internal/core/usecase/auth.go: what the account service leaves alone, if its ports do.
pub mod Agents
use agent_events.Prelude.{
  String, List, [], ◌∷◌, none, some, not, ◌==◌, ◌||◌, Option-cases, inl, inr, if◌then◌else◌,
}
use agent_events.Prelude.Int.{ℤ, leb_ℤ}
use agent_events.Time.{Time, is_zero, zero_time, sub, add}
use agent_events.Apperr.{
  is, invalid, unauthorized, user_token_not_found, user_not_found, agent_not_found,
  provider_unavailable, wrap_error, Error, sentinel_text,
}
use agent_events.Exec.{App, pure, fail, catch, lift, modify, ◌>>=◌, ◌>>◌}
use agent_events.Exec.Keeps.{
  Keeps, >>=-Keeps, catch-Keeps, if-Keeps, when-Keeps, pure-Keeps, fail-Keeps, end-Keeps,
}
use agent_events.Domain.{
  Agent, User, UserToken, Identity, revoked, expired, validate_agent, valid_provider,
}
use agent_events.Port.{
  Level, info_level, warn_level, error_level, Field, str, err_field, error_log, info, warn,
}
use agent_events.Usecase.Auth.{
  AuthService, ExchangeInput, ExchangeResult, AgentWithKey, new_token, token_prefix_user,
  token_prefix_agent, agent_touch_interval,
}
use agent_events.Usecase.Auth.Users.{exchange, issue, authenticate_user, revoke_user_token}
use agent_events.Usecase.Auth.Agents.{
  authenticate_agent, touch, store_agent, create_agent, list_agents, revoke_agent,
}
use agent_events.Usecase.Auth.History.{
  Request, sign_in, use_token, sign_out, use_key, add_agent, show_agents, bar_agent, perform,
}

-- Every method of the ports keeps the property.
pub record PortsKeep {W : Type 0} (P : W → Type 0) (s : AuthService W) : Type 0 where
  pub verify : (provider raw : String) → Keeps P (s.verifier.verify provider raw)
  pub upsert_by_identity :
      (provider subject email : String)
      → Keeps P (s.users.upsert_by_identity provider subject email)
  pub get_user : (id : String) → Keeps P (s.users.get id)
  pub create_token : (t : UserToken) → Keeps P (s.tokens.create t)
  pub get_by_hash : (hash : String) → Keeps P (s.tokens.get_by_hash hash)
  pub delete_by_hash : (hash : String) → Keeps P (s.tokens.delete_by_hash hash)
  pub create_if_under_limit : (g : Agent) (max : ℤ) → Keeps P (s.agents.create_if_under_limit g max)
  pub get_agent : (id : String) → Keeps P (s.agents.get id)
  pub get_by_key_hash : (hash : String) → Keeps P (s.agents.get_by_key_hash hash)
  pub list_by_user : (id : String) → Keeps P (s.agents.list_by_user id)
  pub revoke : (id : String) (at : Time) → Keeps P (s.agents.revoke id at)
  pub touch_last_used : (id : String) (at : Time) → Keeps P (s.agents.touch_last_used id at)
  pub allow : (key action : String) → Keeps P (s.limiter.allow key action)
  pub log : (l : Level) (msg : String) (fs : List Field) (w : W) → P w → P (s.logger.log l msg fs w)
  pub now : Keeps P (lift s.runtime.now)
  pub new_uuid : Keeps P (lift s.runtime.new_uuid)
  pub random_bytes : Keeps P s.runtime.random_bytes

module _ {W : Type 0} {P : W → Type 0} (s : AuthService W) (ports : PortsKeep P s) where
  pub log-Keeps :
      (l : Level) (msg : String) (fs : List Field) → Keeps P (modify (s.logger.log l msg fs))
  log-Keeps l msg fs = end-Keeps (ports.log l msg fs)

  pub new_token-Keeps : (prefix : String) → Keeps P (new_token s prefix)
  unfolding new_token
  new_token-Keeps prefix = >>=-Keeps ports.random_bytes λ bytes. pure-Keeps _

  -- `issue` behind the making of the token
  abbrev finish : ExchangeInput → User → String × String → App W ExchangeResult
  finish input user token = do
    now ← lift s.runtime.now
    let expires_at = add now s.config.user_token_ttl
    catch
        (s.tokens.create (record {
          token_hash = token.1;
          user_id = user.id;
          expires_at = expires_at;
          created_at = now;
        }))
        λ e. do
          error_log s.logger "failed to store user token" (err_field e ∷ str "user_id" user.id ∷ [])
          fail (wrap_error e "could not sign in")
    info s.logger "user token issued" (
        str "user_id" user.id ∷ str "provider" user.provider ∷ str "client_ip" input.client_ip ∷ [])
    pure (record { user = user; token = token.0; expires_at = expires_at })

  finish-Keeps :
      (input : ExchangeInput) (user : User) (token : String × String)
      → Keeps P (finish input user token)
  finish-Keeps input user token = >>=-Keeps ports.now λ now.
      let stored : UserToken = record {
        token_hash = token.1;
        user_id = user.id;
        expires_at = add now s.config.user_token_ttl;
        created_at = now;
      } in
      >>=-Keeps
        {f = λ _. do
          info s.logger "user token issued" (
              str "user_id" user.id
              ∷ str "provider" user.provider
              ∷ str "client_ip" input.client_ip
              ∷ [])
          pure (record { user = user; token = token.0; expires_at = stored.expires_at })}
        (catch-Keeps (ports.create_token stored) λ e.
          >>=-Keeps
            (log-Keeps error_level "failed to store user token"
              (err_field e ∷ str "user_id" user.id ∷ []))
            λ _. fail-Keeps (wrap_error e "could not sign in"))
        λ _. end-Keeps (ports.log _ _ _)

  issue-Keeps : (input : ExchangeInput) (identity : Identity) → Keeps P (issue s input identity)
  unfolding issue
  issue-Keeps input identity =
      >>=-Keeps (catch-Keeps (ports.upsert_by_identity _ _ _) λ e. end-Keeps (ports.log _ _ _))
        λ user.
          >>=-Keeps {f = finish input user}
            (catch-Keeps (new_token-Keeps token_prefix_user) λ e. end-Keeps (ports.log _ _ _))
            (finish-Keeps input user)

  pub exchange-Keeps : (input : ExchangeInput) → Keeps P (exchange s input)
  unfolding exchange
  exchange-Keeps input =
      >>=-Keeps
        (when-Keeps (not (valid_provider input.provider))
          (fail-Keeps (invalid "unknown identity provider")))
        λ _. >>=-Keeps (catch-Keeps (ports.allow _ _) λ e. end-Keeps (ports.log _ _ _)) λ allowed.
          >>=-Keeps (when-Keeps (not allowed) (end-Keeps (ports.log _ _ _))) λ _.
            >>=-Keeps
              (catch-Keeps (ports.verify _ _) λ e.
                if-Keeps (is e provider_unavailable) (end-Keeps (ports.log _ _ _))
                  (end-Keeps (ports.log _ _ _)))
              λ identity. issue-Keeps input identity

  -- `authenticate_user` behind the test of the token
  abbrev owner_of : String → App W User
  owner_of id = catch (s.users.get id) λ e.
      if is e user_not_found then fail (unauthorized "invalid or expired user token") else (do
        error_log s.logger "failed to fetch user for token" (err_field e ∷ str "user_id" id ∷ [])
        fail (wrap_error e "could not authenticate"))

  owner_of-Keeps : (id : String) → Keeps P (owner_of id)
  owner_of-Keeps id =
      catch-Keeps (ports.get_user id)
        λ e. if-Keeps (is e user_not_found) (end-Keeps λ w p. p) (end-Keeps (ports.log _ _ _))

  pub authenticate_user-Keeps : (raw : String) → Keeps P (authenticate_user s raw)
  unfolding authenticate_user
  authenticate_user-Keeps raw =
      >>=-Keeps
        (catch-Keeps (ports.get_by_hash _) λ e.
          if-Keeps (is e user_token_not_found) (end-Keeps λ w p. p) (end-Keeps (ports.log _ _ _)))
        λ token. >>=-Keeps ports.now λ now.
          >>=-Keeps {f = λ _. owner_of token.user_id}
            (when-Keeps (expired token now)
              (fail-Keeps (unauthorized "invalid or expired user token")))
            λ _. owner_of-Keeps token.user_id

  pub revoke_user_token-Keeps : (hash : String) → Keeps P (revoke_user_token s hash)
  unfolding revoke_user_token
  revoke_user_token-Keeps hash =
      catch-Keeps (ports.delete_by_hash hash) λ e. end-Keeps (ports.log _ _ _)
