-- ===== src/Usecase/Auth/Agents.antt =====
-- server/internal/core/usecase/auth.go: the agents of a user and their keys.
use agent_events.Prelude.{String, none, some, List, [], ◌∷◌, not, ◌||◌, ◌==◌, if◌then◌else◌}
use agent_events.Prelude.Int.{leb_ℤ}
use agent_events.Time.{zero_time, is_zero, sub}
use agent_events.Apperr.{
  Error, sentinel_text, user_not_found, agent_not_found, is, not_found, invalid, unauthorized,
  forbidden, wrap_error,
}
use agent_events.Exec.{App, pure, fail, catch, lift, when, ◌>>=◌, ◌>>◌}
use agent_events.Domain.{Agent, User, revoked, validate_agent}
use agent_events.Port.{str, int, err_field, info, warn, error_log}
use agent_events.Usecase.Auth.{
  AuthService, AgentWithKey, AgentCredentials, hash_token, new_token, token_prefix_agent,
  agent_touch_interval,
}

module _ {W : Type 0} (s : AuthService W) where
  -- `AuthService.AuthenticateAgent`, from the reading of the clock to the end
  unfoldable pub touch : Agent → User → App W AgentCredentials
  unfolding sub
  touch agent user = do
    now ← lift s.runtime.now
    when (is_zero agent.last_used_at || leb_ℤ agent_touch_interval (sub now agent.last_used_at)) (
        catch (s.agents.touch_last_used agent.id now) λ e.
          warn s.logger "failed to touch agent last used"
            (err_field e ∷ str "agent_id" agent.id ∷ []))
    pure (record { agent = agent; user = user })

  -- `AuthService.AuthenticateAgent`
  unfoldable pub authenticate_agent : String → App W AgentCredentials
  unfolding hash_token touch
  authenticate_agent raw_key = do
    agent ← catch (s.agents.get_by_key_hash (hash_token s raw_key)) λ e.
        if is e agent_not_found then fail (unauthorized "invalid agent key") else (do
          error_log s.logger "failed to fetch agent by key" (err_field e ∷ [])
          fail (wrap_error e "could not authenticate"))
    when (revoked agent) do
      warn s.logger "revoked agent key used"
          (str "agent_id" agent.id ∷ str "user_id" agent.user_id ∷ [])
      fail (unauthorized "agent key has been revoked")
    user ← catch (s.users.get agent.user_id) λ e.
        if is e user_not_found
        then (do
          error_log s.logger "agent references missing user"
              (str "agent_id" agent.id ∷ str "user_id" agent.user_id ∷ [])
          fail (unauthorized "invalid agent key"))
        else (do
          error_log s.logger "failed to fetch agent user"
              (err_field e ∷ str "agent_id" agent.id ∷ [])
          fail (wrap_error e "could not authenticate"))
    touch agent user

  -- `AuthService.CreateAgent`, behind the validation of the agent
  unfoldable pub store_agent : Agent → App W AgentWithKey
  unfolding new_token
  store_agent unkeyed = do
    token ← catch (new_token s token_prefix_agent) λ e. do
      error_log s.logger "failed to generate agent key" (err_field e ∷ [])
      fail (wrap_error e "could not create agent")
    let agent : Agent = record unkeyed { key_hash = token.1 }
    created ← catch (s.agents.create_if_under_limit agent s.config.max_agents_per_user) λ e. do
      error_log s.logger "failed to store agent" (err_field e ∷ str "user_id" agent.user_id ∷ [])
      fail (wrap_error e "could not create agent")
    when (not created) do
      warn s.logger "agent limit reached"
          (str "user_id" agent.user_id ∷ int "max_agents" s.config.max_agents_per_user ∷ [])
      fail (forbidden "agent limit reached, revoke an agent first")
    info s.logger "agent created" (str "agent_id" agent.id ∷ str "user_id" agent.user_id ∷ [])
    pure (record { agent = agent; key = token.0 })

  -- `AuthService.CreateAgent`
  unfoldable pub create_agent : (user_id name : String) → App W AgentWithKey
  unfolding store_agent validate_agent
  create_agent user_id name = do
    id ← lift s.runtime.new_uuid
    now ← lift s.runtime.now
    let agent : Agent = record {
      id = id;
      user_id = user_id;
      name = name;
      key_hash = "";
      created_at = now;
      revoked_at = zero_time;
      last_used_at = zero_time;
    }
    elim (validate_agent agent) [
      | some e ↦ (do
        warn s.logger "agent rejected" (err_field (Error.sentinel e) ∷ str "user_id" user_id ∷ [])
        fail (invalid (sentinel_text e)))
      | none ↦ store_agent agent
    ]

  -- `AuthService.ListAgents`
  unfoldable pub list_agents : String → App W (List Agent)
  list_agents user_id = catch (s.agents.list_by_user user_id) λ e. do
    error_log s.logger "failed to list agents" (err_field e ∷ str "user_id" user_id ∷ [])
    fail (wrap_error e "could not list agents")

  -- `AuthService.RevokeAgent`
  unfoldable pub revoke_agent : (user_id agent_id : String) → App W (Unit {0})
  revoke_agent user_id agent_id = do
    agent ← catch (s.agents.get agent_id) λ e.
        if is e agent_not_found then fail (not_found "agent not found") else (do
          error_log s.logger "failed to fetch agent for revoke"
              (err_field e ∷ str "agent_id" agent_id ∷ [])
          fail (wrap_error e "could not revoke agent"))
    when (not (agent.user_id == user_id)) do
      warn s.logger "agent revoke denied for non-user" (
          str "agent_id" agent_id
          ∷ str "requesting_user_id" user_id
          ∷ str "agent_user_id" agent.user_id
          ∷ [])
      fail (forbidden "agent does not belong to you")
    if revoked agent then pure tt else do
      now ← lift s.runtime.now
      catch (s.agents.revoke agent_id now) λ e. do
        error_log s.logger "failed to revoke agent" (err_field e ∷ str "agent_id" agent_id ∷ [])
        fail (wrap_error e "could not revoke agent")
      info s.logger "agent revoked" (str "agent_id" agent_id ∷ str "user_id" user_id ∷ [])
