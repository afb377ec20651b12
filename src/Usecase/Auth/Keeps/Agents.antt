-- ===== src/Usecase/Auth/Keeps/Agents.antt =====
-- server/internal/core/usecase/auth.go: what the calls for agents leave alone, and so every call.
use agent_events.Prelude.{String, [], ◌∷◌, none, some, not, ◌==◌, ◌||◌, Option-cases, inl, inr}
use agent_events.Prelude.Int.{leb_ℤ}
use agent_events.Time.{Time, is_zero, zero_time, sub}
use agent_events.Apperr.{
  is, invalid, user_not_found, agent_not_found, wrap_error, Error, sentinel_text,
}
use agent_events.Exec.{App, pure, fail, ◌>>◌}
use agent_events.Exec.Keeps.{
  Keeps, >>=-Keeps, catch-Keeps, if-Keeps, when-Keeps, pure-Keeps, fail-Keeps, end-Keeps,
}
use agent_events.Domain.{Agent, User, revoked, validate_agent}
use agent_events.Port.{info_level, warn_level, error_level, str, err_field, warn}
use agent_events.Usecase.Auth.{AuthService, AgentWithKey, token_prefix_agent, agent_touch_interval}
use agent_events.Usecase.Auth.Agents.{
  authenticate_agent, touch, store_agent, create_agent, list_agents, revoke_agent,
}
use agent_events.Usecase.Auth.History.{
  Request, sign_in, use_token, sign_out, use_key, add_agent, show_agents, bar_agent, perform,
}
use agent_events.Usecase.Auth.Keeps.{
  PortsKeep, log-Keeps, new_token-Keeps, exchange-Keeps, authenticate_user-Keeps,
  revoke_user_token-Keeps,
}

module _ {W : Type 0} {P : W → Type 0} (s : AuthService W) (ports : PortsKeep P s) where
  touch-Keeps : (g : Agent) (u : User) → Keeps P (touch s g u)
  unfolding touch
  touch-Keeps g u = >>=-Keeps ports.now λ now.
      >>=-Keeps {f = λ _. pure (record { agent = g; user = u })}
        (when-Keeps (is_zero g.last_used_at || leb_ℤ agent_touch_interval (sub now g.last_used_at))
          (catch-Keeps (ports.touch_last_used g.id now) λ e.
            log-Keeps s ports warn_level "failed to touch agent last used"
              (err_field e ∷ str "agent_id" g.id ∷ [])))
        λ _. pure-Keeps _

  pub authenticate_agent-Keeps : (raw : String) → Keeps P (authenticate_agent s raw)
  unfolding authenticate_agent
  authenticate_agent-Keeps raw =
      >>=-Keeps
        (catch-Keeps (ports.get_by_key_hash _)
          λ e. if-Keeps (is e agent_not_found) (end-Keeps λ w p. p) (end-Keeps (ports.log _ _ _)))
        λ agent. >>=-Keeps (when-Keeps (revoked agent) (end-Keeps (ports.log _ _ _))) λ _.
          >>=-Keeps
            (catch-Keeps (ports.get_user _) λ e.
              if-Keeps (is e user_not_found) (end-Keeps (ports.log _ _ _))
                (end-Keeps (ports.log _ _ _)))
            λ user. touch-Keeps agent user

  store_agent-Keeps : (unkeyed : Agent) → Keeps P (store_agent s unkeyed)
  unfolding store_agent
  store_agent-Keeps unkeyed =
      >>=-Keeps
        (catch-Keeps (new_token-Keeps s ports token_prefix_agent) λ e. end-Keeps (ports.log _ _ _))
        λ token.
          >>=-Keeps (catch-Keeps (ports.create_if_under_limit _ _) λ e. end-Keeps (ports.log _ _ _))
            λ created.
              >>=-Keeps (when-Keeps (not created) (end-Keeps (ports.log _ _ _)))
                λ _. end-Keeps (ports.log _ _ _)

  pub list_agents-Keeps : (user_id : String) → Keeps P (list_agents s user_id)
  unfolding list_agents
  list_agents-Keeps user_id =
      catch-Keeps (ports.list_by_user user_id) λ e. end-Keeps (ports.log _ _ _)

  -- `create_agent` behind its readings
  abbrev checked : String → Agent → App W AgentWithKey
  checked user_id agent = elim (validate_agent agent) [
    | some e ↦ (do
      warn s.logger "agent rejected" (err_field (Error.sentinel e) ∷ str "user_id" user_id ∷ [])
      fail (invalid (sentinel_text e)))
    | none ↦ store_agent s agent
  ]

  checked-Keeps : (user_id : String) (agent : Agent) → Keeps P (checked user_id agent)
  checked-Keeps user_id agent = end-Keeps λ w p. elim (Option-cases (validate_agent agent)) [
    | inl valid ↦ rw (checked, valid) ((store_agent-Keeps agent).kept w p)
    | inr (e, bad) ↦ rw (checked, bad) (ports.log _ _ _ w p)
  ]

  pub create_agent-Keeps : (user_id name : String) → Keeps P (create_agent s user_id name)
  unfolding create_agent
  create_agent-Keeps user_id name =
      let agent : String → Time → Agent = λ id now. record {
        id = id;
        user_id = user_id;
        name = name;
        key_hash = "";
        created_at = now;
        revoked_at = zero_time;
        last_used_at = zero_time;
      } in
      >>=-Keeps ports.new_uuid λ id.
        >>=-Keeps {f = λ now. checked user_id (agent id now)} ports.now
          λ now. checked-Keeps user_id (agent id now)

  pub revoke_agent-Keeps : (user_id id : String) → Keeps P (revoke_agent s user_id id)
  unfolding revoke_agent
  revoke_agent-Keeps user_id id =
      >>=-Keeps
        (catch-Keeps (ports.get_agent id)
          λ e. if-Keeps (is e agent_not_found) (end-Keeps λ w p. p) (end-Keeps (ports.log _ _ _)))
        λ agent.
          >>=-Keeps (when-Keeps (not (agent.user_id == user_id)) (end-Keeps (ports.log _ _ _))) λ _.
            if-Keeps (revoked agent) (pure-Keeps tt) (
              >>=-Keeps ports.now λ now.
                >>=-Keeps
                  (catch-Keeps (ports.revoke id now) λ e.
                    >>=-Keeps
                      (log-Keeps s ports error_level "failed to revoke agent"
                        (err_field e ∷ str "agent_id" id ∷ []))
                      λ _. fail-Keeps (wrap_error e "could not revoke agent"))
                  λ _.
                    log-Keeps s ports info_level "agent revoked"
                      (str "agent_id" id ∷ str "user_id" user_id ∷ []))

  -- A call of the service, whatever it is.
  pub perform-Keeps : (request : Request) (w : W) → P w → P (perform s request w)
  unfolding perform
  perform-Keeps (sign_in input) w p = (exchange-Keeps s ports input).kept w p
  perform-Keeps (use_token raw) w p = (authenticate_user-Keeps s ports raw).kept w p
  perform-Keeps (sign_out hash) w p = (revoke_user_token-Keeps s ports hash).kept w p
  perform-Keeps (use_key raw) w p = (authenticate_agent-Keeps raw).kept w p
  perform-Keeps (add_agent user_id name) w p = (create_agent-Keeps user_id name).kept w p
  perform-Keeps (show_agents user_id) w p = (list_agents-Keeps user_id).kept w p
  perform-Keeps (bar_agent user_id id) w p = (revoke_agent-Keeps user_id id).kept w p
