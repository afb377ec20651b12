-- ===== src/Usecase/Auth/AgentFails.antt =====
-- server/internal/core/usecase/auth.go: the failures of the ports that the methods on agents pass
-- on, as in Fails.antt.
use agent_events.Prelude.{ℕ, List, String, ◌≡◌, ◌≢◌, false}
use agent_events.Text.{◌^^◌, trim_space}
use agent_events.Encoding.{base64_encode}
use agent_events.Apperr.{Error, agent_not_found, user_not_found, is}
use agent_events.Exec.{ok, err}
use agent_events.Domain.{Agent, User, revoked}
use agent_events.Usecase.Auth.{AuthService, hash_token, token_prefix_agent}
use agent_events.Usecase.Auth.AgentOutcome.{new_agent}

pub data CredentialsFails {W : Type 0} (s : AuthService W) (raw : String) (w : W)
    : Error → Type 0 where
  unread :
      (e : Error) (w' : W)
      → s.agents.get_by_key_hash (hash_token s raw) w ≡ (err e, w')
      → is e agent_not_found ≡ false
      → CredentialsFails s raw w e
  unread_user :
      (e : Error) (g : Agent) (w₁ w₂ : W)
      → s.agents.get_by_key_hash (hash_token s raw) w ≡ (ok g, w₁)
      → revoked g ≡ false
      → s.users.get g.user_id w₁ ≡ (err e, w₂)
      → is e user_not_found ≡ false
      → CredentialsFails s raw w e

-- The time of the last use of the agent `g` could not be written.
pub data TouchFails {W : Type 0} (s : AuthService W) (raw : String) (w : W) : Agent → Type 0 where
  untouched :
      (e : Error) (g : Agent) (u : User) (w₁ w₂ w₃ : W)
      → s.agents.get_by_key_hash (hash_token s raw) w ≡ (ok g, w₁)
      → s.users.get g.user_id w₁ ≡ (ok u, w₂)
      → s.agents.touch_last_used g.id (s.runtime.now w₂).0 (s.runtime.now w₂).1 ≡ (err e, w₃)
      → TouchFails s raw w g

-- The agent that `create_agent` stores in the state `w`, for the key of the random bytes.
abbrev pub keyed_agent : {W : Type 0} → AuthService W → (user_id name : String) → List ℕ → W → Agent
keyed_agent s user_id name bytes w =
    new_agent (s.runtime.new_uuid w).0 user_id name
      (hash_token s (token_prefix_agent ^^ base64_encode bytes))
      (s.runtime.now (s.runtime.new_uuid w).1).0

pub data NewAgentFails {W : Type 0} (s : AuthService W) (user_id name : String) (w : W)
    : Error → Type 0 where
  no_random :
      (e : Error) (w' : W)
      → trim_space name ≢ ""
      → s.runtime.random_bytes (s.runtime.now (s.runtime.new_uuid w).1).1 ≡ (err e, w')
      → NewAgentFails s user_id name w e
  unstored :
      (e : Error) (bytes : List ℕ) (w₁ w₂ : W)
      → trim_space name ≢ ""
      → s.runtime.random_bytes (s.runtime.now (s.runtime.new_uuid w).1).1 ≡ (ok bytes, w₁)
      → s.agents.create_if_under_limit
          (keyed_agent s user_id name bytes w)
          s.config.max_agents_per_user
          w₁
        ≡ (err e, w₂)
      → NewAgentFails s user_id name w e

pub data RevokeFails {W : Type 0} (s : AuthService W) (user_id agent_id : String) (w : W)
    : Error → Type 0 where
  unread :
      (e : Error) (w' : W)
      → s.agents.get agent_id w ≡ (err e, w')
      → is e agent_not_found ≡ false
      → RevokeFails s user_id agent_id w e
  unrevoked :
      (e : Error) (g : Agent) (w₁ w₂ : W)
      → s.agents.get agent_id w ≡ (ok g, w₁)
      → g.user_id ≡ user_id
      → revoked g ≡ false
      → s.agents.revoke agent_id (s.runtime.now w₁).0 (s.runtime.now w₁).1 ≡ (err e, w₂)
      → RevokeFails s user_id agent_id w e
