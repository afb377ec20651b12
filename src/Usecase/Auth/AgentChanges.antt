-- ===== src/Usecase/Auth/AgentChanges.antt =====
-- server/internal/core/usecase/auth.go: `CreateAgent`, `RevokeAgent` and `ListAgents` against
-- AgentOutcome.antt.
use agent_events.Prelude.{
  ℕ, List, String, ◌≡◌, refl, ap, ◌∙◌, inl, inr, true, false, Bool-cases, eq_iff, ◌≢◌,
  ne_of_eq_false, ◌==◌,
}
use agent_events.Text.{◌^^◌, trim_space}
use agent_events.Encoding.{base64_encode}
use agent_events.Apperr.{agent_not_found, is, sentinel_text}
use agent_events.Exec.{Result, run-cases}
use agent_events.Domain.{revoked}
use agent_events.Domain.Laws.{validate_agent-blank, validate_agent-named}
use agent_events.Port.{info_level, warn_level, error_level}
use agent_events.Port.Accounts.{Accounts, AccountModel, change_agent, mark_revoked, put_agent}
use agent_events.Usecase.Auth.{AuthService, hash_token, token_prefix_agent}
use agent_events.Usecase.Auth.Agents.{store_agent, create_agent, list_agents, revoke_agent}
use agent_events.Usecase.Auth.Laws.{AuthLaws}
use agent_events.Usecase.Auth.AgentFails.{NewAgentFails, RevokeFails}
use agent_events.Usecase.Auth.AgentOutcome.{NewAgentOutcome, RevokeOutcome, new_agent}

module _ {W : Type 0} (s : AuthService W) (m : AccountModel) (at : W → Accounts)
    (laws : AuthLaws m at s) where
  open laws use {users, agents, frame}

  random-quiet :
      (w : W) {r : Result (List ℕ)} {w' : W} → s.runtime.random_bytes w ≡ (r, w') → at w' ≡ at w
  random-quiet w h = rw (ap (λ (p : Result (List ℕ) × W). p.1) h) at (frame.random_quiet w)

  -- The part of `create_agent` behind the validation.
  store_agent-refines :
      (user_id name : String) (w : W)
      → let id = (s.runtime.new_uuid w).0 in
        let now = (s.runtime.now (s.runtime.new_uuid w).1).0 in
        let w' = (s.runtime.now (s.runtime.new_uuid w).1).1 in
        trim_space name ≢ ""
        → NewAgentOutcome
            (NewAgentFails s user_id name w)
            m
            (hash_token s)
            s.config.max_agents_per_user
            user_id
            name
            (at w)
            (at (store_agent s (new_agent id user_id name "" now) w').1)
            (store_agent s (new_agent id user_id name "" now) w').0
  unfolding store_agent
  store_agent-refines user_id name w named =
      let id = (s.runtime.new_uuid w).0 in
      let w₀ = (s.runtime.new_uuid w).1 in
      let now = (s.runtime.now w₀).0 in
      let w' = (s.runtime.now w₀).1 in
      let quiet : at w' ≡ at w = frame.now_quiet w₀ ∙ frame.uuid_quiet w in
      let max = s.config.max_agents_per_user in
      elim (run-cases (s.runtime.random_bytes w')) [
        | inr (e, w₁, h) ↦ rw h (
            NewAgentOutcome.failed e (NewAgentFails.no_random e w₁ named h)
              (frame.log_quiet error_level _ _ w₁ ∙ random-quiet w' h ∙ quiet))
        | inl (bytes, w₁, h) ↦
            let key = token_prefix_agent ^^ base64_encode bytes in
            let g = new_agent id user_id name (hash_token s key) now in
            let quiet₁ : at w₁ ≡ at w = random-quiet w' h ∙ quiet in
            elim (run-cases (s.agents.create_if_under_limit g max w₁)) [
              | inr (e, w₂, k) ↦
                  rw (h, k)
                    (NewAgentOutcome.failed e (NewAgentFails.unstored e bytes w₁ w₂ named h k) (
                      frame.log_quiet error_level _ _ w₂
                      ∙ agents.create_err g max w₁ w₂ e k
                      ∙ quiet₁))
              | inl (false, w₂, k) ↦
                  let (none_left, quiet₂) = agents.create_full g max w₁ w₂ k in
                  rw (h, k)
                    (NewAgentOutcome.full (rw (← quiet₁) none_left)
                      (frame.log_quiet warn_level _ _ w₂ ∙ quiet₂ ∙ quiet₁))
              | inl (true, w₂, k) ↦
                  let (room, free, key_free, after) = agents.create_ok g max w₁ w₂ refl k in
                  rw (h, k)
                    (NewAgentOutcome.created id key now named (rw (← quiet₁) room)
                      (rw (← quiet₁) free) (rw (← quiet₁) key_free)
                      (frame.log_quiet info_level _ _ w₂ ∙ after ∙ ap (put_agent m g) quiet₁))
            ]
      ]

  -- Over any ports that keep their laws, `create_agent` has one of the outcomes of NewAgentOutcome,
  -- with the failures of NewAgentFails: a blank name and a full limit give the error of the case
  -- and change nothing; where no random bytes come or the agent cannot be stored, that error is
  -- wrapped and nothing is changed; success stores exactly the new agent with the hash of the key
  -- that it returns, under a free id, and only below the limit.
  pub create_agent-refines :
      (user_id name : String) (w : W)
      → NewAgentOutcome
          (NewAgentFails s user_id name w)
          m
          (hash_token s)
          s.config.max_agents_per_user
          user_id
          name
          (at w)
          (at (create_agent s user_id name w).1)
          (create_agent s user_id name w).0
  unfolding create_agent sentinel_text
  create_agent-refines user_id name w =
      let id = (s.runtime.new_uuid w).0 in
      let w₁ = (s.runtime.new_uuid w).1 in
      let now = (s.runtime.now w₁).0 in
      let w₂ = (s.runtime.now w₁).1 in
      let new = new_agent id user_id name "" now in
      let quiet₂ : at w₂ ≡ at w = frame.now_quiet w₁ ∙ frame.uuid_quiet w in
      elim (Bool-cases (trim_space name == "")) [
        | inl blank ↦ rw (validate_agent-blank new ((eq_iff _ _).0 blank)) (
            NewAgentOutcome.blank_name ((eq_iff _ _).0 blank)
              (frame.log_quiet warn_level _ _ w₂ ∙ quiet₂))
        | inr named ↦
            rw (validate_agent-named new (ne_of_eq_false _ _ named))
              (store_agent-refines user_id name w (ne_of_eq_false _ _ named))
      ]

  -- Over any ports that keep their laws, `revoke_agent` has one of the outcomes of RevokeOutcome,
  -- with the failures of RevokeFails: a missing agent and another's agent give the error of the
  -- case and change nothing; where a call of the store fails otherwise, its error is wrapped and
  -- nothing is changed; an agent that is revoked already stays as it is, and success revokes the
  -- caller's own agent and no other.
  pub revoke_agent-refines :
      (user_id agent_id : String) (w : W)
      → RevokeOutcome
          (RevokeFails s user_id agent_id w)
          m
          user_id
          agent_id
          (at w)
          (at (revoke_agent s user_id agent_id w).1)
          (revoke_agent s user_id agent_id w).0
  unfolding revoke_agent
  revoke_agent-refines user_id agent_id w = elim (run-cases (s.agents.get agent_id w)) [
    | inr (e, w', h) ↦ elim (Bool-cases (is e agent_not_found)) [
      | inl gone ↦
          rw (h, gone)
            (RevokeOutcome.missing ((agents.get_err _ w w' e h).1 gone)
              (agents.get_err _ w w' e h).0)
      | inr other ↦
          rw (h, other)
            (RevokeOutcome.failed e (RevokeFails.unread e w' h other)
              (frame.log_quiet error_level _ _ w' ∙ (agents.get_err _ w w' e h).0))
    ]
    | inl (g, w', h) ↦
        let (quiet, found) = agents.get_ok _ w w' g h in
        elim (Bool-cases (g.user_id == user_id)) [
          | inr other ↦
              rw (h, other)
                (RevokeOutcome.denied g found (ne_of_eq_false _ _ other)
                  (frame.log_quiet warn_level _ _ w' ∙ quiet))
          | inl own ↦ elim (Bool-cases (revoked g)) [
            | inl over ↦
                rw (h, own, over)
                  (RevokeOutcome.revoked_before g found ((eq_iff _ _).0 own) over quiet)
            | inr usable ↦
                let now = (s.runtime.now w').0 in
                let w₁ = (s.runtime.now w').1 in
                let quiet₁ : at w₁ ≡ at w = frame.now_quiet w' ∙ quiet in
                elim (run-cases (s.agents.revoke agent_id now w₁)) [
                  | inr (e, w₂, k) ↦
                      rw (h, own, usable, k)
                        (RevokeOutcome.failed e
                          (RevokeFails.unrevoked e g w' w₂ h ((eq_iff _ _).0 own) usable k)
                          (frame.log_quiet error_level _ _ w₂
                            ∙ agents.revoke_err agent_id now w₁ w₂ e k
                            ∙ quiet₁))
                  | inl (_, w₂, k) ↦
                      let (after, fewer) = agents.revoke_ok agent_id now w₁ w₂ k in
                      rw (h, own, usable, k)
                        (RevokeOutcome.revoked_now g now found ((eq_iff _ _).0 own) usable
                          (rw frame.log_quiet (
                            after
                            ∙ ap (change_agent m (at w₂).active agent_id (mark_revoked m now))
                                quiet₁))
                          (λ u. rw (frame.log_quiet, ← quiet₁) (fewer u)))
                ]
          ]
        ]
  ]

  pub list_agents-quiet : (user_id : String) (w : W) → at (list_agents s user_id w).1 ≡ at w
  unfolding list_agents
  list_agents-quiet user_id w = elim (run-cases (s.agents.list_by_user user_id w)) [
    | inr (e, w', h) ↦
        rw h (frame.log_quiet error_level _ _ w' ∙ rw h at (agents.list_quiet user_id w))
    | inl (found, w', h) ↦ rw h (rw h at (agents.list_quiet user_id w))
  ]
