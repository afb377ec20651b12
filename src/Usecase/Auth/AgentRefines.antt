-- ===== src/Usecase/Auth/AgentRefines.antt =====
-- server/internal/core/usecase/auth.go: `AuthenticateAgent` against AgentOutcome.antt.
use agent_events.Prelude.{String, ◌≡◌, ◌∙◌, inl, inr, false, some, Bool-cases, ◌||◌}
use agent_events.Prelude.Int.{leb_ℤ}
use agent_events.Time.{is_zero, sub}
use agent_events.Apperr.{Error, user_not_found, agent_not_found, is}
use agent_events.Exec.{err, run-cases}
use agent_events.Domain.{Agent, User, revoked}
use agent_events.Port.{warn_level, error_level}
use agent_events.Port.Accounts.{Accounts, AccountModel, agent_of}
use agent_events.Usecase.Auth.{AuthService, hash_token, agent_touch_interval}
use agent_events.Usecase.Auth.Agents.{touch, authenticate_agent}
use agent_events.Usecase.Auth.Laws.{AuthLaws}
use agent_events.Usecase.Auth.AgentFails.{CredentialsFails, TouchFails}
use agent_events.Usecase.Auth.AgentOutcome.{CredentialsOutcome}

module _ {W : Type 0} (s : AuthService W) (m : AccountModel) (at : W → Accounts)
    (laws : AuthLaws m at s) where
  open laws use {users, agents, frame}

  -- The part of `authenticate_agent` behind the user.
  touch-refines :
      (fails : Error → Type 0) (untouched : Agent → Type 0) (hash : String) (g : Agent) (u : User)
      (w w' : W)
      → at w' ≡ at w
      → agent_of ((at w).keyed hash) ≡ some g
      → revoked g ≡ false
      → (at w).user g.user_id ≡ some u
      → ((e : Error) (w₃ : W)
          → s.agents.touch_last_used g.id (s.runtime.now w').0 (s.runtime.now w').1 ≡ (err e, w₃)
          → untouched g)
      → CredentialsOutcome fails untouched m hash (at w) (at (touch s g u w').1) (touch s g u w').0
  unfolding touch
  touch-refines fails untouched hash g u w w' quiet keyed usable owner broken =
      let now = (s.runtime.now w').0 in
      let w₁ = (s.runtime.now w').1 in
      let quiet₁ : at w₁ ≡ at w = frame.now_quiet w' ∙ quiet in
      elim (Bool-cases
        (is_zero g.last_used_at || leb_ℤ agent_touch_interval (sub now g.last_used_at))) [
          | inr lately ↦
              rw lately (CredentialsOutcome.used_lately g u now keyed usable owner lately quiet₁)
          | inl due ↦ elim (run-cases (s.agents.touch_last_used g.id now w₁)) [
            | inl (_, w₂, k) ↦
                rw (due, k)
                  (CredentialsOutcome.used g u now keyed usable owner due
                    (inr (rw quiet₁ at (agents.touch_ok g.id now w₁ w₂ k))))
            | inr (e, w₂, k) ↦
                rw (due, k)
                  (CredentialsOutcome.used g u now keyed usable owner due (
                    inl (
                      broken e w₂ k,
                      frame.log_quiet warn_level _ _ w₂
                          ∙ agents.touch_err g.id now w₁ w₂ e k
                          ∙ quiet₁,
                    )))
          ]
        ]

  pub authenticate_agent-refines :
      (raw : String) (w : W)
      → CredentialsOutcome
          (CredentialsFails s raw w)
          (TouchFails s raw w)
          m
          (hash_token s raw)
          (at w)
          (at (authenticate_agent s raw w).1)
          (authenticate_agent s raw w).0
  unfolding authenticate_agent
  authenticate_agent-refines raw w =
      let hash = hash_token s raw in
      elim (run-cases (s.agents.get_by_key_hash hash w)) [
        | inr (e, w', h) ↦ elim (Bool-cases (is e agent_not_found)) [
          | inl gone ↦
              rw (h, gone)
                (CredentialsOutcome.unknown ((agents.get_by_key_err hash w w' e h).1 gone)
                  (agents.get_by_key_err hash w w' e h).0)
          | inr other ↦
              rw (h, other)
                (CredentialsOutcome.failed e (CredentialsFails.unread e w' h other)
                  (frame.log_quiet error_level _ _ w' ∙ (agents.get_by_key_err hash w w' e h).0))
        ]
        | inl (g, w', h) ↦
            let (quiet, keyed) = agents.get_by_key_ok hash w w' g h in
            elim (Bool-cases (revoked g)) [
              | inl over ↦
                  rw (h, over)
                    (CredentialsOutcome.barred g keyed over
                      (frame.log_quiet warn_level _ _ w' ∙ quiet))
              | inr usable ↦ elim (run-cases (s.users.get g.user_id w')) [
                | inl (u, w₁, k) ↦
                    rw (h, usable, k)
                      (touch-refines (CredentialsFails s raw w) (TouchFails s raw w) hash g u w w₁
                        ((users.get_ok _ w' w₁ u k).0 ∙ quiet) keyed usable
                        (rw (← quiet) (users.get_ok _ w' w₁ u k).1)
                        (λ e w₃ l. TouchFails.untouched e g u w' w₁ w₃ h k l))
                | inr (e, w₁, k) ↦ elim (Bool-cases (is e user_not_found)) [
                  | inl gone ↦
                      rw (h, usable, k, gone)
                        (CredentialsOutcome.orphan g keyed usable
                          (rw (← quiet) ((users.get_err _ w' w₁ e k).1 gone))
                          (frame.log_quiet error_level _ _ w₁
                            ∙ (users.get_err _ w' w₁ e k).0
                            ∙ quiet))
                  | inr other ↦
                      rw (h, usable, k, other)
                        (CredentialsOutcome.failed e
                          (CredentialsFails.unread_user e g w' w₁ h usable k other)
                          (frame.log_quiet error_level _ _ w₁
                            ∙ (users.get_err _ w' w₁ e k).0
                            ∙ quiet))
                ]
              ]
            ]
      ]
