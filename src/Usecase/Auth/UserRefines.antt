-- ===== src/Usecase/Auth/UserRefines.antt =====
-- server/internal/core/usecase/auth.go: `AuthenticateUser` and `RevokeUserToken` against
-- Outcome.antt.
use agent_events.Prelude.{String, ◌≡◌, ◌∙◌, inl, inr, true, false, Bool-cases, arith}
use agent_events.Prelude.Int.{ℤ, ltb_ℤ, leb_ℤ}
use agent_events.Apperr.{user_token_not_found, user_not_found, is}
use agent_events.Exec.{run-cases}
use agent_events.Port.{error_level}
use agent_events.Port.Accounts.{Accounts, AccountModel}
use agent_events.Usecase.Auth.{AuthService, hash_token}
use agent_events.Usecase.Auth.Users.{authenticate_user, revoke_user_token}
use agent_events.Usecase.Auth.Laws.{AuthLaws}
use agent_events.Usecase.Auth.Fails.{UserFails, LogoutFails}
use agent_events.Usecase.Auth.Outcome.{UserOutcome, LogoutOutcome}

leb_of_not_ltb : (x y : ℤ) → ltb_ℤ x y ≡ false → leb_ℤ y x ≡ true
leb_of_not_ltb x y h = ground arith

module _ {W : Type 0} (s : AuthService W) (m : AccountModel) (at : W → Accounts)
    (laws : AuthLaws m at s) where
  open laws use {users, tokens, frame}

  -- Over any ports that keep their laws, `authenticate_user` has one of the outcomes of
  -- UserOutcome, with the failures of UserFails: a token that is unknown, expired or without its
  -- user is refused with one error, a call of the store that fails otherwise has its error wrapped,
  -- and in every other case the stored token, which has not expired, gives its user; nothing is
  -- changed.
  pub authenticate_user-refines :
      (raw : String) (w : W)
      → let w' = (s.tokens.get_by_hash (hash_token s raw) w).1 in
        UserOutcome
          (UserFails s raw w)
          (hash_token s raw)
          (s.runtime.now w').0
          (at w)
          (at (authenticate_user s raw w).1)
          (authenticate_user s raw w).0
  unfolding authenticate_user
  authenticate_user-refines raw w = elim (run-cases (s.tokens.get_by_hash (hash_token s raw) w)) [
    | inr (e, w', h) ↦ elim (Bool-cases (is e user_token_not_found)) [
      | inl gone ↦
          rw (h, gone)
            (UserOutcome.unknown ((tokens.get_err _ w w' e h).1 gone) (tokens.get_err _ w w' e h).0)
      | inr other ↦
          rw (h, other)
            (UserOutcome.failed e (UserFails.unread e w' h other)
              (frame.log_quiet error_level _ _ w' ∙ (tokens.get_err _ w w' e h).0))
    ]
    | inl (t, w', h) ↦
        let (quiet, found) = tokens.get_ok _ w w' t h in
        let now = (s.runtime.now w').0 in
        let w₁ = (s.runtime.now w').1 in
        let quiet₁ : at w₁ ≡ at w = frame.now_quiet w' ∙ quiet in
        elim (Bool-cases (ltb_ℤ now t.expires_at)) [
          | inr over ↦
              rw (h, over) (UserOutcome.over t found (leb_of_not_ltb now t.expires_at over) quiet₁)
          | inl in_time ↦ elim (run-cases (s.users.get t.user_id w₁)) [
            | inl (u, w₂, k) ↦
                rw (h, in_time, k)
                  (UserOutcome.accepted t u found in_time
                    (rw (← quiet₁) (users.get_ok _ w₁ w₂ u k).1)
                    ((users.get_ok _ w₁ w₂ u k).0 ∙ quiet₁))
            | inr (e, w₂, k) ↦ elim (Bool-cases (is e user_not_found)) [
              | inl gone ↦
                  rw (h, in_time, k, gone)
                    (UserOutcome.orphan t found in_time
                      (rw (← quiet₁) ((users.get_err _ w₁ w₂ e k).1 gone))
                      ((users.get_err _ w₁ w₂ e k).0 ∙ quiet₁))
              | inr other ↦
                  rw (h, in_time, k, other)
                    (UserOutcome.failed e (UserFails.unread_user e t w' w₂ h in_time k other)
                      (frame.log_quiet error_level _ _ w₂ ∙ (users.get_err _ w₁ w₂ e k).0 ∙ quiet₁))
            ]
          ]
        ]
  ]

  pub revoke_user_token-refines :
      (hash : String) (w : W)
      → LogoutOutcome
          (LogoutFails s hash w)
          hash
          (at w)
          (at (revoke_user_token s hash w).1)
          (revoke_user_token s hash w).0
  unfolding revoke_user_token
  revoke_user_token-refines hash w = elim (run-cases (s.tokens.delete_by_hash hash w)) [
    | inl (_, w', h) ↦ rw h (LogoutOutcome.removed (tokens.delete_ok hash w w' h))
    | inr (e, w', h) ↦ rw h (
        LogoutOutcome.failed e (LogoutFails.undeleted e w' h)
          (frame.log_quiet error_level _ _ w' ∙ tokens.delete_err hash w w' e h))
  ]
