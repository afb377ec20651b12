-- ===== src/Usecase/Auth/ExchangeRefines.antt =====
-- server/internal/core/usecase/auth.go: `Exchange` against Outcome.antt.
use agent_events.Encoding.{base64_encode}
use agent_events.Time.{add}
use agent_events.Prelude.{
  ℕ, List, subst, String, ◌≡◌, refl, sym, ap, ◌∙◌, inl, inr, Bool, true, false, Bool-cases,
}
use agent_events.Text.{◌^^◌}
use agent_events.Apperr.{provider_unavailable, is}
use agent_events.Exec.{Result, ok, run-cases}
use agent_events.Domain.{UserToken, Identity, valid_provider}
use agent_events.Port.{info_level, warn_level, error_level}
use agent_events.Port.Accounts.{Accounts, AccountModel, put_token}
use agent_events.Usecase.Auth.{
  AuthService, ExchangeInput, action_auth_exchange, hash_token, token_prefix_user,
}
use agent_events.Usecase.Auth.Users.{exchange, issue}
use agent_events.Usecase.Auth.Laws.{AuthLaws}
use agent_events.Usecase.Auth.Fails.{Verified, ExchangeFails}
use agent_events.Usecase.Auth.Outcome.{ExchangeOutcome}

-- What differs from `a` in its users only, stays so where nothing more changes.
still_users_only :
    (a : Accounts) {b c : Accounts}
    → b ≡ record a { user = b.user }
    → c ≡ b
    → c ≡ record a { user = c.user }
still_users_only a h same = subst (λ x. x ≡ record a { user = x.user }) (sym same) h

put_users_only :
    (m : AccountModel) (t : UserToken) (a : Accounts) {b c : Accounts}
    → b ≡ record a { user = b.user }
    → c ≡ put_token m t b
    → c ≡ put_token m t (record a { user = c.user })
put_users_only m t a h put =
    subst (λ x. x ≡ put_token m t (record a { user = x.user })) (sym put) (ap (put_token m t) h)

module _ {W : Type 0} (s : AuthService W) (m : AccountModel) (at : W → Accounts)
    (laws : AuthLaws m at s) where
  open laws use {users, tokens, frame}

  pub random-quiet :
      (w : W) {r : Result (List ℕ)} {w' : W} → s.runtime.random_bytes w ≡ (r, w') → at w' ≡ at w
  random-quiet w h = rw (ap (λ (p : Result (List ℕ) × W). p.1) h) at (frame.random_quiet w)

  limiter-quiet :
      (key action : String) (w : W) {r : Result Bool} {w' : W}
      → s.limiter.allow key action w ≡ (r, w')
      → at w' ≡ at w
  limiter-quiet key action w h =
      rw (ap (λ (p : Result Bool × W). p.1) h) at (frame.allow_quiet key action w)

  verify-quiet :
      (provider id_token : String) (w : W) {r : Result Identity} {w' : W}
      → s.verifier.verify provider id_token w ≡ (r, w')
      → at w' ≡ at w
  verify-quiet provider id_token w h =
      rw (ap (λ (p : Result Identity × W). p.1) h) at (laws.verify_quiet provider id_token w)

  -- The part of `exchange` behind the identity provider.
  issue-refines :
      (input : ExchangeInput) (identity : Identity) (verdict : Result Bool)
      (verified : Result Identity) (w w' : W)
      → at w' ≡ at w
      → valid_provider input.provider ≡ true
      → verdict ≡ ok true
      → verified ≡ ok identity
      → Verified s input identity w w'
      → ExchangeOutcome
          (ExchangeFails s input w)
          m
          (hash_token s)
          s.config
          input
          verdict
          verified
          (at w)
          (at (issue s input identity w').1)
          (issue s input identity w').0
  unfolding issue
  issue-refines input identity verdict verified w w' quiet known allowed genuine via =
      elim (run-cases
        (s.users.upsert_by_identity identity.provider identity.subject identity.email w')) [
          | inr (e, w₁, h) ↦ rw h (
              ExchangeOutcome.failed e (ExchangeFails.no_upsert e identity w' w₁ via h) (
                still_users_only (at w) refl
                  (frame.log_quiet error_level _ _ w₁ ∙ users.upsert_err _ _ _ w' w₁ e h ∙ quiet)))
          | inl (user, w₁, h) ↦
              let (same_provider, same_subject, same_email, only, kept) =
                users.upsert_ok _ _ _ w' w₁ user h in
              let only₁ : at w₁ ≡ record (at w) { user = (at w₁).user } = rw quiet at only in
              elim (run-cases (s.runtime.random_bytes w₁)) [
                | inr (e, w₂, k) ↦
                    rw (h, k)
                      (ExchangeOutcome.failed e
                        (ExchangeFails.no_random e identity user w' w₁ w₂ via h k)
                        (still_users_only (at w) only₁
                          (frame.log_quiet error_level _ _ w₂ ∙ random-quiet w₁ k)))
                | inl (bytes, w₂, k) ↦
                    let raw = token_prefix_user ^^ base64_encode bytes in
                    let now = (s.runtime.now w₂).0 in
                    let w₃ = (s.runtime.now w₂).1 in
                    let t : UserToken = record {
                      token_hash = hash_token s raw;
                      user_id = user.id;
                      expires_at = add now s.config.user_token_ttl;
                      created_at = now;
                    } in
                    let quiet₃ : at w₃ ≡ at w₁ = frame.now_quiet w₂ ∙ random-quiet w₁ k in
                    let only₃ = still_users_only (at w) only₁ quiet₃ in
                    elim (run-cases (s.tokens.create t w₃)) [
                      | inr (e, w₄, l) ↦
                          rw (h, k, l)
                            (ExchangeOutcome.failed e
                              (ExchangeFails.unstored e identity user bytes w' w₁ w₂ w₄ via h k l)
                              (still_users_only (at w) only₃ (
                                frame.log_quiet error_level _ _ w₄
                                ∙ tokens.create_err t w₃ w₄ e l)))
                      | inl (_, w₄, l) ↦
                          let (fresh, after) = tokens.create_ok t w₃ w₄ l in
                          rw (h, k, l)
                            (ExchangeOutcome.issued identity user raw now known allowed genuine
                              same_provider same_subject
                              (ap (λ (x : Accounts). x.token (hash_token s raw)) (sym only₃)
                                ∙ fresh)
                              (put_users_only m t (at w) only₃
                                (frame.log_quiet info_level _ _ w₄ ∙ after)))
                    ]
              ]
        ]

  -- Over any ports that keep their laws, `exchange` has one of the outcomes of ExchangeOutcome,
  -- with the failures of ExchangeFails: an unknown or unconfigured provider, an answer of the
  -- limiter that is no or missing, and a rejected identity give the error of the case and change
  -- nothing; where a later call of a port fails, its error is wrapped and users are changed at
  -- most; success stores exactly the hash of the token that it returns, for the user of the
  -- identity, until the end of its lifetime.
  pub exchange-refines :
      (input : ExchangeInput) (w : W)
      → let (verdict, w') = s.limiter.allow ("ip:" ^^ input.client_ip) action_auth_exchange w in
        ExchangeOutcome
          (ExchangeFails s input w)
          m
          (hash_token s)
          s.config
          input
          verdict
          (s.verifier.verify input.provider input.id_token w').0
          (at w)
          (at (exchange s input w).1)
          (exchange s input w).0
  unfolding exchange
  exchange-refines input w = elim (Bool-cases (valid_provider input.provider)) [
    | inr unknown ↦ rw unknown (ExchangeOutcome.unknown_provider unknown refl)
    | inl known ↦
        elim (run-cases (s.limiter.allow ("ip:" ^^ input.client_ip) action_auth_exchange w)) [
          | inr (e, w', h) ↦
              rw (known, h)
                (ExchangeOutcome.unchecked e known refl
                  (frame.log_quiet error_level _ _ w' ∙ limiter-quiet _ _ w h))
          | inl (false, w', h) ↦
              rw (known, h)
                (ExchangeOutcome.limited known refl
                  (frame.log_quiet warn_level _ _ w' ∙ limiter-quiet _ _ w h))
          | inl (true, w', h) ↦
              elim (run-cases (s.verifier.verify input.provider input.id_token w')) [
                | inl (identity, w'', k) ↦
                    rw (known, h, k)
                      (issue-refines input identity (ok true) (ok identity) w w''
                        (verify-quiet _ _ w' k ∙ limiter-quiet _ _ w h) known refl refl
                        (known, (w', h, k)))
                | inr (e, w'', k) ↦ elim (Bool-cases (is e provider_unavailable)) [
                  | inl missing ↦
                      rw (known, h, k, missing)
                        (ExchangeOutcome.unconfigured e known refl refl missing (
                          frame.log_quiet warn_level _ _ w''
                          ∙ verify-quiet _ _ w' k
                          ∙ limiter-quiet _ _ w h))
                  | inr other ↦
                      rw (known, h, k, other)
                        (ExchangeOutcome.rejected e known refl refl other (
                          frame.log_quiet warn_level _ _ w''
                          ∙ verify-quiet _ _ w' k
                          ∙ limiter-quiet _ _ w h))
                ]
              ]
        ]
  ]
