-- ===== src/Usecase/Auth/SignIn.antt =====
-- server/internal/core/usecase/auth.go: the token of a sign-in is accepted until it expires.
use mathlib.Core.Option.{some-injective, none-ne-some}
use agent_events.Prelude.{
  String, ◌≡◌, refl, sym, ap, ◌∙◌, subst, ◌⊎◌, inl, inr, true, false, none, some, arith, eq_refl,
  Bool-cases,
}
use agent_events.Prelude.Int.{ltb_ℤ, leb_ℤ}
use agent_events.Time.{Time, add}
use agent_events.Text.{◌^^◌}
use agent_events.Encoding.{base64_encode}
use agent_events.Apperr.{Error, wrap_error, provider_unavailable, is}
use agent_events.Exec.{Result, ok, err, run-cases, same_value}
use agent_events.Domain.{User, UserToken, Identity, valid_provider}
use agent_events.Port.{info_level}
use agent_events.Port.Accounts.{Accounts, AccountModel, put_token}
use agent_events.Usecase.Auth.{
  AuthService, ExchangeInput, ExchangeResult, hash_token, token_prefix_user, action_auth_exchange,
}
use agent_events.Usecase.Auth.Laws.{AuthLaws}
use agent_events.Usecase.Auth.Users.{issue, exchange, authenticate_user}
use agent_events.Usecase.Auth.Outcome.{UserOutcome}
use agent_events.Usecase.Auth.ExchangeRefines.{random-quiet}
use agent_events.Usecase.Auth.UserRefines.{authenticate_user-refines}

-- The user of a token that is stored is accepted, unless the store fails.
accepted_if_stored :
    {hash : String} {now : Time} {before after : Accounts} {fails : Error → Type 0}
    {r : Result User} (t : UserToken) (u : User)
    → before.token hash ≡ some t
    → ltb_ℤ now t.expires_at ≡ true
    → before.user t.user_id ≡ some u
    → UserOutcome fails hash now before after r
    → (r ≡ ok u) ⊎ ((e : Error) × (r ≡ err (wrap_error e "could not authenticate")))
accepted_if_stored t u there fresh owned (UserOutcome.unknown gone _) = cc
accepted_if_stored {now = now} t u there fresh owned (UserOutcome.over t' there' over _) =
    let same : t' ≡ t = some-injective _ _ (sym there' ∙ there) in
    let over' : leb_ℤ t.expires_at now ≡ true =
      subst (λ x. leb_ℤ x.expires_at now ≡ true) same over in
    absurd (ground arith)
accepted_if_stored {before = before} t u there fresh owned (UserOutcome.orphan t' there' _ gone _) =
    let same : t' ≡ t = some-injective _ _ (sym there' ∙ there) in
    absurd (none-ne-some u (sym (subst (λ x. before.user x.user_id ≡ none) same gone) ∙ owned))
accepted_if_stored t u there fresh owned (UserOutcome.failed e _ _) = inr (e, refl)
accepted_if_stored {before = before} t u there fresh owned
      (UserOutcome.accepted t' u' there' _ owned' _) =
    let same : t' ≡ t = some-injective _ _ (sym there' ∙ there) in
    inl (
      ap ok (
        some-injective _ _
          (sym (subst (λ x. before.user x.user_id ≡ some u') same owned') ∙ owned)))

module _ {W : Type 0} (s : AuthService W) (m : AccountModel) (at : W → Accounts)
    (laws : AuthLaws m at s) (P : W → Type 0)
    (allow_keeps : (key action : String) (w : W) → P w → P (s.limiter.allow key action w).1)
    (verify_keeps : (provider raw : String) (w : W) → P w → P (s.verifier.verify provider raw w).1)
    (upsert_found : (provider subject email : String) (w w' : W) (u : User)
      → P w
      → s.users.upsert_by_identity provider subject email w ≡ (ok u, w')
      → (t : UserToken) → t.user_id ≡ u.id
      → (at w').user (m.stored_token t).user_id ≡ some u) where
  open laws use {tokens, frame}

  -- The token of a sign-in is stored for its user.
  abbrev Stored : ExchangeResult → W → Type 0
  Stored result w =
      (t : UserToken) × ((at w).token (hash_token s result.token) ≡ some (m.stored_token t))
      × ((at w).user (m.stored_token t).user_id ≡ some result.user)
      × (t.expires_at ≡ result.expires_at)

  issue-Stored :
      (input : ExchangeInput) (identity : Identity) (w w' : W) (result : ExchangeResult)
      → P w
      → issue s input identity w ≡ (ok result, w')
      → Stored result w'
  unfolding issue
  issue-Stored input identity w w' result p k =
      elim (run-cases
        (s.users.upsert_by_identity identity.provider identity.subject identity.email w)) [
          | inr (e, w₁, h₁) ↦ cc (rw h₁ at k)
          | inl (user, w₁, h₁) ↦ elim (run-cases (s.runtime.random_bytes w₁)) [
            | inr (e, w₂, h₂) ↦ cc (rw (h₁, h₂) at k)
            | inl (bytes, w₂, h₂) ↦
                let raw = token_prefix_user ^^ base64_encode bytes in
                let (now, w₃) = s.runtime.now w₂ in
                let t : UserToken = record {
                  token_hash = hash_token s raw;
                  user_id = user.id;
                  expires_at = add now s.config.user_token_ttl;
                  created_at = now;
                } in
                elim (run-cases (s.tokens.create t w₃)) [
                  | inr (e, w₄, h₄) ↦ cc (rw (h₁, h₂, h₄) at k)
                  | inl (_, w₄, h₄) ↦
                      let made : ExchangeResult = record {
                        user = user;
                        token = raw;
                        expires_at = add now s.config.user_token_ttl;
                      } in
                      let k' = rw (h₁, h₂, h₄) at k in
                      let after : at w' ≡ put_token m t (at w₁) =
                        ap at (sym (ap (λ (x : Result ExchangeResult × W). x.1) k'))
                        ∙ frame.log_quiet info_level _ _ w₄
                        ∙ (tokens.create_ok t w₃ w₄ h₄).1
                        ∙ ap (put_token m t)
                            (frame.now_quiet w₂ ∙ random-quiet s m at laws w₁ h₂) in
                      subst (λ r. Stored r w') (same_value made result _ w' k')
                        (
                          t,
                          rw (after, eq_refl (hash_token s raw)),
                          rw after (upsert_found _ _ _ w w₁ user p h₁ t refl),
                          refl,
                        )
                ]
          ]
        ]

  exchange-Stored :
      (input : ExchangeInput) (w w' : W) (result : ExchangeResult)
      → P w
      → exchange s input w ≡ (ok result, w')
      → Stored result w'
  unfolding exchange
  exchange-Stored input w w' result p k = elim (Bool-cases (valid_provider input.provider)) [
    | inr unknown ↦ cc (rw unknown at k)
    | inl known ↦
        let allowed = allow_keeps ("ip:" ^^ input.client_ip) action_auth_exchange w p in
        elim (run-cases (s.limiter.allow ("ip:" ^^ input.client_ip) action_auth_exchange w)) [
          | inr (e, w₁, h₁) ↦ cc (rw (known, h₁) at k)
          | inl (false, w₁, h₁) ↦ cc (rw (known, h₁) at k)
          | inl (true, w₁, h₁) ↦
              let verified = verify_keeps input.provider input.id_token w₁ (rw h₁ at allowed) in
              elim (run-cases (s.verifier.verify input.provider input.id_token w₁)) [
                | inl (identity, w₂, h₂) ↦
                    issue-Stored input identity w₂ w' result (rw h₂ at verified)
                      (rw (known, h₁, h₂) at k)
                | inr (e, w₂, h₂) ↦ elim (Bool-cases (is e provider_unavailable)) [
                  | inl missing ↦ cc (rw (known, h₁, h₂, missing) at k)
                  | inr other ↦ cc (rw (known, h₁, h₂, other) at k)
                ]
              ]
        ]
  ]

  -- Over any ports that keep their laws, if the store finds the user of a sign-in under the id that
  -- it has, then the token that a sign-in returns is accepted for its user, in any state with the
  -- accounts that the sign-in left and before the stored token expires, unless the store fails.
  pub exchange-accepted :
      (input : ExchangeInput) (w w' w'' : W) (result : ExchangeResult)
      → P w
      → exchange s input w ≡ (ok result, w')
      → at w'' ≡ at w'
      → let now = (s.runtime.now (s.tokens.get_by_hash (hash_token s result.token) w'').1).0 in
        ((t : UserToken)
          → t.expires_at ≡ result.expires_at
          → ltb_ℤ now (m.stored_token t).expires_at ≡ true)
        → ((authenticate_user s result.token w'').0 ≡ ok result.user)
          ⊎ ((e : Error) × ((authenticate_user s result.token w'').0
                ≡ err (wrap_error e "could not authenticate")))
  exchange-accepted input w w' w'' result p k same fresh =
      let (t, there, owned, expires) = exchange-Stored input w w' result p k in
      accepted_if_stored (m.stored_token t) result.user (rw same there) (fresh t expires)
        (rw same owned) (authenticate_user-refines s m at laws result.token w'')
