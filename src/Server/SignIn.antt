-- ===== src/Server/SignIn.antt =====
-- server/cmd/api/main.go: who can sign in to a server that is not one of the development.
use agent_events.Prelude.{
  String, ◌≡◌, ◌≢◌, ap, ◌∙◌, inl, inr, Bool, ◌&&◌, arith, Bool-cases, eq_false_of_ne,
}
use agent_events.Text.{◌^^◌}
use agent_events.Apperr.{Error}
use agent_events.Exec.{Result, ok, run-cases, same_value}
use agent_events.Domain.{Identity}
use agent_events.Port.{Logger}
use agent_events.Port.Accounts.{Accounts, AccountModel}
use agent_events.Config.{Config, is_development, has_no_client_id}
use agent_events.Http.ClientIp.{Net}
use agent_events.Oidc.{Library}
use agent_events.Oidc.Verifier.{
  Verifier, ProviderOptions, google_issuer, apple_issuer, microsoft_jwks_url, new_verifier, verify,
  identity_verifier,
}
use agent_events.Oidc.Vouched.{Vouched}
use agent_events.Oidc.Configured.{verify-Vouched}
use agent_events.Usecase.Auth.{
  AuthService, AuthConfig, ExchangeInput, ExchangeResult, action_auth_exchange,
}
use agent_events.Usecase.Auth.Laws.{AuthLaws}
use agent_events.Usecase.Auth.Users.{exchange}
use agent_events.Usecase.Auth.Outcome.{ExchangeOutcome}
use agent_events.Usecase.Auth.ExchangeRefines.{exchange-refines}
use agent_events.Server.Start.{provide_identity_verifier}

-- The providers that a configuration names.
abbrev pub options_of : {net : Net} → Config net → ProviderOptions
options_of cfg = record {
  allow_dev_verifier = is_development cfg;
  google_client_id = cfg.google_client_id;
  google_issuer = google_issuer;
  apple_client_id = cfg.apple_client_id;
  apple_issuer = apple_issuer;
  microsoft_client_id = cfg.microsoft_client_id;
  microsoft_tenant = cfg.microsoft_tenant;
  microsoft_jwks_url = microsoft_jwks_url;
}

-- A sign-in that succeeded has verified an identity, and is for the user of it.
signed_in :
    {m : AccountModel} {hash : String → String} {config : AuthConfig} {input : ExchangeInput}
    {verdict : Result Bool} {verified : Result Identity} {before after : Accounts}
    {fails : Error → Type 0} {r : Result ExchangeResult} {result : ExchangeResult}
    → r ≡ ok result
    → ExchangeOutcome fails m hash config input verdict verified before after r
    → (identity : Identity) × (verified ≡ ok identity)
      × (result.user.provider ≡ identity.provider)
      × (result.user.subject ≡ identity.subject)
signed_in e (ExchangeOutcome.unknown_provider _ _) = cc
signed_in e (ExchangeOutcome.unchecked _ _ _ _) = cc
signed_in e (ExchangeOutcome.limited _ _ _) = cc
signed_in e (ExchangeOutcome.unconfigured _ _ _ _ _ _) = cc
signed_in e (ExchangeOutcome.rejected _ _ _ _ _ _) = cc
signed_in e (ExchangeOutcome.failed _ _ _) = cc
signed_in e (ExchangeOutcome.issued identity user _ _ _ _ given provider subject _ _) =
    (identity, given, ground (arith, e, provider), ground (arith, e, subject))

module _ {net : Net} {W : Type 0} (lib : Library W) (log : Logger W) (cfg : Config net) where
  -- A verifier was made for the providers of the configuration.
  made_by :
      (v : Verifier W) (start started : W)
      → provide_identity_verifier cfg lib log start ≡ (ok v, started)
      → (w : W) × (new_verifier lib
            (is_development cfg)
            cfg.google_client_id
            cfg.apple_client_id
            cfg.microsoft_client_id
            cfg.microsoft_tenant
            start
          ≡ (ok v, w))
  unfolding provide_identity_verifier
  made_by v start started h =
      elim (run-cases (
        new_verifier lib (is_development cfg) cfg.google_client_id cfg.apple_client_id
          cfg.microsoft_client_id cfg.microsoft_tenant start)) [
            | inr (e, w, bad) ↦ cc (rw bad at h)
            | inl (u, w, good) ↦ elim (Bool-cases (is_development cfg && has_no_client_id cfg)) [
              | inl dev ↦
                  (w, good ∙ ap (λ x. (ok x, w)) (same_value u v _ started (rw (good, dev) at h)))
              | inr other ↦
                  (w, good ∙ ap (λ x. (ok x, w)) (same_value u v _ started (rw (good, other) at h)))
            ]
          ]

  module _ (s : AuthService W) (m : AccountModel) (at : W → Accounts) (v : Verifier W)
      (laws : AuthLaws m at (record s { verifier = identity_verifier lib v })) where
    -- the account service with the verifier
    abbrev pub service : AuthService W
    service = record s { verifier = identity_verifier lib v }

    -- Over any ports that keep their laws, if the configuration is not that of the development and
    -- the server has made its verifier, then a sign-in that succeeds is that of an identity which a
    -- configured provider vouches for by the token of the request.
    pub exchange-Vouched :
        (start started w w' : W) (input : ExchangeInput) (result : ExchangeResult)
        → cfg.env ≢ "development"
        → provide_identity_verifier cfg lib log start ≡ (ok v, started)
        → exchange service input w ≡ (ok result, w')
        → (identity : Identity) × Vouched lib
            (options_of cfg)
            input.id_token
            (s.limiter.allow ("ip:" ^^ input.client_ip) action_auth_exchange w).1
            input.provider
            identity
          × (result.user.provider ≡ identity.provider)
          × (result.user.subject ≡ identity.subject)
    unfolding new_verifier
    exchange-Vouched start started w w' input result away made h =
        let (identity, verified, provider, subject) =
          signed_in (ap (λ p. p.0) h) (exchange-refines service m at laws input w) in
        let w₁ = (s.limiter.allow ("ip:" ^^ input.client_ip) action_auth_exchange w).1 in
        let (w₂, named) = made_by v start started made in
        (
          identity,
          verify-Vouched lib (options_of cfg) v start w₂ w₁ _ input.provider input.id_token identity
              (inl (eq_false_of_ne _ _ away)) named
              (ap (λ r. (r, (verify lib v input.provider input.id_token w₁).1)) verified),
          provider,
          subject,
        )
