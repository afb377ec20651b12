-- ===== src/Oidc/Verifier.antt =====
-- server/internal/adapters/oidc/verifier.go: one verifier for each provider that is configured, or
-- the verifier of the development for all.
use agent_events.Prelude.{
  String, Bool, not, Option, none, some, List, [], ◌∷◌, ◌++◌, map, ◌==◌, if◌then◌else◌,
}
use agent_events.Text.{◌^^◌}
use agent_events.Apperr.{plain, wrapped, sentinel, sentinel_text, provider_unavailable}
use agent_events.Exec.{App, pure, fail, ◌>>=◌}
use agent_events.Domain.{Identity, provider_google, provider_apple, provider_microsoft, providers}
use agent_events.Port.{IdentityVerifier}
use agent_events.Oidc.{Library, VerifyFunc, verify_dev, new_google, new_apple, new_microsoft}

abbrev pub google_issuer : String
google_issuer = "https://accounts.google.com"

abbrev pub apple_issuer : String
apple_issuer = "https://appleid.apple.com"

abbrev pub microsoft_jwks_url : String
microsoft_jwks_url = "https://login.microsoftonline.com/common/discovery/v2.0/keys"

-- type providerOptions struct
pub record ProviderOptions : Type 0 where
  pub allow_dev_verifier : Bool
  pub google_client_id : String
  pub google_issuer : String
  pub apple_client_id : String
  pub apple_issuer : String
  pub microsoft_client_id : String
  pub microsoft_tenant : String
  pub microsoft_jwks_url : String

-- type Verifier struct, the field `byProvider`
abbrev pub Verifier : Type 0 → Type 0
Verifier W = List (String × VerifyFunc W)

-- `v.byProvider[provider]`
unfoldable pub verify_func : {W : Type 0} → Verifier W → String → Option (VerifyFunc W)
verify_func [] provider = none
verify_func ((p, verify) ∷ more) provider =
    if p == provider then some verify else verify_func more provider

module _ {W : Type 0} (lib : Library W) where
  -- the entry of a provider, if its client id is given
  unfoldable pub configured :
      (client_id provider : String) → App W (VerifyFunc W) → App W (Verifier W)
  configured client_id provider make =
      if client_id == "" then pure [] else do verify ← make; pure ((provider, verify) ∷ [])

  -- `len(byProvider) == 0`
  abbrev pub or_dev : Bool → Verifier W → App W (Verifier W)
  or_dev allow_dev [] =
      if not allow_dev
      then fail (
          plain
            "no identity provider client id is configured and the dev verifier is not allowed in this environment")
      else pure (map (λ p. (p, verify_dev lib p)) providers)
  or_dev allow_dev (entry ∷ more) = pure (entry ∷ more)

  -- `newWithOptions`
  unfoldable pub new_with_options : ProviderOptions → App W (Verifier W)
  unfolding configured new_google new_apple new_microsoft verify_dev
  new_with_options opts = do
    google ←
        configured opts.google_client_id provider_google
          (new_google lib opts.google_client_id opts.google_issuer)
    apple ←
        configured opts.apple_client_id provider_apple
          (new_apple lib opts.apple_client_id opts.apple_issuer)
    microsoft ←
        configured opts.microsoft_client_id provider_microsoft
          (new_microsoft lib opts.microsoft_client_id opts.microsoft_tenant opts.microsoft_jwks_url)
    or_dev opts.allow_dev_verifier (google ++ (apple ++ microsoft))

  -- `New`
  unfoldable pub new_verifier :
      Bool → (google apple microsoft microsoft_tenant : String) → App W (Verifier W)
  unfolding new_with_options
  new_verifier allow_dev google apple microsoft microsoft_tenant = new_with_options (record {
    allow_dev_verifier = allow_dev;
    google_client_id = google;
    google_issuer = google_issuer;
    apple_client_id = apple;
    apple_issuer = apple_issuer;
    microsoft_client_id = microsoft;
    microsoft_tenant = microsoft_tenant;
    microsoft_jwks_url = microsoft_jwks_url;
  })

  abbrev pub unavailable : String → App W Identity
  unavailable provider = fail (
      wrapped (sentinel_text provider_unavailable ^^ ": " ^^ lib.quote provider)
        (sentinel provider_unavailable))

  -- `Verifier.Verify`
  unfoldable pub verify : Verifier W → (provider raw : String) → App W Identity
  unfolding verify_func sentinel_text
  verify v provider raw = elim (verify_func v provider) [
    | none ↦ unavailable provider
    | some check ↦ check raw
  ]

  abbrev pub identity_verifier : Verifier W → IdentityVerifier W
  identity_verifier v = record { verify = verify v }
