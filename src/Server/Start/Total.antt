-- ===== src/Server/Start/Total.antt =====
-- server/cmd/api/main.go: a configuration that is loaded has a verifier.
use agent_events.Prelude.{
  String, ◌≡◌, ◌≢◌, refl, ◌⊎◌, inl, inr, Bool, true, false, ◌&&◌, [], ◌∷◌, ◌++◌, arith, ◌==◌,
  Bool-cases, eq_iff,
}
use agent_events.Exec.{App, ok}
use agent_events.Domain.{provider_google, provider_apple, provider_microsoft}
use agent_events.Port.{Logger}
use agent_events.Config.{Config, Settings, loaded, load, is_development, has_no_client_id}
use agent_events.Config.Validity.{HasClientId, load_sound}
use agent_events.Http.ClientIp.{Net}
use agent_events.Oidc.{
  Library, VerifyFunc, verify_google, verify_apple, verify_microsoft, new_google, new_apple,
  new_microsoft, is_shared_tenant,
}
use agent_events.Oidc.Verifier.{
  Verifier, google_issuer, apple_issuer, microsoft_jwks_url, configured, or_dev, new_verifier,
}
use agent_events.Oidc.Configured.{some_entry}
use agent_events.Server.Start.{provide_identity_verifier}

-- The call returns a value from every state.
abbrev Returns : {W A : Type 0} → App W A → Type 0
Returns {W} {A} m = (w : W) → (a : A) × (w' : W) × (m w ≡ (ok a, w'))

module _ {W : Type 0} (lib : Library W)
    (reachable : (issuer : String) (w : W)
      → (w' : W) × (lib.new_provider issuer w ≡ (ok tt, w'))) where
  google-Returns : (client_id issuer : String) → Returns (new_google lib client_id issuer)
  unfolding new_google
  google-Returns client_id issuer w =
      let (w', h) = reachable issuer w in (verify_google lib client_id issuer, w', rw h)

  apple-Returns : (client_id issuer : String) → Returns (new_apple lib client_id issuer)
  unfolding new_apple
  apple-Returns client_id issuer w =
      let (w', h) = reachable issuer w in (verify_apple lib client_id issuer, w', rw h)

  microsoft-Returns :
      (client_id tenant jwks_url : String) → Returns (new_microsoft lib client_id tenant jwks_url)
  unfolding new_microsoft
  microsoft-Returns client_id tenant jwks_url w = elim (Bool-cases (is_shared_tenant lib tenant)) [
    | inl shared ↦ (verify_microsoft lib client_id jwks_url false "", w, rw shared)
    | inr own ↦ (verify_microsoft lib client_id jwks_url true tenant, w, rw own)
  ]

  -- An entry is made, if its client id is given.
  configured-Returns :
      (client_id provider : String) (make : App W (VerifyFunc W))
      → Returns make
      → (w : W)
      → (v : Verifier W) × (w' : W) × (configured lib client_id provider make w ≡ (ok v, w'))
        × (client_id ≢ "" → v ≢ [])
  unfolding configured
  configured-Returns client_id provider make made w = elim (Bool-cases (client_id == "")) [
    | inl empty ↦ ([], w, rw empty, λ given. absurd (given ((eq_iff _ _).0 empty)))
    | inr given ↦ let (f, w', h) = made w in ((provider, f) ∷ [], w', rw (given, h), λ _ e. cc)
  ]

  or_dev-Returns :
      (allow : Bool) (entries : Verifier W)
      → (allow ≡ true) ⊎ (entries ≢ [])
      → Returns (or_dev lib allow entries)
  or_dev-Returns allow (e ∷ es) some_way w = (e ∷ es, w, refl)
  or_dev-Returns true [] some_way w = (_, w, refl)
  or_dev-Returns false [] (inl open_dev) w = cc
  or_dev-Returns false [] (inr given) w = absurd (given refl)

  -- The way that the server has to verify identities.
  abbrev HasWay : Bool → (google apple microsoft : String) → Type 0
  HasWay allow google apple microsoft =
      (allow ≡ true) ⊎ ((google ≢ "") ⊎ (apple ≢ "") ⊎ (microsoft ≢ ""))

  new_verifier-Returns :
      (allow : Bool) (google apple microsoft tenant : String)
      → HasWay allow google apple microsoft
      → Returns (new_verifier lib allow google apple microsoft tenant)
  unfolding new_verifier
  new_verifier-Returns allow google apple microsoft tenant way w =
      let (v₁, w₁, h₁, n₁) =
        configured-Returns google provider_google (new_google lib google google_issuer)
          (google-Returns google google_issuer) w in
      let (v₂, w₂, h₂, n₂) =
        configured-Returns apple provider_apple (new_apple lib apple apple_issuer)
          (apple-Returns apple apple_issuer) w₁ in
      let (v₃, w₃, h₃, n₃) =
        configured-Returns microsoft provider_microsoft
          (new_microsoft lib microsoft tenant microsoft_jwks_url)
          (microsoft-Returns microsoft tenant microsoft_jwks_url) w₂ in
      let (v, w', h) =
        or_dev-Returns allow (v₁ ++ (v₂ ++ v₃)) (some_entry v₁ v₂ v₃ way n₁ n₂ n₃) w₃ in
      (v, w', rw (h₁, h₂, h₃) h)

  -- If the providers' issuers answer, then a server with a configuration that was loaded has its
  -- verifier made, in every environment.
  pub provide_identity_verifier-Returns :
      (net : Net) (settings : Settings) (cfg : Config net) (log : Logger W)
      → load net settings ≡ loaded cfg
      → (w : W)
      → (v : Verifier W) × (w' : W) × (provide_identity_verifier cfg lib log w ≡ (ok v, w'))
  unfolding provide_identity_verifier
  provide_identity_verifier-Returns net settings cfg log read w =
      let (made, valid) = load_sound net settings cfg read in
      let (v, w₁, h) =
        new_verifier-Returns (is_development cfg) cfg.google_client_id cfg.apple_client_id
          cfg.microsoft_client_id cfg.microsoft_tenant (has_way valid.signs_in) w in
      elim (Bool-cases (is_development cfg && has_no_client_id cfg)) [
        | inl dev ↦ (v, (provide_identity_verifier cfg lib log w).1, rw (h, dev))
        | inr other ↦ (v, w₁, rw (h, other))
      ]
    where
      has_way :
          (cfg.env ≡ "development") ⊎ HasClientId cfg
          → HasWay
              (is_development cfg)
              cfg.google_client_id
              cfg.apple_client_id
              cfg.microsoft_client_id
      has_way (inl here) = inl (ground (arith, eq_iff cfg.env "development"))
      has_way (inr given) = inr given
