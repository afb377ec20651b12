-- ===== src/Oidc/Vouched.antt =====
-- server/internal/adapters/oidc: what is known of an identity that is accepted.
use agent_events.Prelude.{
  String, ◌≡◌, ◌≢◌, refl, ap, subst, ◌⊎◌, inl, inr, Bool, true, false, not, ◌&&◌, Option, none,
  some, [], ◌∷◌, All, arith, ◌==◌, eq_iff, Bool-cases, Option-cases, ne_of_eq_false,
}
use agent_events.Apperr.{plain}
use agent_events.Exec.{App, ok, pure, fail, when, run-cases, ◌>>=◌, ◌>>◌}
use agent_events.Domain.{Identity, provider_google, provider_apple, provider_microsoft}
use agent_events.Oidc.{
  Library, claimed, IdToken, Json, VerifyFunc, string_claim, bool_claim, flexible_bool,
  issuer_tenant, check_tenant, is_shared_tenant, verify_google, verify_apple, verify_microsoft,
}
use agent_events.Oidc.Verifier.{Verifier, ProviderOptions, configured}

-- The library has accepted the token for the client id that is configured for the provider, and the
-- claims that are asked of it hold.
pub data Vouched {W : Type 0} (lib : Library W) (opts : ProviderOptions) (raw : String) (w : W)
    : String → Identity → Type 0 where
  google :
      (token : IdToken) (email : String)
      → opts.google_client_id ≢ ""
      → (lib.verify_issued opts.google_issuer opts.google_client_id raw w).0 ≡ ok token
      → token.claim "email" ≡ Json.string email
      → email ≢ ""
      → token.claim "email_verified" ≡ Json.boolean true
      → Vouched lib opts raw w provider_google
          (record { provider = provider_google; subject = token.subject; email = email })
  apple :
      (token : IdToken) (email : String)
      → opts.apple_client_id ≢ ""
      → (lib.verify_issued opts.apple_issuer opts.apple_client_id raw w).0 ≡ ok token
      → token.claim "email" ≡ Json.string email
      → email ≢ ""
      → flexible_bool (token.claim "email_verified") ≡ some true
      → Vouched lib opts raw w provider_apple
          (record { provider = provider_apple; subject = token.subject; email = email })
  microsoft :
      (token : IdToken) (email tenant : String)
      → opts.microsoft_client_id ≢ ""
      → (lib.verify_signed opts.microsoft_jwks_url opts.microsoft_client_id raw w).0 ≡ ok token
      → issuer_tenant token.issuer ≡ some tenant
      → (is_shared_tenant lib opts.microsoft_tenant ≡ true) ⊎ (tenant ≡ opts.microsoft_tenant)
      → string_claim (token.claim "email") ≡ some email
      → Vouched lib opts raw w provider_microsoft
          (record { provider = provider_microsoft; subject = token.subject; email = email })

-- A string that is not empty was given as one.
string_claim_given : (j : Json) (s : String) → string_claim j ≡ some s → s ≢ "" → j ≡ Json.string s
unfolding string_claim
string_claim_given (Json.string t) s h ne = ground (arith, h)
string_claim_given Json.absent s h ne = absurd (ne (ground (arith, h)))
string_claim_given Json.null s h ne = absurd (ne (ground (arith, h)))
string_claim_given (Json.boolean b) s h ne = cc
string_claim_given Json.other s h ne = cc

bool_claim-true : (j : Json) → bool_claim j ≡ some true → j ≡ Json.boolean true
unfolding bool_claim
bool_claim-true (Json.boolean b) h = ground (arith, h)
bool_claim-true (Json.string t) h = cc
bool_claim-true Json.absent h = ground (arith, h)
bool_claim-true Json.null h = ground (arith, h)
bool_claim-true Json.other h = cc

module _ {W : Type 0} (lib : Library W) where
  -- What the verifiers of Google and Apple do behind the library's acceptance of the token.
  abbrev tests :
      (message no_email unverified provider : String)
      → IdToken
      → Option String
      → Option Bool
      → App W Identity
  tests message no_email unverified provider token o₁ o₂ = do
    email ← claimed lib message token o₁
    verified ← claimed lib message token o₂
    when (email == "") (fail (plain no_email))
    when (not verified) (fail (plain unverified))
    pure (record { provider = provider; subject = token.subject; email = email })

  tests-eq-ok :
      (message no_email unverified provider : String) (token : IdToken) (o₁ : Option String)
      (o₂ : Option Bool) (w w' : W) (id : Identity)
      → tests message no_email unverified provider token o₁ o₂ w ≡ (ok id, w')
      → (email : String) × (o₁ ≡ some email)
        × (email ≢ "")
        × (o₂ ≡ some true)
        × (record { provider = provider; subject = token.subject; email = email } ≡ id)
  tests-eq-ok m n u p token none o₂ w w' id h = cc
  tests-eq-ok m n u p token (some email) none w w' id h = cc
  tests-eq-ok m n u p token (some email) (some false) w w' id h = elim (Bool-cases (email == "")) [
    | inl empty ↦ cc (rw empty at h)
    | inr given ↦ cc (rw given at h)
  ]
  tests-eq-ok m n u p token (some email) (some true) w w' id h = elim (Bool-cases (email == "")) [
    | inl empty ↦ cc (rw empty at h)
    | inr given ↦ (email, refl, ne_of_eq_false _ _ given, refl, ground (arith, given, h))
  ]

  module _ (opts : ProviderOptions) (raw : String) (w w' : W) (id : Identity) where
    pub google-Vouched :
        opts.google_client_id ≢ ""
        → verify_google lib opts.google_client_id opts.google_issuer raw w ≡ (ok id, w')
        → Vouched lib opts raw w provider_google id
    unfolding verify_google
    google-Vouched given h =
        elim (run-cases (lib.verify_issued opts.google_issuer opts.google_client_id raw w)) [
          | inr (e, w₁, bad) ↦ cc (rw bad at h)
          | inl (token, w₁, good) ↦
              let (email, mailed, ne, checked, same) =
                tests-eq-ok _ _ _ provider_google token _ _ w₁ w' id (rw good at h) in
              subst (λ i. Vouched lib opts raw w provider_google i) same
                (Vouched.google token email given (ap (λ q. q.0) good)
                  (string_claim_given _ _ mailed ne) ne (bool_claim-true _ checked))
        ]

    pub apple-Vouched :
        opts.apple_client_id ≢ ""
        → verify_apple lib opts.apple_client_id opts.apple_issuer raw w ≡ (ok id, w')
        → Vouched lib opts raw w provider_apple id
    unfolding verify_apple
    apple-Vouched given h =
        elim (run-cases (lib.verify_issued opts.apple_issuer opts.apple_client_id raw w)) [
          | inr (e, w₁, bad) ↦ cc (rw bad at h)
          | inl (token, w₁, good) ↦
              let (email, mailed, ne, checked, same) =
                tests-eq-ok _ _ _ provider_apple token _ _ w₁ w' id (rw good at h) in
              subst (λ i. Vouched lib opts raw w provider_apple i) same
                (Vouched.apple token email given (ap (λ q. q.0) good)
                  (string_claim_given _ _ mailed ne) ne checked)
        ]

    pub microsoft-Vouched :
        (restricted : Bool) (tenant : String)
        → opts.microsoft_client_id ≢ ""
        → ((found : String)
            → (restricted && not (found == tenant)) ≡ false
            → (is_shared_tenant lib opts.microsoft_tenant ≡ true) ⊎ (found ≡ opts.microsoft_tenant))
        → verify_microsoft lib opts.microsoft_client_id opts.microsoft_jwks_url restricted tenant
            raw w
          ≡ (ok id, w')
        → Vouched lib opts raw w provider_microsoft id
    unfolding verify_microsoft
    microsoft-Vouched restricted tenant given allowed h =
        elim (run-cases
          (lib.verify_signed opts.microsoft_jwks_url opts.microsoft_client_id raw w)) [
            | inr (e, w₁, bad) ↦ cc (rw bad at h)
            | inl (token, w₁, good) ↦ elim (Option-cases (issuer_tenant token.issuer)) [
              | inl foreign ↦ cc (rw (good, check_tenant, foreign) at h)
              | inr (found, named) ↦ elim (Bool-cases (restricted && not (found == tenant))) [
                | inl other ↦ cc (rw (good, check_tenant, named, other) at h)
                | inr may ↦ elim (Option-cases (string_claim (token.claim "email"))) [
                  | inl bad ↦ cc (rw (good, check_tenant, named, may, bad) at h)
                  | inr (email, mailed) ↦
                      let k = rw (good, check_tenant, named, may, mailed) at h in
                      subst (λ i. Vouched lib opts raw w provider_microsoft i) (ground (arith, k))
                        (Vouched.microsoft token email found given (ap (λ q. q.0) good) named
                          (allowed found may) mailed)
                ]
              ]
            ]
          ]

  -- Whatever the entry accepts is vouched for.
  abbrev pub Sound : ProviderOptions → String × VerifyFunc W → Type 0
  Sound opts (provider, accept) =
      (raw : String) (w w' : W) (id : Identity)
      → accept raw w ≡ (ok id, w')
      → Vouched lib opts raw w provider id

  pub configured-Sound :
      (opts : ProviderOptions) (client_id provider : String) (make : App W (VerifyFunc W))
      (w w' : W) (v : Verifier W)
      → (client_id ≢ ""
          → (f : VerifyFunc W) (w₁ : W) → make w ≡ (ok f, w₁)
          → Sound opts (provider, f))
      → configured lib client_id provider make w ≡ (ok v, w')
      → All (Sound opts) v × (client_id ≢ "" → v ≢ [])
  unfolding configured
  configured-Sound opts client_id provider make w w' v sound h =
      elim (Bool-cases (client_id == "")) [
        | inl empty ↦
            let none_there : [] ≡ v = ground (arith, empty, h) in
            (subst (All (Sound opts)) none_there tt, λ given. absurd (given ((eq_iff _ _).0 empty)))
        | inr given ↦ elim (run-cases (make w)) [
          | inr (e, w₁, bad) ↦ cc (rw (given, bad) at h)
          | inl (f, w₁, good) ↦
              let whole : (provider, f) ∷ [] ≡ v = ground (arith, given, good, h) in
              (
                subst (All (Sound opts)) whole (sound (ne_of_eq_false _ _ given) f w₁ good, tt),
                λ _. rw (← whole) (λ e. cc),
              )
        ]
      ]
