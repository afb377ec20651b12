-- ===== src/Oidc/Configured.antt =====
-- server/internal/adapters/oidc/verifier.go: whom a verifier accepts that was made for the
-- providers of a configuration.
use mathlib.Core.Option.{some-injective}
use agent_events.Prelude.{
  String, ◌≡◌, ◌≢◌, refl, subst, ◌⊎◌, inl, inr, Bool, true, false, some, List, [], ◌∷◌, ◌++◌, All,
  arith, ◌==◌, eq_iff, Bool-cases, Option-cases,
}
use agent_events.Exec.{ok, pure, run-cases, same_value}
use agent_events.Domain.{Identity, provider_google, provider_apple, provider_microsoft}
use agent_events.Oidc.{Library, VerifyFunc, is_shared_tenant, new_google, new_apple, new_microsoft}
use agent_events.Oidc.Verifier.{
  Verifier, ProviderOptions, verify_func, configured, or_dev, new_with_options, verify,
}
use agent_events.Oidc.Vouched.{
  Vouched, Sound, configured-Sound, google-Vouched, apple-Vouched, microsoft-Vouched,
}

-- The client id of some provider is given.
abbrev pub HasProvider : ProviderOptions → Type 0
HasProvider opts =
    (opts.google_client_id ≢ "") ⊎ (opts.apple_client_id ≢ "") ⊎ (opts.microsoft_client_id ≢ "")

All-append : {A : Type 0} (P : A → Type 0) (xs ys : List A) → All P xs → All P ys → All P (xs ++ ys)
All-append P [] ys p q = q
All-append P (x ∷ xs) ys (p, ps) q = (p, All-append P xs ys ps q)

append-ne_left : {A : Type 0} (xs ys : List A) → xs ≢ [] → xs ++ ys ≢ []
append-ne_left [] ys ne = absurd (ne refl)
append-ne_left (x ∷ xs) ys ne = λ e. cc

append-ne_right : {A : Type 0} (xs ys : List A) → ys ≢ [] → xs ++ ys ≢ []
append-ne_right [] ys ne = ne
append-ne_right (x ∷ xs) ys ne = λ e. cc

-- Which of the parts of a list is not empty.
pub some_entry :
    {A C : Type 0} {a b c : String} (xs ys zs : List A)
    → C ⊎ ((a ≢ "") ⊎ (b ≢ "") ⊎ (c ≢ ""))
    → (a ≢ "" → xs ≢ [])
    → (b ≢ "" → ys ≢ [])
    → (c ≢ "" → zs ≢ [])
    → C ⊎ (xs ++ (ys ++ zs) ≢ [])
some_entry xs ys zs (inl closed) f g h = inl closed
some_entry xs ys zs (inr (inl a)) f g h = inr (append-ne_left xs _ (f a))
some_entry xs ys zs (inr (inr (inl b))) f g h =
    inr (append-ne_right xs _ (append-ne_left ys zs (g b)))
some_entry xs ys zs (inr (inr (inr c))) f g h =
    inr (append-ne_right xs _ (append-ne_right ys zs (h c)))

module _ {W : Type 0} (lib : Library W) (opts : ProviderOptions) where
  -- A constructor that returns the verifier `f`.
  made :
      (provider : String) (f g : VerifyFunc W) (w₂ w₁ : W)
      → Sound lib opts (provider, f)
      → pure f w₂ ≡ (ok g, w₁)
      → Sound lib opts (provider, g)
  made provider f g w₂ w₁ sound h =
      subst (λ k. Sound lib opts (provider, k)) (same_value f g w₂ w₁ h) sound

  google-Sound :
      (w w₁ : W) (f : VerifyFunc W)
      → opts.google_client_id ≢ ""
      → new_google lib opts.google_client_id opts.google_issuer w ≡ (ok f, w₁)
      → Sound lib opts (provider_google, f)
  unfolding new_google
  google-Sound w w₁ f given h = elim (run-cases (lib.new_provider opts.google_issuer w)) [
    | inr (e, w₂, bad) ↦ cc (rw bad at h)
    | inl (_, w₂, good) ↦
        made provider_google _ f w₂ w₁ (λ raw v v' id. google-Vouched lib opts raw v v' id given)
          (rw good at h)
  ]

  apple-Sound :
      (w w₁ : W) (f : VerifyFunc W)
      → opts.apple_client_id ≢ ""
      → new_apple lib opts.apple_client_id opts.apple_issuer w ≡ (ok f, w₁)
      → Sound lib opts (provider_apple, f)
  unfolding new_apple
  apple-Sound w w₁ f given h = elim (run-cases (lib.new_provider opts.apple_issuer w)) [
    | inr (e, w₂, bad) ↦ cc (rw bad at h)
    | inl (_, w₂, good) ↦
        made provider_apple _ f w₂ w₁ (λ raw v v' id. apple-Vouched lib opts raw v v' id given)
          (rw good at h)
  ]

  microsoft-Sound :
      (w w₁ : W) (f : VerifyFunc W)
      → opts.microsoft_client_id ≢ ""
      → new_microsoft lib opts.microsoft_client_id opts.microsoft_tenant opts.microsoft_jwks_url w
        ≡ (ok f, w₁)
      → Sound lib opts (provider_microsoft, f)
  unfolding new_microsoft
  microsoft-Sound w w₁ f given h = elim (Bool-cases (is_shared_tenant lib opts.microsoft_tenant)) [
    | inl shared ↦
        made provider_microsoft _ f w w₁
          (λ raw v v' id.
            microsoft-Vouched lib opts raw v v' id false "" given (λ found may. inl shared))
          (rw shared at h)
    | inr own ↦
        made provider_microsoft _ f w w₁
          (λ raw v v' id.
            microsoft-Vouched lib opts raw v v' id true opts.microsoft_tenant given
              (λ found may. inr (ground (arith, may, eq_iff found opts.microsoft_tenant))))
          (rw own at h)
  ]

  or_dev-eq :
      (allow : Bool) (entries v : Verifier W) (w w' : W)
      → (allow ≡ false) ⊎ (entries ≢ [])
      → or_dev lib allow entries w ≡ (ok v, w')
      → entries ≡ v
  or_dev-eq allow (e ∷ es) v w w' closed h = same_value _ _ w w' h
  or_dev-eq false [] v w w' closed h = cc
  or_dev-eq true [] v w w' (inl closed) h = cc
  or_dev-eq true [] v w w' (inr closed) h = absurd (closed refl)

  -- Every entry of a verifier is sound, unless it is that of the development.
  new_with_options-Sound :
      (v : Verifier W) (w w' : W)
      → (opts.allow_dev_verifier ≡ false) ⊎ HasProvider opts
      → new_with_options lib opts w ≡ (ok v, w')
      → All (Sound lib opts) v
  unfolding new_with_options
  new_with_options-Sound v w w' closed h =
      let make₁ = new_google lib opts.google_client_id opts.google_issuer in
      let make₂ = new_apple lib opts.apple_client_id opts.apple_issuer in
      let make₃ =
        new_microsoft lib opts.microsoft_client_id opts.microsoft_tenant opts.microsoft_jwks_url in
      elim (run-cases (configured lib opts.google_client_id provider_google make₁ w)) [
        | inr (e, w₁, bad) ↦ cc (rw bad at h)
        | inl (google, w₁, h₁) ↦
            elim (run-cases (configured lib opts.apple_client_id provider_apple make₂ w₁)) [
              | inr (e, w₂, bad) ↦ cc (rw (h₁, bad) at h)
              | inl (apple, w₂, h₂) ↦
                  elim (run-cases
                    (configured lib opts.microsoft_client_id provider_microsoft make₃ w₂)) [
                      | inr (e, w₃, bad) ↦ cc (rw (h₁, h₂, bad) at h)
                      | inl (microsoft, w₃, h₃) ↦
                          let (s₁, n₁) =
                            configured-Sound lib opts _ provider_google make₁ w w₁ google
                              (λ given f u. google-Sound w u f given) h₁ in
                          let (s₂, n₂) =
                            configured-Sound lib opts _ provider_apple make₂ w₁ w₂ apple
                              (λ given f u. apple-Sound w₁ u f given) h₂ in
                          let (s₃, n₃) =
                            configured-Sound lib opts _ provider_microsoft make₃ w₂ w₃ microsoft
                              (λ given f u. microsoft-Sound w₂ u f given) h₃ in
                          subst (All (Sound lib opts))
                            (or_dev-eq opts.allow_dev_verifier (google ++ (apple ++ microsoft)) v w₃
                              w' (some_entry google apple microsoft closed n₁ n₂ n₃)
                              (rw (h₁, h₂, h₃) at h))
                            (All-append _ google _ s₁ (All-append _ apple microsoft s₂ s₃))
                    ]
            ]
      ]

  verify_func-Sound :
      (v : Verifier W) (provider : String) (f : VerifyFunc W)
      → All (Sound lib opts) v
      → verify_func v provider ≡ some f
      → Sound lib opts (provider, f)
  unfolding verify_func
  verify_func-Sound [] provider f sound h = cc
  verify_func-Sound ((p, g) ∷ more) provider f (s, sound) h = elim (Bool-cases (p == provider)) [
    | inl here ↦
        subst (λ q. Sound lib opts (q, f)) ((eq_iff p provider).0 here)
          (subst (λ k. Sound lib opts (p, k)) (some-injective _ _ (rw here at h)) s)
    | inr other ↦ verify_func-Sound more provider f sound (rw other at h)
  ]

  -- If the verifier of the development is not allowed, or a client id is given, then an identity
  -- that the verifier accepts is vouched for by the provider of the request.
  pub verify-Vouched :
      (v : Verifier W) (start started w w' : W) (provider raw : String) (id : Identity)
      → (opts.allow_dev_verifier ≡ false) ⊎ HasProvider opts
      → new_with_options lib opts start ≡ (ok v, started)
      → verify lib v provider raw w ≡ (ok id, w')
      → Vouched lib opts raw w provider id
  unfolding verify
  verify-Vouched v start started w w' provider raw id closed made h =
      elim (Option-cases (verify_func v provider)) [
        | inl missing ↦ cc (rw (missing, verify) at h)
        | inr (f, there) ↦
            verify_func-Sound v provider f (new_with_options-Sound v start started closed made)
              there raw w w' id (rw (there, verify) at h)
      ]
