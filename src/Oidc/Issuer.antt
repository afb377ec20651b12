-- ===== src/Oidc/Issuer.antt =====
-- `microsoftIssuerPattern` of server/internal/adapters/oidc/microsoft.go, against its description
-- as a regular expression.
use text.Mathlib.TextEquality.{Char-path}
use mathlib.Core.Option.{some-injective}
use agent_events.Prelude.{
  String, ◌≡◌, ◌≢◌, refl, ap, ◌∙◌, ◌↔◌, inl, inr, some, List, [], ◌∷◌, ◌++◌, ◌==◌, arith, eq_iff,
  Bool-cases, Option-cases, ne_of_eq_false, eq_false_of_ne,
}
use agent_events.Text.{◌^^◌, split, cut_prefix}
use agent_events.Text.Split.{Lacks, split-append, split_of_Lacks, split-eq_two}
use agent_events.Text.Trim.{cut_prefix-append, cut_prefix-eq-some}
use agent_events.Oidc.{tenant_in, microsoft_host, issuer_tenant}

-- A text without a slash, and not empty: `[^/]+`.
abbrev pub IsTenant : String → Type 0
IsTenant tenant = (tenant ≢ "") × Lacks 0x2F tenant

tenant_in-eq :
    (parts : List String) (tenant : String)
    → tenant_in parts ≡ some tenant
    → (parts ≡ tenant ∷ "v2.0" ∷ []) × (tenant ≢ "")
tenant_in-eq [] tenant h = cc
tenant_in-eq (t ∷ []) tenant h = cc
tenant_in-eq (t ∷ (v ∷ [])) tenant h = elim (Bool-cases (t == "")) [
  | inl empty ↦ cc (rw empty at h)
  | inr given ↦ elim (Bool-cases (v == "v2.0")) [
    | inl second ↦
        let same : t ≡ tenant = some-injective _ _ (rw (given, second) at h) in
        (ground (arith, same, (eq_iff v "v2.0").0 second), rw (← same) (ne_of_eq_false _ _ given))
    | inr other ↦ cc (rw (given, other) at h)
  ]
]
tenant_in-eq (t ∷ (v ∷ (x ∷ more))) tenant h = cc

issuer_tenant_sound :
    (issuer tenant : String)
    → issuer_tenant issuer ≡ some tenant
    → (issuer ≡ microsoft_host ^^ (tenant ^^ "/v2.0")) × IsTenant tenant
unfolding issuer_tenant
issuer_tenant_sound issuer tenant h = elim (Option-cases (cut_prefix issuer microsoft_host)) [
  | inl foreign ↦ cc (rw foreign at h)
  | inr (path, cut) ↦
      let (parts, given) = tenant_in-eq (split path 0x2F) tenant (rw cut at h) in
      let (d, is_slash, whole, lacks) = split-eq_two path 0x2F tenant "v2.0" parts in
      let slash : d ≡ "/" = Char-path d "/" (ground (arith, is_slash)) in
      (
        cut_prefix-eq-some issuer microsoft_host path cut
            ∙ ap (λ t. microsoft_host ^^ t)
                (whole ∙ ap (λ c. tenant ^^ (String.◌∷◌ c "v2.0")) slash),
        (given, lacks),
      )
]

issuer_tenant_complete :
    (tenant : String)
    → IsTenant tenant
    → issuer_tenant (microsoft_host ^^ (tenant ^^ "/v2.0")) ≡ some tenant
unfolding issuer_tenant
issuer_tenant_complete tenant (given, lacks) =
    let parts : split (tenant ^^ "/v2.0") 0x2F ≡ tenant ∷ "v2.0" ∷ [] =
      split-append tenant "v2.0" "/" 0x2F refl
      ∙ ap (λ l. l ++ split "v2.0" 0x2F) (split_of_Lacks tenant 0x2F lacks) in
    rw (cut_prefix-append microsoft_host (tenant ^^ "/v2.0"), parts, eq_false_of_ne _ _ given)

-- An issuer gives the tenant exactly where it is the host of Microsoft, the tenant and `/v2.0`, for
-- a tenant that is not empty and has no slash.
pub issuer_tenant_iff :
    (issuer tenant : String)
    → (issuer_tenant issuer ≡ some tenant)
      ↔ ((issuer ≡ microsoft_host ^^ (tenant ^^ "/v2.0")) × IsTenant tenant)
issuer_tenant_iff issuer tenant =
    (issuer_tenant_sound issuer tenant, λ h. rw h.0 (issuer_tenant_complete tenant h.1))
