-- ===== src/Tests/Oidc.antt =====
-- Identities that are verified.
use text.Mathlib.TextEquality.{eq_iff}
use agent_events.Prelude.{
  ℕ, String, ◌≡◌, ◌≢◌, ◌↔◌, refl, true, inl, inr, some, List, [], ◌∷◌, ◌==◌, if◌then◌else◌, arith,
  ◌&&◌, Bool-cases,
}
use agent_events.Prelude.Int.{pos}
use agent_events.Text.{◌^^◌}
use agent_events.Apperr.{plain}
use agent_events.Exec.{ok, err}
use agent_events.Domain.{Identity}
use agent_events.Postgres.Accounts.{accounts_at, account_model}
use agent_events.Oidc.{Library, IdToken, Json, issuer_tenant, microsoft_host, verify_google}
use agent_events.Oidc.Issuer.{IsTenant, issuer_tenant_iff}
use agent_events.Oidc.Verifier.{Verifier, google_issuer, new_verifier, identity_verifier, verify}
use agent_events.Oidc.Vouched.{Vouched}
use agent_events.Server.{auth_service, auth_service-AuthLaws}
use agent_events.Server.SignIn.{options_of, exchange-Vouched}
use agent_events.Server.Start.{provide_identity_verifier, provide_rate_limiter, provide_auth_config}
use agent_events.Server.Start.Total.{provide_identity_verifier-Returns}
use agent_events.Usecase.Auth.{AuthService, ExchangeInput, ExchangeResult, action_auth_exchange}
use agent_events.Usecase.Auth.Users.{exchange}
use agent_events.Time.{unix, truncate}
use agent_events.Postgres.Users.{upsert_by_identity, create_token}
use agent_events.World.{allow_in, World, journal_logger}
use agent_events.Tests.Fixtures.{engine, world, noon}
use agent_events.Config.{config_of}
use agent_events.Tests.Config.{net, settings, config, config_is_loaded}

issuer_tenant_iff_example :
    (issuer_tenant "https://login.microsoftonline.com/contoso/v2.0" ≡ some "contoso") ↔ (
      ("https://login.microsoftonline.com/contoso/v2.0" ≡ microsoft_host ^^ ("contoso" ^^ "/v2.0"))
      × IsTenant "contoso")
issuer_tenant_iff_example =
    issuer_tenant_iff "https://login.microsoftonline.com/contoso/v2.0" "contoso"

-- Google vouches for Ann by the token "good", and for nobody by another.
abbrev ann_token : IdToken
ann_token = record {
  issuer = google_issuer;
  subject = "ann";
  claim = λ name.
      if name == "email"
      then Json.string "ann@example.com"
      else if name == "email_verified"
      then Json.boolean true
      else Json.absent;
}

abbrev pub library : Library World
library = record {
  new_provider = λ issuer w. (ok tt, w);
  verify_issued = λ issuer client_id raw w.
      if raw == "good" && client_id == "our-client"
      then (ok ann_token, w)
      else (err (plain "bad token"), w);
  verify_signed = λ jwks_url client_id raw w. (err (plain "bad token"), w);
  claims_error = λ token. plain "no such claims";
  quote = λ s. s;
}

abbrev pub verifier : Verifier World
verifier = ("google", verify_google library "our-client" google_issuer) ∷ []

verifier_is_made :
    provide_identity_verifier config library journal_logger world ≡ (ok verifier, world)
unfolding provide_identity_verifier new_verifier config_of
verifier_is_made = refl

provide_identity_verifier-Returns_example :
    (v : Verifier World) × (w' : World) × (provide_identity_verifier config library journal_logger
        world
      ≡ (ok v, w'))
provide_identity_verifier-Returns_example =
    provide_identity_verifier-Returns library (λ issuer w. (w, refl)) net settings config
      journal_logger config_is_loaded world

abbrev pub digest : String → List ℕ
digest raw = 7 ∷ []

abbrev pub service : AuthService World
service =
    auth_service engine (provide_rate_limiter config) (provide_auth_config config)
      (identity_verifier library verifier) digest

abbrev pub input : ExchangeInput
input = record { provider = "google"; id_token = "good"; client_ip = "6.6.6.6" }

pub verifier_quiet :
    (provider raw : String) (w : World) → (verify library verifier provider raw w).1.db ≡ w.db
unfolding verify verify_google
verifier_quiet provider raw w = elim (Bool-cases ("google" == provider)) [
  | inr other ↦ rw (other, verify)
  | inl google ↦ elim (Bool-cases (raw == "good")) [
    | inl good ↦ rw (google, verify, good)
    | inr bad ↦ rw (google, verify, bad)
  ]
]

abbrev pub ann_signed_in : ExchangeResult
ann_signed_in = record {
  user = record {
    id = "ann";
    provider = "google";
    subject = "ann";
    email = "ann@example.com";
    created_at = noon;
  };
  token = "aeu_AQID";
  expires_at = pos 63_902_592_000_000_000_000;
}

abbrev pub signed_in : World
signed_in = (exchange service input world).1

pub ann_signs_in : exchange service input world ≡ (ok ann_signed_in, signed_in)
unfolding exchange verify verify_google config_of allow_in unix truncate upsert_by_identity
    create_token
ann_signs_in = refl

not_development : config.env ≢ "development"
unfolding config_of
not_development = λ e. ground (arith, eq_iff "production" "development", e)

exchange-Vouched_example :
    (identity : Identity) × Vouched library
      (options_of config)
      "good"
      (service.limiter.allow ("ip:" ^^ "6.6.6.6") action_auth_exchange world).1
      "google"
      identity
    × (ann_signed_in.user.provider ≡ identity.provider)
    × (ann_signed_in.user.subject ≡ identity.subject)
exchange-Vouched_example =
    exchange-Vouched library journal_logger config service (account_model engine)
      (accounts_at engine) verifier
      (auth_service-AuthLaws engine (provide_rate_limiter config) (provide_auth_config config)
        (identity_verifier library verifier) digest verifier_quiet)
      world world world signed_in input ann_signed_in not_development verifier_is_made ann_signs_in
