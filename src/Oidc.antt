-- ===== src/Oidc.antt =====
-- server/internal/adapters/oidc: which identity a token stands for. The packages go-oidc and
-- encoding/json are the arguments `Library` and `Json`.
pub mod Verifier
pub mod Issuer
pub mod Vouched
pub mod Configured
use agent_events.Prelude.{
  String, Bool, true, false, not, ◌&&◌, ◌||◌, Option, none, some, List, [], ◌∷◌, ◌++◌, map, ◌==◌,
  if◌then◌else◌,
}
use agent_events.Text.{◌^^◌, cut_prefix, split}
use agent_events.Apperr.{
  Error, plain, wrapped, error_text, sentinel, provider_unavailable, sentinel_text,
}
use agent_events.Exec.{App, pure, fail, catch, when, ◌>>=◌, ◌>>◌}
use agent_events.Domain.{Identity, provider_google, provider_apple, provider_microsoft, providers}

-- What encoding/json finds for a field: nothing, a null, a boolean, a string, or another value.
pub data Json : Type 0 where
  absent null other : Json
  boolean : Bool → Json
  string : String → Json

-- oidc.IDToken, with the value of each claim
pub record IdToken : Type 0 where
  pub issuer : String
  pub subject : String
  pub claim : String → Json

-- What is used of go-oidc: `NewProvider`, which asks the issuer for its keys; `Verify` of a
-- verifier for an issuer and a client id; `Verify` of one for a set of keys and a client id that
-- skips the check of the issuer. `claims_error` is the error of `Claims`, `quote` is `%q` of fmt.
pub record Library (W : Type 0) : Type 0 where
  pub new_provider : (issuer : String) → App W (Unit {0})
  pub verify_issued : (issuer client_id raw : String) → App W IdToken
  pub verify_signed : (jwks_url client_id raw : String) → App W IdToken
  pub claims_error : IdToken → Error
  pub quote : String → String

-- A `string` field; a null leaves its zero value.
unfoldable pub string_claim : Json → Option String
string_claim (string s) = some s
string_claim absent = some ""
string_claim null = some ""
string_claim (boolean b) = none
string_claim other = none

-- A `bool` field
unfoldable pub bool_claim : Json → Option Bool
bool_claim (boolean b) = some b
bool_claim absent = some false
bool_claim null = some false
bool_claim (string s) = none
bool_claim other = none

-- `strconv.ParseBool`
unfoldable pub parse_bool : String → Option Bool
parse_bool s =
    if s == "1" || s == "t" || s == "T" || s == "TRUE" || s == "true" || s == "True"
    then some true
    else if s == "0" || s == "f" || s == "F" || s == "FALSE" || s == "false" || s == "False"
    then some false
    else none

-- `flexibleBool.UnmarshalJSON`; it is called for a null too, and not for an absent field
unfoldable pub flexible_bool : Json → Option Bool
unfolding parse_bool
flexible_bool (boolean b) = some b
flexible_bool (string s) = parse_bool s
flexible_bool absent = some false
flexible_bool null = some false
flexible_bool other = none

-- the parts of an issuer behind the host of Microsoft
abbrev tenant_in : List String → Option String
tenant_in (tenant ∷ (version ∷ [])) =
    if tenant == "" then none else if version == "v2.0" then some tenant else none
tenant_in _ = none

abbrev tenant_behind : Option String → Option String
tenant_behind none = none
tenant_behind (some path) = tenant_in (split path 0x2F)

abbrev pub microsoft_host : String
microsoft_host = "https://login.microsoftonline.com/"

-- the group of `microsoftIssuerPattern`
unfoldable pub issuer_tenant : String → Option String
unfolding split
issuer_tenant issuer = tenant_behind (cut_prefix issuer microsoft_host)

-- type verifyFunc
abbrev pub VerifyFunc : Type 0 → Type 0
VerifyFunc W = String → App W Identity

-- `fmt.Errorf` on a message, `": %w"` and an error
abbrev pub errorf : String → Error → Error
errorf message e = wrapped (message ^^ ": " ^^ error_text e) e

module _ {W : Type 0} (lib : Library W) where
  -- a claim that `Claims` has read, or the error of the call
  abbrev pub claimed : {A : Type 0} → (message : String) → IdToken → Option A → App W A
  claimed message token none = fail (errorf message (lib.claims_error token))
  claimed message token (some a) = pure a

  -- `GoogleVerifier.Verify`
  unfoldable pub verify_google : (client_id issuer : String) → VerifyFunc W
  unfolding string_claim bool_claim
  verify_google client_id issuer raw = do
    token ← lib.verify_issued issuer client_id raw
    email ← claimed "parse google id token claims" token (string_claim (token.claim "email"))
    verified ←
        claimed "parse google id token claims" token (bool_claim (token.claim "email_verified"))
    when (email == "") (fail (plain "google id token has no email claim"))
    when (not verified) (fail (plain "google email is not verified"))
    pure (record { provider = provider_google; subject = token.subject; email = email })

  -- `AppleVerifier.Verify`
  unfoldable pub verify_apple : (client_id issuer : String) → VerifyFunc W
  unfolding string_claim flexible_bool
  verify_apple client_id issuer raw = do
    token ← lib.verify_issued issuer client_id raw
    email ← claimed "parse apple id token claims" token (string_claim (token.claim "email"))
    verified ←
        claimed "parse apple id token claims" token (flexible_bool (token.claim "email_verified"))
    when (email == "") (fail (plain "apple id token has no email claim"))
    when (not verified) (fail (plain "apple email is not verified"))
    pure (record { provider = provider_apple; subject = token.subject; email = email })

  -- the issuer's tenant, in `MicrosoftVerifier.Verify`
  unfoldable pub check_tenant : (restricted : Bool) → (tenant issuer : String) → App W (Unit {0})
  unfolding issuer_tenant
  check_tenant restricted tenant issuer = elim (issuer_tenant issuer) [
    | none ↦
        fail (plain ("microsoft id token issuer " ^^ lib.quote issuer ^^ " is not a tenant issuer"))
    | some found ↦
        when (restricted && not (found == tenant))
          (fail (plain ("microsoft id token tenant " ^^ lib.quote found ^^ " is not allowed")))
  ]

  -- `MicrosoftVerifier.Verify`
  unfoldable pub verify_microsoft :
      (client_id jwks_url : String) (restricted : Bool) (tenant : String) → VerifyFunc W
  unfolding check_tenant string_claim
  verify_microsoft client_id jwks_url restricted tenant raw = do
    token ← lib.verify_signed jwks_url client_id raw
    check_tenant restricted tenant token.issuer
    email ← claimed "parse microsoft id token claims" token (string_claim (token.claim "email"))
    pure (record { provider = provider_microsoft; subject = token.subject; email = email })

  -- `devVerifier.verify`
  unfoldable pub verify_dev : String → VerifyFunc W
  verify_dev provider raw = pure (record { provider = provider; subject = raw; email = "" })

  -- `NewGoogle`
  unfoldable pub new_google : (client_id issuer : String) → App W (VerifyFunc W)
  unfolding verify_google
  new_google client_id issuer = do
    catch (lib.new_provider issuer) λ e. fail (errorf "discover google oidc provider" e)
    pure (verify_google client_id issuer)

  -- `NewApple`
  unfoldable pub new_apple : (client_id issuer : String) → App W (VerifyFunc W)
  unfolding verify_apple
  new_apple client_id issuer = do
    catch (lib.new_provider issuer) λ e. fail (errorf "discover apple oidc provider" e)
    pure (verify_apple client_id issuer)

  -- the tenants of the switch in `NewMicrosoft`, which stand for any tenant
  abbrev pub is_shared_tenant : String → Bool
  is_shared_tenant tenant =
      tenant == "" || tenant == "common" || tenant == "consumers" || tenant == "organizations"

  -- `NewMicrosoft`
  unfoldable pub new_microsoft : (client_id tenant jwks_url : String) → App W (VerifyFunc W)
  unfolding verify_microsoft
  new_microsoft client_id tenant jwks_url =
      if is_shared_tenant tenant
      then pure (verify_microsoft client_id jwks_url false "")
      else pure (verify_microsoft client_id jwks_url true tenant)
