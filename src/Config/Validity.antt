-- ===== src/Config/Validity.antt =====
-- `Validate` of server/pkg/config/config.go: which configurations the server starts with.
use agent_events.Prelude.{
  String, ◌≡◌, ◌≢◌, refl, ◌⊎◌, inl, inr, ◌↔◌, true, false, not, ◌&&◌, none, some, Option, arith,
  eq_iff, Bool-cases, Option-cases, ◌==◌, ne_of_eq_false, eq_false_of_ne, List, sym, subst,
}
use agent_events.Prelude.Int.{ℤ, pos, ◌≤ℤ◌, ◌<ℤ◌}
use agent_events.Text.{atoi}
use agent_events.Http.ClientIp.{Net}
use agent_events.Config.{
  Config, ConfigError, is_port, is_development, has_no_client_id, validate, Settings, Loaded,
  loaded, refused, load, load_with, checked, config_of, parse_trusted_proxies,
}

-- A text that spells a number which a port can have.
abbrev pub IsPort : String → Type 0
IsPort text = (n : ℤ) × (atoi text ≡ some n) × (pos 1 ≤ℤ n) × (n ≤ℤ pos 65535)

-- Whether a provider of identities is named.
abbrev pub HasClientId : {net : Net} → Config net → Type 0
HasClientId c = (c.google_client_id ≢ "") ⊎ (c.apple_client_id ≢ "") ⊎ (c.microsoft_client_id ≢ "")

-- A configuration that the server can run with.
pub record IsValid {net : Net} (c : Config net) : Type 0 where
  pub port_ok : IsPort c.port
  pub signs_in : (c.env ≡ "development") ⊎ HasClientId c
  pub has_database : c.database_url ≢ ""
  pub ttl_positive : pos 0 <ℤ c.user_token_ttl
  pub agents_positive : pos 1 ≤ℤ c.max_agents_per_user
  pub events_positive : pos 1 ≤ℤ c.rate_limit_events_per_day
  pub exchange_positive : pos 1 ≤ℤ c.rate_limit_exchange_per_hour

is_port_sound : (text : String) → is_port (atoi text) ≡ true → IsPort text
unfolding is_port
is_port_sound text h = elim (Option-cases (atoi text)) [
  | inl bad ↦ cc (rw bad at h)
  | inr (n, read) ↦ let k = rw read at h in (n, read, ground arith, ground arith)
]

is_port_complete : (text : String) → IsPort text → is_port (atoi text) ≡ true
unfolding is_port
is_port_complete text (n, read, low, high) = rw read (ground arith)

pub Loaded-cases :
    {A : Type 0} (r : Loaded A) → ((a : A) × (r ≡ loaded a)) ⊎ ((e : ConfigError) × (r ≡ refused e))
Loaded-cases (loaded a) = inl (a, refl)
Loaded-cases (refused e) = inr (e, refl)

module _ {net : Net} (c : Config net) where
  signs_in_sound :
      (not (is_development c) && has_no_client_id c) ≡ false
      → (c.env ≡ "development") ⊎ HasClientId c
  signs_in_sound h = elim (Bool-cases (is_development c)) [
    | inl here ↦ inl ((eq_iff _ _).0 here)
    | inr away ↦ elim (Bool-cases (c.google_client_id == "")) [
      | inr google ↦ inr (inl (ne_of_eq_false _ _ google))
      | inl no_google ↦ elim (Bool-cases (c.apple_client_id == "")) [
        | inr apple ↦ inr (inr (inl (ne_of_eq_false _ _ apple)))
        | inl no_apple ↦ elim (Bool-cases (c.microsoft_client_id == "")) [
          | inr microsoft ↦ inr (inr (inr (ne_of_eq_false _ _ microsoft)))
          | inl none_at_all ↦ cc (rw (away, no_google, no_apple, none_at_all) at h)
        ]
      ]
    ]
  ]

  has_no_client_id-HasClientId : HasClientId c → has_no_client_id c ≡ false
  has_no_client_id-HasClientId (inl google) = rw (eq_false_of_ne _ _ google)
  has_no_client_id-HasClientId (inr (inl apple)) = ground (arith, eq_false_of_ne _ _ apple)
  has_no_client_id-HasClientId (inr (inr microsoft)) = ground (arith, eq_false_of_ne _ _ microsoft)

  signs_in_complete :
      (c.env ≡ "development") ⊎ HasClientId c
      → (not (is_development c) && has_no_client_id c) ≡ false
  signs_in_complete (inl here) = ground (arith, eq_iff c.env "development")
  signs_in_complete (inr given) = ground (arith, has_no_client_id-HasClientId given)

  validate_sound : validate c ≡ none → IsValid c
  unfolding validate
  validate_sound h = record {
    port_ok = is_port_sound c.port (ground arith);
    signs_in = signs_in_sound (ground arith);
    has_database = ne_of_eq_false _ _ (ground arith);
    ttl_positive = ground arith;
    agents_positive = ground arith;
    events_positive = ground arith;
    exchange_positive = ground arith;
  }

  validate_complete : IsValid c → validate c ≡ none
  unfolding validate
  validate_complete v = ground (
    arith,
    is_port_complete c.port v.port_ok,
    signs_in_complete v.signs_in,
    eq_false_of_ne c.database_url "" v.has_database,
  )

checked-cases :
    {net : Net} (c d : Config net) (o : Option ConfigError)
    → checked net c o ≡ loaded d
    → (o ≡ none) × (c ≡ d)
checked-cases c d none h = (refl, ground (arith, h))
checked-cases c d (some e) h = cc

-- A configuration that is loaded was made of the settings and of the networks that the text of
-- the trusted proxies gives, and is valid.
pub load_sound :
    (net : Net) (v : Settings) (c : Config net)
    → load net v ≡ loaded c
    → ((proxies : List net.IpNet) × (parse_trusted_proxies net (v.get_string "trusted_proxies" "")
          ≡ loaded proxies)
        × (c ≡ config_of net v proxies))
      × IsValid c
unfolding load
load_sound net v c h =
    elim (Loaded-cases (parse_trusted_proxies net (v.get_string "trusted_proxies" ""))) [
      | inr (e, bad) ↦ cc (rw bad at h)
      | inl (proxies, read) ↦
          let (good, same) =
            checked-cases (config_of net v proxies) c _ (rw (read, load_with) at h) in
          (
            (proxies, read, sym same),
            subst IsValid same (validate_sound (config_of net v proxies) good),
          )
    ]

-- A configuration is loaded exactly where it is the one that is made of the settings and of the
-- networks that the text of the trusted proxies gives, and it is valid.
pub load_iff :
    (net : Net) (v : Settings) (c : Config net)
    → (load net v ≡ loaded c) ↔ (
        ((proxies : List net.IpNet) × (parse_trusted_proxies net (v.get_string "trusted_proxies" "")
            ≡ loaded proxies)
          × (c ≡ config_of net v proxies))
        × IsValid c)
unfolding load
load_iff net v c = (
  load_sound net v c,
  λ h.
      let ((proxies, read, same), valid) = h in
      rw (read, load_with, same)
        (rw (validate_complete (config_of net v proxies) (subst IsValid same valid)) refl),
)
