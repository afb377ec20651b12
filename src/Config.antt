-- ===== src/Config.antt =====
-- server/pkg/config/config.go. The environment, the file .env and the package viper are the
-- argument `Settings`; of an error the text is left out.
pub mod Validity
pub mod Lifetime
pub mod Proxies
use agent_events.Prelude.{
  ℕ, String, Bool, true, false, not, ◌&&◌, ◌||◌, Option, none, some, List, [], ◌∷◌, ◌==◌,
  if◌then◌else◌,
}
use agent_events.Prelude.Int.{ℤ, pos, ◌*ℤ◌, wrap, leb_ℤ, ltb_ℤ}
use agent_events.Text.{trim_space, split, contains, atoi}
use agent_events.Time.{Duration, hour}
use agent_events.Http.ClientIp.{Net}

-- `v.GetString` and `v.GetInt`, on a key and its default (the zero value where none is set), and
-- `strings.ToLower`, whose tables of Unicode are not written out.
pub record Settings : Type 0 where
  pub get_string : (key default : String) → String
  pub get_int : String → (default : ℤ) → ℤ
  pub to_lower : String → String

-- The errors, in the order of the source.
pub data ConfigError : Type 0 where
  bad_port : (port : String) → ConfigError
  no_client_id no_database_url : ConfigError
  bad_token_ttl bad_max_agents bad_events_limit bad_exchange_limit : ConfigError
  bad_proxy : (entry : String) → ConfigError

-- A value, or the error that the start of the server ends with.
pub data Loaded (A : Type 0) : Type 0 where
  loaded : A → Loaded A
  refused : ConfigError → Loaded A

-- type Config struct
pub record Config (net : Net) : Type 0 where
  pub port : String
  pub env : String
  pub log_level : String
  pub database_url : String
  pub google_client_id : String
  pub apple_client_id : String
  pub microsoft_client_id : String
  pub microsoft_tenant : String
  pub user_token_ttl : Duration
  pub max_agents_per_user : ℤ
  pub rate_limit_events_per_day : ℤ
  pub rate_limit_exchange_per_hour : ℤ
  pub trusted_proxies : List net.IpNet

-- `time.Duration(hours) * time.Hour`
unfoldable pub token_ttl : ℤ → Duration
unfolding wrap ◌*ℤ◌
token_ttl hours = wrap (hours *ℤ hour)

-- the test of the port
unfoldable pub is_port : Option ℤ → Bool
is_port none = false
is_port (some n) = leb_ℤ (pos 1) n && leb_ℤ n (pos 65535)

module _ {net : Net} where
  -- `IsProduction`
  abbrev pub is_production : Config net → Bool
  is_production c = c.env == "production"

  -- `IsDevelopment`
  abbrev pub is_development : Config net → Bool
  is_development c = c.env == "development"

  abbrev pub has_no_client_id : Config net → Bool
  has_no_client_id c =
      c.google_client_id == "" && c.apple_client_id == "" && c.microsoft_client_id == ""

  -- `Validate`; `none` is the nil error
  unfoldable pub validate : Config net → Option ConfigError
  unfolding atoi is_port
  validate c =
      if not (is_port (atoi c.port))
      then some (bad_port c.port)
      else if not (is_development c) && has_no_client_id c
      then some no_client_id
      else if c.database_url == ""
      then some no_database_url
      else if leb_ℤ c.user_token_ttl (pos 0)
      then some bad_token_ttl
      else if ltb_ℤ c.max_agents_per_user (pos 1)
      then some bad_max_agents
      else if ltb_ℤ c.rate_limit_events_per_day (pos 1)
      then some bad_events_limit
      else if ltb_ℤ c.rate_limit_exchange_per_hour (pos 1)
      then some bad_exchange_limit
      else none

module _ (net : Net) where
  open net use {Ip, IpNet, parse_ip, parse_cidr, is_v4, host_network}

  -- the network of an entry that is an address, and of any other
  abbrev network_of_ip : Option Ip → Option IpNet
  network_of_ip none = none
  network_of_ip (some ip) = some (host_network ip (if is_v4 ip then 32 else 128))

  unfoldable pub network_of : String → Option IpNet
  unfolding contains
  network_of entry =
      if not (contains entry 0x2F) then network_of_ip (parse_ip entry) else parse_cidr entry

  abbrev prepend : IpNet → Loaded (List IpNet) → Loaded (List IpNet)
  prepend network (loaded networks) = loaded (network ∷ networks)
  prepend network (refused e) = refused e

  abbrev first_network : String → Option IpNet → Loaded (List IpNet) → Loaded (List IpNet)
  first_network entry none rest = refused (bad_proxy entry)
  first_network entry (some network) rest = prepend network rest

  -- the loop of `parseTrustedProxies`
  unfoldable pub parse_parts : List String → Loaded (List IpNet)
  unfolding network_of
  parse_parts [] = loaded []
  parse_parts (part ∷ parts) =
      let entry = trim_space part in
      let rest = parse_parts parts in
      if entry == "" then rest else first_network entry (network_of entry) rest

  -- `parseTrustedProxies`
  unfoldable pub parse_trusted_proxies : String → Loaded (List IpNet)
  unfolding parse_parts
  parse_trusted_proxies raw =
      let text = trim_space raw in if text == "" then loaded [] else parse_parts (split text 0x2C)

  -- the fields of `Load`
  unfoldable pub config_of : Settings → List IpNet → Config net
  unfolding token_ttl
  config_of v proxies = record {
    port = v.get_string "port" "8080";
    env = v.to_lower (v.get_string "env" "development");
    log_level = v.to_lower (v.get_string "log_level" "info");
    database_url = v.get_string "database_url" "";
    google_client_id = v.get_string "google_client_id" "";
    apple_client_id = v.get_string "apple_client_id" "";
    microsoft_client_id = v.get_string "microsoft_client_id" "";
    microsoft_tenant = v.get_string "microsoft_tenant" "common";
    user_token_ttl = token_ttl (v.get_int "user_token_ttl_hours" (pos 720));
    max_agents_per_user = v.get_int "max_agents_per_user" (pos 10);
    rate_limit_events_per_day = v.get_int "rate_limit_events_per_day" (pos 20);
    rate_limit_exchange_per_hour = v.get_int "rate_limit_exchange_per_hour" (pos 30);
    trusted_proxies = proxies;
  }

  abbrev checked : Config net → Option ConfigError → Loaded (Config net)
  checked c none = loaded c
  checked c (some e) = refused e

  abbrev load_with : Settings → Loaded (List IpNet) → Loaded (Config net)
  load_with v (refused e) = refused e
  load_with v (loaded proxies) = let c = config_of v proxies in checked c (validate c)

  -- `Load`
  unfoldable pub load : Settings → Loaded (Config net)
  unfolding parse_trusted_proxies config_of validate
  load v = load_with v (parse_trusted_proxies (v.get_string "trusted_proxies" ""))
