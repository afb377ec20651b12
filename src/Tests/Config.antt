-- ===== src/Tests/Config.antt =====
-- Configurations that are loaded.
use text.Mathlib.TextEquality.{eq_iff}
use agent_events.Prelude.{
  ◌+◌, ◌*◌, ◌≤◌, ◌^◌, ◌≡◌, ◌≢◌, ◌↔◌, refl, true, some, List, [], ◌∷◌, String, ◌==◌, if◌then◌else◌,
  arith,
}
use agent_events.Prelude.Int.{ℤ, pos, pos_part, neg_part, ◌*ℤ◌}
use agent_events.Time.{hour}
use agent_events.Text.{trim_space, split, is_space}
use agent_events.Text.Split.{Lacks}
use agent_events.Text.Trim.{IsTrimmed}
use agent_events.Http.ClientIp.{Net, is_trusted_proxy}
use agent_events.Config.{
  Config, Settings, loaded, refused, bad_token_ttl, load, config_of, token_ttl,
  parse_trusted_proxies, network_of,
}
use agent_events.Config.Validity.{IsValid, load_iff}
use agent_events.Config.Lifetime.{token_ttl-exact_iff, load-accepts_wrapped}
use agent_events.Config.Proxies.{Any, Admits, Spells, parse_trusted_proxies-join, trusted_iff}

-- An address and a network are their texts, and a network has one address.
abbrev pub net : Net
net = record {
  Ip = String;
  IpNet = String;
  parse_ip = λ s. some s;
  parse_cidr = λ s. some s;
  split_host_port = λ s. some s;
  is_v4 = λ ip. true;
  host_network = λ ip bits. ip;
  contains = λ network ip. network == ip;
}

-- A server in production, with users of Google and one trusted proxy.
abbrev pub settings_for : (hours : ℤ) → Settings
settings_for hours = record {
  get_string = λ key default.
      if key == "env"
      then "production"
      else if key == "database_url"
      then "postgres://"
      else if key == "google_client_id"
      then "our-client"
      else if key == "trusted_proxies"
      then "10.0.0.1"
      else default;
  get_int = λ key default. if key == "user_token_ttl_hours" then hours else default;
  to_lower = λ s. s;
}

abbrev pub settings : Settings
settings = settings_for (pos 720)

abbrev pub config : Config net
config = config_of net settings ("10.0.0.1" ∷ [])

pub config_is_loaded : load net settings ≡ loaded config
unfolding load trim_space split
config_is_loaded = refl

load_iff_example : (load net settings ≡ loaded config) ↔ (
    ((proxies : List String) × (parse_trusted_proxies net (settings.get_string "trusted_proxies" "")
        ≡ loaded proxies)
      × (config ≡ config_of net settings proxies))
    × IsValid config)
load_iff_example = load_iff net settings config

token_ttl-exact_iff_example :
    (token_ttl (pos 720) ≡ pos 720 *ℤ hour)
    ↔ ((pos_part (pos 720) ≤ 2_562_047) × (neg_part (pos 720) ≤ 2_562_047))
token_ttl-exact_iff_example = token_ttl-exact_iff (pos 720)

-- 585 years are meant, and about 25 minutes are given.
short_lived : token_ttl (pos 5_124_096) ≡ pos 1_526_290_448_384
unfolding token_ttl
short_lived = refl

load-accepts_wrapped_example :
    (load net (settings_for (pos 5_124_096)) ≢ refused bad_token_ttl)
    × ((c : Config net)
        → load net (settings_for (pos 5_124_096)) ≡ loaded c
        → pos_part c.user_token_ttl + 2 ^ 64 ≡ 5_124_096 * 3_600_000_000_000)
load-accepts_wrapped_example =
    load-accepts_wrapped net (settings_for (pos 5_124_096)) 5_124_096 refl (omega arith)
      (omega arith)

abbrev entries : List (String × String)
entries = ("10.0.0.1", "10.0.0.1") ∷ ("10.0.0.2", "10.0.0.2") ∷ []

abbrev listed : String
listed = "10.0.0.1,10.0.0.2"

spelled :
    (entry : String)
    → Lacks 0x2C entry
    → IsTrimmed entry
    → entry ≢ ""
    → network_of net entry ≡ some entry
    → Spells net (entry, entry)
spelled entry lacks trimmed given named = (given, trimmed, lacks, named)

first_Spells : Spells net ("10.0.0.1", "10.0.0.1")
unfolding network_of is_space
first_Spells =
    spelled "10.0.0.1" (refl, (refl, (refl, (refl, (refl, (refl, (refl, (refl, tt))))))))
      (refl, refl) (λ e. ground (arith, eq_iff "10.0.0.1" "", e)) refl

second_Spells : Spells net ("10.0.0.2", "10.0.0.2")
unfolding network_of is_space
second_Spells =
    spelled "10.0.0.2" (refl, (refl, (refl, (refl, (refl, (refl, (refl, (refl, tt))))))))
      (refl, refl) (λ e. ground (arith, eq_iff "10.0.0.2" "", e)) refl

parse_trusted_proxies-join_example :
    parse_trusted_proxies net listed ≡ loaded ("10.0.0.1" ∷ "10.0.0.2" ∷ [])
parse_trusted_proxies-join_example =
    parse_trusted_proxies-join net entries (first_Spells, (second_Spells, tt))

two_networks : parse_trusted_proxies net listed ≡ loaded ("10.0.0.1" ∷ "10.0.0.2" ∷ [])
unfolding parse_trusted_proxies trim_space split
two_networks = refl

trusted_iff_example :
    (is_trusted_proxy net "10.0.0.2" ("10.0.0.1" ∷ "10.0.0.2" ∷ []) ≡ true)
    ↔ Any (Admits net "10.0.0.2") (split (trim_space listed) 0x2C)
trusted_iff_example = trusted_iff net listed ("10.0.0.1" ∷ "10.0.0.2" ∷ []) "10.0.0.2" two_networks
