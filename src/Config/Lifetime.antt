-- ===== src/Config/Lifetime.antt =====
-- The lifetime of user tokens in server/pkg/config/config.go, which is computed in 64 bits.
use agent_events.Config.Validity.{Loaded-cases, load_sound}
use agent_events.Text.{trim_space}
use agent_events.Http.ClientIp.{Net}
use agent_events.Prelude.{
  String, ◌≢◌, ap, ◌∙◌, inl, inr, Option, none, some, List, [], ◌∷◌, Bool-cases, ◌==◌, ℕ, ◌+◌, ◌*◌,
  ◌<◌, ◌≤◌, ◌^◌, ◌≡◌, ◌↔◌, false, arith,
}
use agent_events.Prelude.Int.{ℤ, pos, negsuc, leb_ℤ, pos_part, neg_part, ◌*ℤ◌, wrap}
use agent_events.Time.{hour}
use agent_events.Config.{
  token_ttl, Config, Settings, Loaded, loaded, refused, bad_token_ttl, first_network, parse_parts,
  parse_trusted_proxies, checked, validate, config_of, load,
}

-- The lifetime of tokens is the configured number of hours exactly where that number lies between
-- -2562047 and 2562047.
pub token_ttl-exact_iff :
    (hours : ℤ)
    → (token_ttl hours ≡ hours *ℤ hour)
      ↔ ((pos_part hours ≤ 2_562_047) × (neg_part hours ≤ 2_562_047))
unfolding token_ttl wrap ◌*ℤ◌
token_ttl-exact_iff (pos n) = (λ h. ground arith, λ h. ground arith)
token_ttl-exact_iff (negsuc n) = (λ h. ground arith, λ h. ground arith)

-- the part of 2 ^ 64 that is lost between 5124096 and 7686143 hours
wrapped_ttl :
    (h : ℕ)
    → 5_124_096 ≤ h
    → h ≤ 7_686_143
    → (pos_part (token_ttl (pos h)) + 2 ^ 64 ≡ h * 3_600_000_000_000)
      × (neg_part (token_ttl (pos h)) ≡ 0)
      × (0 < pos_part (token_ttl (pos h)))
unfolding token_ttl wrap ◌*ℤ◌
wrapped_ttl h low high = ground arith

-- The parser of the trusted proxies refuses nothing but an entry.
first_network-refuses :
    (net : Net) (entry : String) (o : Option net.IpNet) (r : Loaded (List net.IpNet))
    → r ≢ refused bad_token_ttl
    → first_network net entry o r ≢ refused bad_token_ttl
first_network-refuses net entry none r h = λ e. cc
first_network-refuses net entry (some network) (loaded networks) h = λ e. cc
first_network-refuses net entry (some network) (refused x) h = h

parse_parts-refuses :
    (net : Net) (parts : List String) → parse_parts net parts ≢ refused bad_token_ttl
unfolding parse_parts
parse_parts-refuses net [] = λ e. cc
parse_parts-refuses net (part ∷ parts) = elim (Bool-cases (trim_space part == "")) [
  | inl blank ↦ rw blank (parse_parts-refuses net parts)
  | inr given ↦
      rw given (first_network-refuses net (trim_space part) _ _ (parse_parts-refuses net parts))
]

proxies-refuse : (net : Net) (raw : String) → parse_trusted_proxies net raw ≢ refused bad_token_ttl
unfolding parse_trusted_proxies
proxies-refuse net raw = elim (Bool-cases (trim_space raw == "")) [
  | inl blank ↦ rw blank (λ e. cc)
  | inr given ↦ rw given (parse_parts-refuses net _)
]

-- A positive lifetime is not refused.
validate-passes_ttl :
    {net : Net} (c : Config net)
    → leb_ℤ c.user_token_ttl (pos 0) ≡ false
    → checked net c (validate c) ≢ refused bad_token_ttl
unfolding validate
validate-passes_ttl c h = λ e. ground (arith, e)

-- From 5124096 to 7686143 hours the lifetime is 2 ^ 64 nanoseconds too short, and the server is
-- never refused its start for it.
pub load-accepts_wrapped :
    (net : Net) (v : Settings) (h : ℕ)
    → v.get_int "user_token_ttl_hours" (pos 720) ≡ pos h
    → 5_124_096 ≤ h
    → h ≤ 7_686_143
    → (load net v ≢ refused bad_token_ttl)
      × ((c : Config net)
          → load net v ≡ loaded c
          → pos_part c.user_token_ttl + 2 ^ 64 ≡ h * 3_600_000_000_000)
unfolding load config_of
load-accepts_wrapped net v h hours low high =
    let (lost, positive, more) = wrapped_ttl h low high in
    (
      elim (Loaded-cases (parse_trusted_proxies net (v.get_string "trusted_proxies" ""))) [
        | inr (e, bad) ↦ rw bad (λ k.
            let same : e ≡ bad_token_ttl = ground (arith, k) in
            proxies-refuse net _ (bad ∙ ap refused same))
        | inl (proxies, read) ↦
            rw read (validate-passes_ttl (config_of net v proxies) (rw hours (ground arith)))
      ],
      λ c k. let ((proxies, read, same), valid) = load_sound net v c k in rw (same, hours) lost,
    )
