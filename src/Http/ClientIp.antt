-- ===== src/Http/ClientIp.antt =====
-- `clientIP` and `isTrustedProxy` of server/internal/transport/http/handler/auth.go.
pub mod Spoofing
use agent_events.Prelude.{
  ℕ, String, ◌≡◌, ◌≢◌, refl, sym, ap, ◌∙◌, inl, inr, Bool, true, false, not, ◌&&◌, ◌||◌, Option,
  none, some, List, [], ◌∷◌, ◌++◌, map, arith, any, ◌==◌, Bool-cases, Option-cases, if◌then◌else◌,
  All,
}
use mathlib.Core.List.{reverse}
use agent_events.Text.{trim_space, split}

-- What is used of the package net: addresses, networks, and how texts are read as such; whether
-- `To4` gives an address, and the network of an address under the mask `CIDRMask(bits, bits)`.
pub record Net : Type 1 where
  pub Ip : Type 0
  pub IpNet : Type 0
  pub parse_ip : String → Option Ip
  pub parse_cidr : String → Option IpNet
  pub split_host_port : String → Option String
  pub is_v4 : Ip → Bool
  pub host_network : Ip → (bits : ℕ) → IpNet
  pub contains : IpNet → Ip → Bool

module _ (net : Net) where
  open net use {Ip, IpNet, parse_ip, split_host_port, contains}

  -- `isTrustedProxy`
  unfoldable pub is_trusted_proxy : Ip → List IpNet → Bool
  unfolding any
  is_trusted_proxy ip trusted = any (λ network. contains network ip) trusted

  -- an entry of the header that is the address of a trusted proxy
  unfoldable pub is_proxy_entry : List IpNet → String → Bool
  unfolding is_trusted_proxy
  is_proxy_entry trusted entry = elim (parse_ip entry) [
    | none ↦ false
    | some ip ↦ is_trusted_proxy ip trusted
  ]

  -- the loop of `clientIP`, over the entries from the last one on
  unfoldable pub last_untrusted : List IpNet → (host : String) → List String → String
  unfolding is_proxy_entry
  last_untrusted trusted host [] = host
  last_untrusted trusted host (part ∷ parts) =
      let entry = trim_space part in
      let others = last_untrusted trusted host parts in
      if entry == "" then others else if is_proxy_entry trusted entry then others else entry

  -- the host of the peer
  abbrev pub host_of : String → Option String → String
  host_of remote_addr none = remote_addr
  host_of remote_addr (some host) = host

  -- `clientIP`, on `r.RemoteAddr` and the header `X-Forwarded-For`
  unfoldable pub client_ip : (remote_addr forwarded : String) → List IpNet → String
  unfolding last_untrusted
  client_ip remote_addr forwarded trusted =
      let host = host_of remote_addr (split_host_port remote_addr) in
      if not (is_proxy_entry trusted host)
      then host
      else if forwarded == ""
      then host
      else last_untrusted trusted host (reverse (split forwarded 0x2C))
