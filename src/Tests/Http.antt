-- ===== src/Tests/Http.antt =====
-- Errors as responses, bearer tokens and client addresses.
use Prim.Native.String.{String}
use text.Mathlib.TextEquality.{eq_iff}
use agent_events.Prelude.{inr, true, ◌≡◌, refl, some, [], ◌∷◌, arith, ◌==◌, any}
use agent_events.Apperr.{Error, plain, wrap_error, forbidden, kind_of, details_of}
use agent_events.Text.{◌^^◌, trim_space, is_space, cut_prefix, split}
use agent_events.Http.JsonName.{json_name}
use agent_events.Http.Response.{status_code, error_body}
use agent_events.Http.Response.Laws.{error_body-hides_internal}
use agent_events.Http.Bearer.{bearer_token, bearer_prefix, bearer_token_complete}
use agent_events.Http.ClientIp.{Net, client_ip, is_proxy_entry}
use agent_events.Http.ClientIp.Spoofing.{client_ip-last_entry}

abbrev leak : Error
leak = wrap_error (plain "connection refused") "could not sign in"

abbrev other_leak : Error
other_leak = plain "password authentication failed"

error_body-hides_internal_example :
    (status_code leak ≡ status_code other_leak) × (error_body leak ≡ error_body other_leak)
unfolding kind_of details_of
error_body-hides_internal_example = error_body-hides_internal leak other_leak refl refl refl

abbrev denied : Error
denied = forbidden "event does not belong to you"

abbrev sent : String
sent = "aeu_x"

token_is_read : bearer_token "  Bearer  aeu_x " ≡ some "aeu_x"
unfolding bearer_token trim_space cut_prefix
token_is_read = refl

bearer_token_complete_example : bearer_token (bearer_prefix ^^ "aea_k") ≡ some "aea_k"
unfolding is_space
bearer_token_complete_example =
    bearer_token_complete "aea_k" (ground (arith, eq_iff "aea_k" "")) (refl, refl)

-- Addresses are texts, a network is one address, and a peer's address has no port.
abbrev net : Net
net = record {
  Ip = String;
  IpNet = String;
  parse_ip = λ s. some s;
  parse_cidr = λ s. some s;
  is_v4 = λ ip. true;
  host_network = λ ip bits. ip;
  split_host_port = λ s. some s;
  contains = λ network ip. network == ip;
}

client_ip-last_entry_example :
    client_ip net "10.0.0.1" "6.6.6.6,10.0.0.1" ("10.0.0.1" ∷ []) ≡ trim_space "6.6.6.6"
unfolding is_proxy_entry any is_space trim_space split
client_ip-last_entry_example =
    client_ip-last_entry net "10.0.0.1" "6.6.6.6,10.0.0.1" "6.6.6.6" [] ("10.0.0.1" ∷ [])
      ("10.0.0.1" ∷ []) refl refl (inr refl, tt) (ground (arith, eq_iff "6.6.6.6" "")) refl

-- The field that the body of a sign-in calls "id_token".
id_token_is_misnamed : json_name "IDToken" ≡ "iDToken"
unfolding json_name
id_token_is_misnamed = refl
