-- ===== src/Http/Bearer.antt =====
-- `bearerToken` of server/internal/transport/http/middleware/auth.go.
use text.Mathlib.TextEquality.{eq_iff}
use text.Mathlib.TextLemmas.{append-ne-nil_of_right_ne-nil}
use mathlib.Core.Option.{none-ne-some, some-injective}
use agent_events.Prelude.{
  String, ◌≡◌, ◌≢◌, refl, subst, inl, inr, Option, none, some, ◌==◌, eq_false_of_ne, Bool-cases,
  Option-cases, ne_of_eq_false, if◌then◌else◌, arith,
}
use agent_events.Text.{◌^^◌, is_space, trim_space, cut_prefix}
use agent_events.Text.Trim.{
  IsTrimmed, trim_space-IsTrimmed, trim_space_of_IsTrimmed, cut_prefix-append, cut_prefix-eq-some,
  StartsClean-append, EndsClean-append,
}

abbrev pub bearer_prefix : String
bearer_prefix = "Bearer "

-- The text behind the prefix; an empty one is no token.
abbrev pub nonempty_token : Option String → Option String
nonempty_token none = none
nonempty_token (some raw) = let raw' = trim_space raw in if raw' == "" then none else some raw'

-- `bearerToken` on the value of the header `Authorization`; `none` is `"", false`
unfoldable pub bearer_token : String → Option String
bearer_token authorization =
    let header = trim_space authorization in
    if header == "" then none else nonempty_token (cut_prefix header bearer_prefix)

-- A token that is read is trimmed and not empty, and the trimmed header is `Bearer ` followed
-- by a text that trims to it.
pub bearer_token_sound :
    (authorization token : String)
    → bearer_token authorization ≡ some token
    → (token ≢ "")
      × IsTrimmed token
      × ((raw : String) × (trim_space authorization ≡ bearer_prefix ^^ raw)
          × (trim_space raw ≡ token))
unfolding bearer_token
bearer_token_sound authorization token h = elim (Bool-cases (trim_space authorization == "")) [
  | inl empty ↦ absurd (none-ne-some token (rw empty at h))
  | inr given ↦ elim (Option-cases (cut_prefix (trim_space authorization) bearer_prefix)) [
    | inl missing ↦ absurd (none-ne-some token (rw (given, missing) at h))
    | inr (raw, cut) ↦ elim (Bool-cases (trim_space raw == "")) [
      | inl blank ↦ absurd (none-ne-some token (rw (given, cut, blank) at h))
      | inr found ↦
          let read : trim_space raw ≡ token = some-injective _ _ (rw (given, cut, found) at h) in
          (
            subst (λ t. t ≢ "") read (ne_of_eq_false _ _ found),
            subst IsTrimmed read (trim_space-IsTrimmed raw),
            (raw, cut_prefix-eq-some _ _ _ cut, read),
          )
    ]
  ]
]

-- A token that is trimmed and not empty is read back from the header `Bearer <token>`.
pub bearer_token_complete :
    (token : String)
    → token ≢ ""
    → IsTrimmed token
    → bearer_token (bearer_prefix ^^ token) ≡ some token
unfolding bearer_token is_space
bearer_token_complete token ne trimmed =
    let whole : IsTrimmed (bearer_prefix ^^ token) = (
      StartsClean-append bearer_prefix token (ground (arith, eq_iff bearer_prefix "")) refl,
      EndsClean-append bearer_prefix token ne trimmed.1,
    ) in
    rw (
      trim_space_of_IsTrimmed _ whole,
      eq_false_of_ne _ _ (append-ne-nil_of_right_ne-nil bearer_prefix ne),
      cut_prefix-append bearer_prefix token,
      trim_space_of_IsTrimmed token trimmed,
      eq_false_of_ne _ _ ne,
    )
