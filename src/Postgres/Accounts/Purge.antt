-- ===== src/Postgres/Accounts/Purge.antt =====
-- `DeleteExpired` of server/internal/adapters/postgres/user_token_repository.go: which tokens stay.

use mathlib.Core.Option.{some-injective}
use agent_events.Prelude.{
  String, ◌≡◌, refl, ap, subst, inl, inr, Bool, true, false, not, ◌||◌, some, List, [], ◌∷◌, arith,
  ◌==◌, filter, Bool-cases, Option-cases,
}
use agent_events.Prelude.Int.{ltb_ℤ}
use agent_events.Time.{Time, is_zero}
use agent_events.Exec.{Result, ok, err}
use agent_events.Apperr.{Error}
use agent_events.Domain.{UserToken}
use agent_events.Port.Accounts.{Accounts, AccountModel}
use agent_events.World.{World}
use agent_events.Postgres.Ids.{kept_time}
use agent_events.Postgres.Table.{lookup}
use agent_events.Postgres.Schema.{UserTokenRow, Engine, timestamptz, user_token_from_row}
use agent_events.Postgres.AccountQuery.{expired_before}
use agent_events.Postgres.Users.{delete_expired}
use agent_events.Postgres.Accounts.{find_token, accounts_at, account_model}

-- A row that passes the test is found again among the rows that pass it.
lookup-filter :
    (p : UserTokenRow → Bool) (k : String) (rows : List UserTokenRow) (r : UserTokenRow)
    → lookup (λ (r : UserTokenRow). r.token_hash) k rows ≡ some r
    → p r ≡ true
    → lookup (λ (r : UserTokenRow). r.token_hash) k (filter p rows) ≡ some r
unfolding lookup filter
lookup-filter p k [] r h pass = h
lookup-filter p k (x ∷ rows) r h pass = elim (Bool-cases (x.token_hash == k)) [
  | inl here ↦
      let same : x ≡ r = ground (arith, here, h) in rw (same, pass) (rw (← same) (rw here refl))
  | inr other ↦ ground (arith, other, lookup-filter p k rows r (rw other at h) pass)
]

-- What is found among the rows that pass passes.
filter-passes :
    (p : UserTokenRow → Bool) (k : String) (rows : List UserTokenRow) (r : UserTokenRow)
    → lookup (λ (r : UserTokenRow). r.token_hash) k (filter p rows) ≡ some r
    → p r ≡ true
unfolding lookup filter
filter-passes p k [] r h = cc
filter-passes p k (x ∷ rows) r h = elim (Bool-cases (p x)) [
  | inr out ↦ filter-passes p k rows r (rw out at h)
  | inl pass ↦ elim (Bool-cases (x.token_hash == k)) [
    | inl here ↦ let same : x ≡ r = ground (arith, pass, here, h) in rw (← same) pass
    | inr other ↦ filter-passes p k rows r (rw (pass, other) at h)
  ]
]

-- A token without a time, or with one that is not before `now`.
abbrev pub IsFresh : Time → UserToken → Type 0
IsFresh now t = (is_zero t.expires_at || not (ltb_ℤ t.expires_at now)) ≡ true

-- The accounts before and after the removal of the tokens that have expired at a time.
pub data PurgeOutcome (m : AccountModel) (now : Time) (before after : Accounts)
    : Result (Unit {0}) → Type 0 where
  failed : (e : Error) → after ≡ before → PurgeOutcome m now before after (err e)
  purged :
      after ≡ record before { token = after.token }
      → ((h : String) (t : UserToken)
          → before.token h ≡ some t
          → ltb_ℤ t.expires_at (m.stored_time now) ≡ false
          → after.token h ≡ some t)
      → ((h : String) (t : UserToken)
          → is_zero now ≡ false
          → after.token h ≡ some t
          → IsFresh (m.stored_time now) t)
      → PurgeOutcome m now before after (ok tt)

module _ (pg : Engine) where
  -- The statement takes a row for expired only if its token is.
  expired_before_sound :
      (now : Time) (row : UserTokenRow)
      → ltb_ℤ (user_token_from_row row).expires_at (kept_time pg now) ≡ false
      → expired_before pg (timestamptz now) row ≡ false
  unfolding expired_before timestamptz user_token_from_row
  expired_before_sound now row h = elim (Bool-cases (is_zero now)) [
    | inl unset ↦ rw unset
    | inr given ↦ elim (Bool-cases row.expires_at.valid) [
      | inl valid ↦ ground (arith, valid, given, rw (given, valid) at h)
      | inr null ↦ ground (arith, null)
    ]
  ]

  -- A row that it does not take for expired has no time, or a time that is not over.
  expired_before_complete :
      (now : Time) (row : UserTokenRow)
      → is_zero now ≡ false
      → expired_before pg (timestamptz now) row ≡ false
      → (is_zero (user_token_from_row row).expires_at
          || not (ltb_ℤ (user_token_from_row row).expires_at (kept_time pg now)))
        ≡ true
  unfolding expired_before timestamptz user_token_from_row
  expired_before_complete now row given h = elim (Bool-cases row.expires_at.valid) [
    | inl valid ↦ ground (arith, valid, given, rw (given, valid) at h)
    | inr null ↦ ground (arith, null)
  ]

  abbrev left : Time → List UserTokenRow → List UserTokenRow
  left now rows = filter (λ row. not (expired_before pg (timestamptz now) row)) rows

  find_token-row :
      (rows : List UserTokenRow) (h : String) (t : UserToken)
      → find_token rows h ≡ some t
      → (row : UserTokenRow) × (lookup (λ (r : UserTokenRow). r.token_hash) h rows ≡ some row)
        × (user_token_from_row row ≡ t)
  find_token-row rows h t found =
      elim (Option-cases (lookup (λ (r : UserTokenRow). r.token_hash) h rows)) [
        | inl missing ↦ cc (rw missing at found)
        | inr (row, there) ↦ (row, there, some-injective _ _ (rw there at found))
      ]

  left-keeps :
      (now : Time) (rows : List UserTokenRow) (h : String) (t : UserToken)
      → find_token rows h ≡ some t
      → ltb_ℤ t.expires_at (kept_time pg now) ≡ false
      → find_token (left now rows) h ≡ some t
  left-keeps now rows h t found fresh =
      let (row, there, same) = find_token-row rows h t found in
      let stays = expired_before_sound now row (rw same fresh) in
      rw (lookup-filter _ h rows row there (ap not stays)) (ap some same)

  left-clears :
      (now : Time) (rows : List UserTokenRow) (h : String) (t : UserToken)
      → is_zero now ≡ false
      → find_token (left now rows) h ≡ some t
      → IsFresh (kept_time pg now) t
  left-clears now rows h t given found =
      let (row, there, same) = find_token-row (left now rows) h t found in
      let pass =
        filter-passes (λ row. not (expired_before pg (timestamptz now) row)) h rows row there in
      subst (IsFresh (kept_time pg now)) same
        (expired_before_complete now row given (ground (arith, pass)))

  -- `delete_expired` has one of the outcomes of PurgeOutcome: it fails and changes nothing, or it
  -- leaves users and agents alone, keeps every token that is not over at the time of the clock, and
  -- leaves no token that is, if the clock does not say the zero time.
  pub delete_expired-refines :
      (w : World)
      → PurgeOutcome
          (account_model pg)
          (w.clock 0)
          (accounts_at pg w)
          (accounts_at pg (delete_expired pg w).1)
          (delete_expired pg w).0
  unfolding delete_expired
  delete_expired-refines w = elim (Option-cases (w.faults 0)) [
    | inl sent ↦ rw sent (
        PurgeOutcome.purged refl (left-keeps (w.clock 0) w.db.user_tokens)
          (left-clears (w.clock 0) w.db.user_tokens))
    | inr (reason, broken) ↦ rw broken (PurgeOutcome.failed _ refl)
  ]
