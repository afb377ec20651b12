-- ===== src/Usecase/Auth/Sessions.antt =====
-- server/internal/core/usecase/auth.go: when a user token is accepted.
use mathlib.Core.Option.{none-ne-some}
use agent_events.Prelude.{String, ◌≡◌, ◌≢◌, sym, ap, ◌∙◌, true, none, some, arith, eq_refl}
use agent_events.Prelude.Int.{ltb_ℤ}
use agent_events.Time.{Time}
use agent_events.Apperr.{Error}
use agent_events.Exec.{Result, ok}
use agent_events.Domain.{User, UserToken}
use agent_events.Port.Accounts.{Accounts, AccountModel}
use agent_events.Usecase.Auth.{AuthService, hash_token}
use agent_events.Usecase.Auth.Users.{authenticate_user, revoke_user_token}
use agent_events.Usecase.Auth.Laws.{AuthLaws}
use agent_events.Usecase.Auth.Outcome.{UserOutcome, LogoutOutcome}
use agent_events.Usecase.Auth.UserRefines.{authenticate_user-refines, revoke_user_token-refines}

-- A token that is not stored is refused.
pub unknown-refused :
    {hash : String} {now : Time} {before after : Accounts} {fails : Error → Type 0}
    {r : Result User}
    → before.token hash ≡ none
    → UserOutcome fails hash now before after r
    → (u : User) → r ≢ ok u
unknown-refused gone (UserOutcome.unknown _ _) u = λ e. cc
unknown-refused gone (UserOutcome.over _ _ _ _) u = λ e. cc
unknown-refused gone (UserOutcome.orphan _ _ _ _ _) u = λ e. cc
unknown-refused gone (UserOutcome.failed _ _ _) u = λ e. cc
unknown-refused gone (UserOutcome.accepted t _ found _ _ _) u =
    λ e. none-ne-some t (sym gone ∙ found)

-- A token that is accepted is stored, has not expired, and belongs to the user.
accepted-stored :
    {hash : String} {now : Time} {before after : Accounts} {fails : Error → Type 0}
    {r : Result User} {u : User}
    → r ≡ ok u
    → UserOutcome fails hash now before after r
    → (t : UserToken) × (before.token hash ≡ some t)
      × (ltb_ℤ now t.expires_at ≡ true)
      × (before.user t.user_id ≡ some u)
accepted-stored e (UserOutcome.unknown _ _) = cc
accepted-stored e (UserOutcome.over _ _ _ _) = cc
accepted-stored e (UserOutcome.orphan _ _ _ _ _) = cc
accepted-stored e (UserOutcome.failed _ _ _) = cc
accepted-stored e (UserOutcome.accepted t v found in_time owner _) =
    (t, found, in_time, owner ∙ ap some (ground (arith, e)))

pub removed-gone :
    {hash : String} {before after : Accounts} {fails : Error → Type 0} {r : Result (Unit {0})}
    → r ≡ ok tt
    → LogoutOutcome fails hash before after r
    → after.token hash ≡ none
removed-gone e (LogoutOutcome.failed _ _ _) = cc
removed-gone {hash} e (LogoutOutcome.removed change) = rw (change, eq_refl hash)

module _ {W : Type 0} (s : AuthService W) (m : AccountModel) (at : W → Accounts)
    (laws : AuthLaws m at s) where
  -- Over any ports that keep their laws, once signing out with the hash of a token has
  -- succeeded, the token is accepted no more.
  pub revoke_user_token-ends_session :
      (raw : String) (w w' : W)
      → revoke_user_token s (hash_token s raw) w ≡ (ok tt, w')
      → (u : User) → (authenticate_user s raw w').0 ≢ ok u
  revoke_user_token-ends_session raw w w' h =
      let outcome = revoke_user_token-refines s m at laws (hash_token s raw) w in
      let gone = removed-gone (ap (λ (p : Result (Unit {0}) × W). p.0) h) outcome in
      unknown-refused (rw h at gone) (authenticate_user-refines s m at laws raw w')

  -- Over any ports that keep their laws, if a token is accepted for a user, then it is stored,
  -- it expires after the time that the clock says, and it belongs to the user, who is stored.
  pub authenticate_user_sound :
      (raw : String) (w : W) (u : User)
      → (authenticate_user s raw w).0 ≡ ok u
      → let now = (s.runtime.now (s.tokens.get_by_hash (hash_token s raw) w).1).0 in
        (t : UserToken) × ((at w).token (hash_token s raw) ≡ some t)
        × (ltb_ℤ now t.expires_at ≡ true)
        × ((at w).user t.user_id ≡ some u)
  authenticate_user_sound raw w u h =
      accepted-stored h (authenticate_user-refines s m at laws raw w)
