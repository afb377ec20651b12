-- ===== src/Postgres/UserFrames.antt =====
-- server/internal/adapters/postgres: the methods of repositories that leave the table of users alone.
use agent_events.Prelude.{String, ◌≡◌, refl, inl, inr, arith, Bool-cases}
use agent_events.Prelude.Int.{ℤ}
use agent_events.Time.{Time}
use agent_events.Exec.{run-cases, err}
use agent_events.Apperr.{Error}
use agent_events.Domain.{Agent, UserToken}
use agent_events.World.{World}
use agent_events.Postgres.Schema.{Engine}
use agent_events.Postgres.Users.{
  upsert_by_identity, get_user, create_token, get_by_hash, delete_by_hash, delete_expired,
}
use agent_events.Postgres.Agents.{
  create_if_under_limit, attempt, get_agent, get_by_key_hash, list_by_user, revoke, touch_last_used,
}

module _ (pg : Engine) (w : World) where
  pub get_user-users : (i : String) → (get_user pg i w).1.db.users ≡ w.db.users
  unfolding get_user
  get_user-users i = ground arith

  pub create_token-users : (t : UserToken) → (create_token pg t w).1.db.users ≡ w.db.users
  unfolding create_token
  create_token-users t = ground arith

  pub get_by_hash-users : (h : String) → (get_by_hash pg h w).1.db.users ≡ w.db.users
  unfolding get_by_hash
  get_by_hash-users h = ground arith

  pub delete_by_hash-users : (h : String) → (delete_by_hash pg h w).1.db.users ≡ w.db.users
  unfolding delete_by_hash
  delete_by_hash-users h = ground arith

  pub delete_expired-users : (delete_expired pg w).1.db.users ≡ w.db.users
  unfolding delete_expired
  delete_expired-users = ground arith

  attempt-users : (g : Agent) (max : ℤ) → (attempt pg g max w).1.db.users ≡ w.db.users
  unfolding attempt
  attempt-users g max = ground arith

  pub create_if_under_limit-users :
      (g : Agent) (max : ℤ) → (create_if_under_limit pg g max w).1.db.users ≡ w.db.users
  unfolding create_if_under_limit
  create_if_under_limit-users g max =
      let inside = attempt-users g max in
      elim (run-cases (attempt pg g max w)) [
        | inr (e, w', h) ↦ rw h refl
        | inl (created, w', h) ↦ elim (Bool-cases created) [
          | inl yes_ ↦ rw (h, yes_) (rw h at inside)
          | inr no_ ↦ rw (h, no_) refl
        ]
      ]

  pub get_agent-users : (i : String) → (get_agent pg i w).1.db.users ≡ w.db.users
  unfolding get_agent
  get_agent-users i = ground arith

  pub get_by_key_hash-users : (k : String) → (get_by_key_hash pg k w).1.db.users ≡ w.db.users
  unfolding get_by_key_hash
  get_by_key_hash-users k = ground arith

  pub list_by_user-users : (i : String) → (list_by_user pg i w).1.db.users ≡ w.db.users
  unfolding list_by_user
  list_by_user-users i = ground arith

  pub revoke-users : (i : String) (t : Time) → (revoke pg i t w).1.db.users ≡ w.db.users
  unfolding revoke
  revoke-users i t = ground arith

  pub touch_last_used-users :
      (i : String) (t : Time) → (touch_last_used pg i t w).1.db.users ≡ w.db.users
  unfolding touch_last_used
  touch_last_used-users i t = ground arith

  -- A sign-in that fails, too.
  pub upsert-failed_users :
      (p s e : String) (x : Error) (w' : World)
      → upsert_by_identity pg p s e w ≡ (err x, w')
      → w'.db.users ≡ w.db.users
  unfolding upsert_by_identity
  upsert-failed_users p s e x w' h = ground arith
