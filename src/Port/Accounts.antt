-- ===== src/Port/Accounts.antt =====
-- What the account service relies on of the implementations of its ports.
use mathlib.Core.Option
use agent_events.Prelude.{
  ℕ, ◌+◌, ◌≤◌, String, ◌≡◌, Bool, true, false, Option, none, some, ◌==◌, if◌then◌else◌,
}
use agent_events.Prelude.Int.{ℤ, pos, leb_ℤ}
use agent_events.Time.{Time, zero_time, is_zero}
use agent_events.Apperr.{Error, user_not_found, user_token_not_found, agent_not_found, is}
use agent_events.Exec.{ok, err}
use agent_events.Domain.{Agent, User, UserToken, revoked}
use agent_events.Port.{UserRepository, UserTokenRepository, AgentRepository}

-- An agent that is stored, and whether the store counts it as not revoked.
pub record StoredAgent : Type 0 where
  pub agent : Agent
  pub active : Bool

abbrev pub agent_of : Option StoredAgent → Option Agent
agent_of o = Option.map (λ stored. stored.agent) o

-- The accounts that a store holds, seen from outside: the token of a hash, the user of an id, the
-- agent of an id and of the hash of a key, and how many active agents a user has.
pub record Accounts : Type 0 where
  pub token : String → Option UserToken
  pub user : String → Option User
  pub agent : String → Option StoredAgent
  pub keyed : String → Option StoredAgent
  pub active : String → ℕ

-- The form in which a store gives back what was written, when two texts spell one id, and when a
-- text spells an id that is stored.
pub record AccountModel : Type 0 where
  pub stored_token : UserToken → UserToken
  pub stored_agent : Agent → Agent
  pub stored_time : Time → Time
  pub same : String → String → Bool
  pub names : (text stored : String) → Bool

-- The accounts after a token was written, and after the token of a hash was removed.
abbrev pub put_token : AccountModel → UserToken → Accounts → Accounts
put_token m t a = record a {
  token = λ h. if h == t.token_hash then some (m.stored_token t) else a.token h;
}

abbrev pub drop_token : String → Accounts → Accounts
drop_token hash a = record a { token = λ h. if h == hash then none else a.token h }

-- The accounts after an agent that is not revoked was written.
abbrev pub put_agent : AccountModel → Agent → Accounts → Accounts
put_agent m g a =
    let stored : StoredAgent = record { agent = m.stored_agent g; active = true } in
    record a {
      agent = λ i. if m.same i g.id then some stored else a.agent i;
      keyed = λ k. if k == g.key_hash then some stored else a.keyed k;
      active = λ u. if m.same u g.user_id then a.active u + 1 else a.active u;
    }

-- `f` on the agent of an id, wherever it is seen.
abbrev pub change_agent :
    AccountModel → (String → ℕ) → String → (StoredAgent → StoredAgent) → Accounts → Accounts
change_agent m active id f a = record a {
  agent = λ i. if m.same i id then Option.map f (a.agent i) else a.agent i;
  keyed = λ k. Option.map (λ g. if m.names id g.agent.id then f g else g) (a.keyed k);
  active = active;
}

-- An agent that is revoked at a time keeps the time of its first revocation.
abbrev pub mark_revoked : AccountModel → Time → StoredAgent → StoredAgent
mark_revoked m t g =
    if g.active
    then record { agent = record g.agent { revoked_at = m.stored_time t }; active = is_zero t }
    else g

abbrev pub mark_used : AccountModel → Time → StoredAgent → StoredAgent
mark_used m t g = record g { agent = record g.agent { last_used_at = m.stored_time t } }

pub record UserRepositoryLaws {W : Type 0} (at : W → Accounts) (repo : UserRepository W)
    : Type 0 where
  pub get_ok :
      (i : String) (w w' : W) (u : User)
      → repo.get i w ≡ (ok u, w')
      → (at w' ≡ at w) × ((at w).user i ≡ some u)
  pub get_err :
      (i : String) (w w' : W) (x : Error)
      → repo.get i w ≡ (err x, w')
      → (at w' ≡ at w) × (is x user_not_found ≡ true → (at w).user i ≡ none)
  -- Signing in changes users only, and removes none.
  pub upsert_ok :
      (provider subject email : String) (w w' : W) (u : User)
      → repo.upsert_by_identity provider subject email w ≡ (ok u, w')
      → (u.provider ≡ provider)
        × (u.subject ≡ subject)
        × (u.email ≡ email)
        × (at w' ≡ record (at w) { user = (at w').user })
        × ((i : String) → (at w').user i ≡ none → (at w).user i ≡ none)
  pub upsert_err :
      (provider subject email : String) (w w' : W) (x : Error)
      → repo.upsert_by_identity provider subject email w ≡ (err x, w')
      → at w' ≡ at w

pub record UserTokenRepositoryLaws {W : Type 0} (m : AccountModel) (at : W → Accounts)
    (repo : UserTokenRepository W) : Type 0 where
  pub create_ok :
      (t : UserToken) (w w' : W)
      → repo.create t w ≡ (ok tt, w')
      → ((at w).token t.token_hash ≡ none) × (at w' ≡ put_token m t (at w))
  pub create_err :
      (t : UserToken) (w w' : W) (x : Error) → repo.create t w ≡ (err x, w') → at w' ≡ at w
  pub get_ok :
      (h : String) (w w' : W) (t : UserToken)
      → repo.get_by_hash h w ≡ (ok t, w')
      → (at w' ≡ at w) × ((at w).token h ≡ some t)
  pub get_err :
      (h : String) (w w' : W) (x : Error)
      → repo.get_by_hash h w ≡ (err x, w')
      → (at w' ≡ at w) × (is x user_token_not_found ≡ true → (at w).token h ≡ none)
  pub delete_ok :
      (h : String) (w w' : W) → repo.delete_by_hash h w ≡ (ok tt, w') → at w' ≡ drop_token h (at w)
  pub delete_err :
      (h : String) (w w' : W) (x : Error) → repo.delete_by_hash h w ≡ (err x, w') → at w' ≡ at w

pub record AgentRepositoryLaws {W : Type 0} (m : AccountModel) (at : W → Accounts)
    (repo : AgentRepository W) : Type 0 where
  -- Two spellings of one id name one agent, and count the agents of one user.
  pub at_same : (i j : String) (w : W) → m.same i j ≡ true → (at w).agent i ≡ (at w).agent j
  pub active_same : (i j : String) (w : W) → m.same i j ≡ true → (at w).active i ≡ (at w).active j
  -- What the store counts as active is not revoked.
  pub active_agent :
      (i : String) (w : W) (g : StoredAgent)
      → (at w).agent i ≡ some g
      → g.active ≡ true
      → revoked g.agent ≡ false
  pub active_keyed :
      (k : String) (w : W) (g : StoredAgent)
      → (at w).keyed k ≡ some g
      → g.active ≡ true
      → revoked g.agent ≡ false
  pub create_ok :
      (g : Agent) (max : ℤ) (w w' : W)
      → g.revoked_at ≡ zero_time
      → repo.create_if_under_limit g max w ≡ (ok true, w')
      → (leb_ℤ max (pos ((at w).active g.user_id)) ≡ false)
        × ((at w).agent g.id ≡ none)
        × ((at w).keyed g.key_hash ≡ none)
        × (at w' ≡ put_agent m g (at w))
  pub create_full :
      (g : Agent) (max : ℤ) (w w' : W)
      → repo.create_if_under_limit g max w ≡ (ok false, w')
      → (leb_ℤ max (pos ((at w).active g.user_id)) ≡ true) × (at w' ≡ at w)
  pub create_err :
      (g : Agent) (max : ℤ) (w w' : W) (x : Error)
      → repo.create_if_under_limit g max w ≡ (err x, w')
      → at w' ≡ at w
  pub get_ok :
      (i : String) (w w' : W) (g : Agent)
      → repo.get i w ≡ (ok g, w')
      → (at w' ≡ at w) × (agent_of ((at w).agent i) ≡ some g)
  pub get_err :
      (i : String) (w w' : W) (x : Error)
      → repo.get i w ≡ (err x, w')
      → (at w' ≡ at w) × (is x agent_not_found ≡ true → (at w).agent i ≡ none)
  pub get_by_key_ok :
      (k : String) (w w' : W) (g : Agent)
      → repo.get_by_key_hash k w ≡ (ok g, w')
      → (at w' ≡ at w) × (agent_of ((at w).keyed k) ≡ some g)
  pub get_by_key_err :
      (k : String) (w w' : W) (x : Error)
      → repo.get_by_key_hash k w ≡ (err x, w')
      → (at w' ≡ at w) × (is x agent_not_found ≡ true → (at w).keyed k ≡ none)
  pub list_quiet : (u : String) (w : W) → at (repo.list_by_user u w).1 ≡ at w
  pub revoke_ok :
      (i : String) (t : Time) (w w' : W)
      → repo.revoke i t w ≡ (ok tt, w')
      → (at w' ≡ change_agent m (at w').active i (mark_revoked m t) (at w))
        × ((u : String) → (at w').active u ≤ (at w).active u)
  pub revoke_err :
      (i : String) (t : Time) (w w' : W) (x : Error)
      → repo.revoke i t w ≡ (err x, w')
      → at w' ≡ at w
  pub touch_ok :
      (i : String) (t : Time) (w w' : W)
      → repo.touch_last_used i t w ≡ (ok tt, w')
      → at w' ≡ change_agent m (at w).active i (mark_used m t) (at w)
  pub touch_err :
      (i : String) (t : Time) (w w' : W) (x : Error)
      → repo.touch_last_used i t w ≡ (err x, w')
      → at w' ≡ at w
