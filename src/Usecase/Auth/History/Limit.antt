-- ===== src/Usecase/Auth/History/Limit.antt =====
-- server/internal/core/usecase/auth.go: the limit on the agents of a user.

use agent_events.Prelude.{
  List, [], ◌∷◌, subst, ℕ, ◌≤◌, ◌+◌, String, ◌≡◌, sym, inl, inr, true, false, Option, Bool-cases,
  arith,
}
use agent_events.Prelude.Int.{ℤ, pos, leb_ℤ}
use agent_events.Apperr.{Error}
use agent_events.Domain.{Agent}
use agent_events.Exec.{Result}
use agent_events.Port.Accounts.{StoredAgent, Accounts, AccountModel}
use agent_events.Usecase.Auth.{AgentWithKey, AgentCredentials, AuthService}
use agent_events.Usecase.Auth.AgentOutcome.{CredentialsOutcome, NewAgentOutcome, RevokeOutcome}
use agent_events.Usecase.Auth.History.Keeps.{agents_of, user-agents, logout-agents, exchange-agents}
use agent_events.Usecase.Auth.Laws.{AuthLaws}
use agent_events.Usecase.Auth.UserRefines.{authenticate_user-refines, revoke_user_token-refines}
use agent_events.Usecase.Auth.ExchangeRefines.{exchange-refines}
use agent_events.Usecase.Auth.AgentRefines.{authenticate_agent-refines}
use agent_events.Usecase.Auth.AgentChanges.{
  create_agent-refines, revoke_agent-refines, list_agents-quiet,
}
use agent_events.Usecase.Auth.History.{
  Request, sign_in, use_token, sign_out, use_key, add_agent, show_agents, bar_agent, perform,
  replay,
}

-- No user has more active agents than `max`.
abbrev OfAgents :
    ℤ → (String → Option StoredAgent) × (String → Option StoredAgent) × (String → ℕ) → Type 0
OfAgents max (agent, keyed, active) = (u : String) → leb_ℤ (pos (active u)) max ≡ true

abbrev pub Limited : ℤ → Accounts → Type 0
Limited max a = OfAgents max (agents_of a)

one_more : (n : ℕ) (max : ℤ) → leb_ℤ max (pos n) ≡ false → leb_ℤ (pos (n + 1)) max ≡ true
one_more n max h = ground arith

fewer_fits : (n n' : ℕ) (max : ℤ) → n' ≤ n → leb_ℤ (pos n) max ≡ true → leb_ℤ (pos n') max ≡ true
fewer_fits n n' max le h = ground arith

module _ (m : AccountModel) {before after : Accounts} where
  pub credentials-Limited :
      (max : ℤ) {hash : String} {fails : Error → Type 0} {untouched : Agent → Type 0}
      {r : Result AgentCredentials}
      → CredentialsOutcome fails untouched m hash before after r
      → Limited max before
      → Limited max after
  credentials-Limited max (CredentialsOutcome.unknown _ quiet) p = rw quiet p
  credentials-Limited max (CredentialsOutcome.barred _ _ _ quiet) p = rw quiet p
  credentials-Limited max (CredentialsOutcome.orphan _ _ _ _ quiet) p = rw quiet p
  credentials-Limited max (CredentialsOutcome.failed _ _ quiet) p = rw quiet p
  credentials-Limited max (CredentialsOutcome.used _ _ _ _ _ _ _ (inl (_, quiet))) p = rw quiet p
  credentials-Limited max (CredentialsOutcome.used _ _ _ _ _ _ _ (inr change)) p = rw change p
  credentials-Limited max (CredentialsOutcome.used_lately _ _ _ _ _ _ _ quiet) p = rw quiet p

  pub new_agent-Limited :
      {hash : String → String} {max : ℤ} {user_id name : String} {fails : Error → Type 0}
      {r : Result AgentWithKey}
      → ((i j : String) → m.same i j ≡ true → before.active i ≡ before.active j)
      → NewAgentOutcome fails m hash max user_id name before after r
      → Limited max before
      → Limited max after
  new_agent-Limited same (NewAgentOutcome.blank_name _ quiet) p = rw quiet p
  new_agent-Limited same (NewAgentOutcome.failed _ _ quiet) p = rw quiet p
  new_agent-Limited same (NewAgentOutcome.full _ quiet) p = rw quiet p
  new_agent-Limited {max = max} {user_id} same (NewAgentOutcome.created _ _ _ _ room _ _ change) p =
      λ u. rw change (elim (Bool-cases (m.same u user_id)) [
        | inl own ↦ rw (own, same u user_id own) (one_more (before.active user_id) max room)
        | inr other ↦ rw other (p u)
      ])

  pub revoke-Limited :
      (max : ℤ) {user_id agent_id : String} {fails : Error → Type 0} {r : Result (Unit {0})}
      → RevokeOutcome fails m user_id agent_id before after r
      → Limited max before
      → Limited max after
  revoke-Limited max (RevokeOutcome.missing _ quiet) p = rw quiet p
  revoke-Limited max (RevokeOutcome.denied _ _ _ quiet) p = rw quiet p
  revoke-Limited max (RevokeOutcome.failed _ _ quiet) p = rw quiet p
  revoke-Limited max (RevokeOutcome.revoked_before _ _ _ _ quiet) p = rw quiet p
  revoke-Limited max (RevokeOutcome.revoked_now _ _ _ _ _ _ fewer) p =
      λ u. fewer_fits (before.active u) (after.active u) max (fewer u) (p u)

module _ {W : Type 0} (s : AuthService W) (m : AccountModel) (at : W → Accounts)
    (laws : AuthLaws m at s) where
  pub perform-Limited :
      (request : Request) (w : W)
      → Limited s.config.max_agents_per_user (at w)
      → Limited s.config.max_agents_per_user (at (perform s request w))
  unfolding perform
  perform-Limited (sign_in input) w p =
      subst (OfAgents s.config.max_agents_per_user)
        (sym (exchange-agents (exchange-refines s m at laws input w))) p
  perform-Limited (use_token raw) w p =
      subst (OfAgents s.config.max_agents_per_user)
        (sym (user-agents (authenticate_user-refines s m at laws raw w))) p
  perform-Limited (sign_out token_hash) w p =
      subst (OfAgents s.config.max_agents_per_user)
        (sym (logout-agents (revoke_user_token-refines s m at laws token_hash w))) p
  perform-Limited (use_key raw) w p =
      credentials-Limited m _ (authenticate_agent-refines s m at laws raw w) p
  perform-Limited (add_agent user_id name) w p =
      new_agent-Limited m (λ i j. laws.agents.active_same i j w)
        (create_agent-refines s m at laws user_id name w) p
  perform-Limited (show_agents user_id) w p = rw (list_agents-quiet s m at laws user_id w) p
  perform-Limited (bar_agent user_id agent_id) w p =
      revoke-Limited m _ (revoke_agent-refines s m at laws user_id agent_id w) p

  -- Over any ports that keep their laws, if no user has more active agents than the configured
  -- limit, then none has after any history of calls, whether they succeed or fail.
  pub replay-Limited :
      (history : List Request) (w : W)
      → Limited s.config.max_agents_per_user (at w)
      → (u : String)
      → leb_ℤ (pos ((at (replay s history w)).active u)) s.config.max_agents_per_user ≡ true
  unfolding replay
  replay-Limited [] w p u = p u
  replay-Limited (request ∷ history) w p u =
      replay-Limited history (perform s request w) (perform-Limited request w p) u
