-- ===== src/Usecase/Auth/History/Revoked.antt =====
-- server/internal/core/usecase/auth.go: agents that are revoked.
use mathlib.Core.Option
use mathlib.Core.Option.{some-injective, none-ne-some}
use agent_events.Prelude.{
  List, [], ◌∷◌, subst, ℕ, String, ◌≡◌, ◌≢◌, sym, ap, ◌∙◌, inl, inr, true, false, Option, none,
  some, Bool-cases, Option-cases, arith, eq_iff, ◌==◌,
}
use agent_events.Prelude.Int.{ℤ}
use agent_events.Apperr.{Error}
use agent_events.Exec.{Result, ok}
use agent_events.Domain.{Agent, revoked}
use agent_events.Port.Accounts.{
  StoredAgent, Accounts, AccountModel, agent_of, change_agent, mark_used, mark_revoked,
}
use agent_events.Usecase.Auth.{AgentWithKey, AgentCredentials, AuthService, hash_token}
use agent_events.Usecase.Auth.AgentOutcome.{CredentialsOutcome, NewAgentOutcome, RevokeOutcome}
use agent_events.Usecase.Auth.History.Keeps.{agents_of, user-agents, logout-agents, exchange-agents}
use agent_events.Usecase.Auth.Laws.{AuthLaws}
use agent_events.Usecase.Auth.Agents.{authenticate_agent}
use agent_events.Usecase.Auth.UserRefines.{authenticate_user-refines, revoke_user_token-refines}
use agent_events.Usecase.Auth.ExchangeRefines.{exchange-refines}
use agent_events.Usecase.Auth.AgentRefines.{authenticate_agent-refines}
use agent_events.Usecase.Auth.AgentChanges.{
  create_agent-refines, revoke_agent-refines, list_agents-quiet,
}
use agent_events.Usecase.Auth.History.{
  Request, sign_in, use_token, sign_out, use_key, add_agent, show_agents, bar_agent, perform,
  replay,
}

-- The key of the hash belongs to an agent that is revoked.
abbrev OfAgents :
    String → (String → Option StoredAgent) × (String → Option StoredAgent) × (String → ℕ) → Type 0
OfAgents hash (agent, keyed, active) = Option.map revoked (agent_of (keyed hash)) ≡ some true

abbrev pub Barred : String → Accounts → Type 0
Barred hash a = OfAgents hash (agents_of a)

module _ (m : AccountModel) (before : Accounts) {after : Accounts} (hash : String) where
  -- A change of agents under which what is revoked stays revoked.
  change-Barred :
      (active : String → ℕ) (id : String) (f : StoredAgent → StoredAgent)
      → ((g : StoredAgent)
          → before.keyed hash ≡ some g
          → revoked g.agent ≡ true
          → revoked (f g).agent ≡ true)
      → after ≡ change_agent m active id f before
      → Barred hash before
      → Barred hash after
  change-Barred active id f stays change p = elim (Option-cases (before.keyed hash)) [
    | inl missing ↦ absurd (none-ne-some true (rw missing at p))
    | inr (g, found) ↦
        let barred : revoked g.agent ≡ true = some-injective _ _ (rw found at p) in
        rw (change, found)
          (elim (Bool-cases (m.names id g.agent.id)) [
            | inl named ↦ rw named (ap some (stays g found barred))
            | inr other ↦ rw other (ap some barred)
          ])
  ]

  pub credentials-Barred :
      {key_hash : String} {fails : Error → Type 0} {untouched : Agent → Type 0}
      {r : Result AgentCredentials}
      → CredentialsOutcome fails untouched m key_hash before after r
      → Barred hash before
      → Barred hash after
  credentials-Barred (CredentialsOutcome.unknown _ quiet) p = rw quiet p
  credentials-Barred (CredentialsOutcome.barred _ _ _ quiet) p = rw quiet p
  credentials-Barred (CredentialsOutcome.orphan _ _ _ _ quiet) p = rw quiet p
  credentials-Barred (CredentialsOutcome.failed _ _ quiet) p = rw quiet p
  credentials-Barred (CredentialsOutcome.used _ _ _ _ _ _ _ (inl (_, quiet))) p = rw quiet p
  credentials-Barred (CredentialsOutcome.used g _ now _ _ _ _ (inr change)) p =
      change-Barred before.active g.id (mark_used m now) (λ g found over. over) change p
  credentials-Barred (CredentialsOutcome.used_lately _ _ _ _ _ _ _ quiet) p = rw quiet p

  pub new_agent-Barred :
      {hash_of : String → String} {max : ℤ} {user_id name : String} {fails : Error → Type 0}
      {r : Result AgentWithKey}
      → NewAgentOutcome fails m hash_of max user_id name before after r
      → Barred hash before
      → Barred hash after
  new_agent-Barred (NewAgentOutcome.blank_name _ quiet) p = rw quiet p
  new_agent-Barred (NewAgentOutcome.failed _ _ quiet) p = rw quiet p
  new_agent-Barred (NewAgentOutcome.full _ quiet) p = rw quiet p
  new_agent-Barred {hash_of} (NewAgentOutcome.created _ key _ _ _ _ key_free change) p =
      elim (Bool-cases (hash == hash_of key)) [
        | inl same ↦
            let taken : before.keyed hash ≡ none =
              ap before.keyed ((eq_iff hash (hash_of key)).0 same) ∙ key_free in
            absurd (none-ne-some true (rw taken at p))
        | inr other ↦ rw (change, other) p
      ]

  pub revoke-Barred :
      {user_id agent_id : String} {fails : Error → Type 0} {r : Result (Unit {0})}
      → ((g : StoredAgent) → before.keyed hash ≡ some g → g.active ≡ true → revoked g.agent ≡ false)
      → RevokeOutcome fails m user_id agent_id before after r
      → Barred hash before
      → Barred hash after
  revoke-Barred sound (RevokeOutcome.missing _ quiet) p = rw quiet p
  revoke-Barred sound (RevokeOutcome.denied _ _ _ quiet) p = rw quiet p
  revoke-Barred sound (RevokeOutcome.failed _ _ quiet) p = rw quiet p
  revoke-Barred sound (RevokeOutcome.revoked_before _ _ _ _ quiet) p = rw quiet p
  revoke-Barred {agent_id = agent_id} sound (RevokeOutcome.revoked_now _ now _ _ _ change _) p =
      change-Barred after.active agent_id (mark_revoked m now)
        (λ g found over. elim (Bool-cases g.active) [
          | inl active ↦ absurd (ground (arith, over, sound g found active))
          | inr inactive ↦ rw inactive over
        ])
        change p

  pub Barred-refused :
      {fails : Error → Type 0} {untouched : Agent → Type 0} {r : Result AgentCredentials}
      → Barred hash before
      → CredentialsOutcome fails untouched m hash before after r
      → (c : AgentCredentials) → r ≢ ok c
  Barred-refused p (CredentialsOutcome.unknown _ _) c = λ e. cc
  Barred-refused p (CredentialsOutcome.barred _ _ _ _) c = λ e. cc
  Barred-refused p (CredentialsOutcome.orphan _ _ _ _ _) c = λ e. cc
  Barred-refused p (CredentialsOutcome.failed _ _ _) c = λ e. cc
  Barred-refused p (CredentialsOutcome.used g _ _ keyed usable _ _ _) c =
      λ e. ground (arith, p, keyed, usable)
  Barred-refused p (CredentialsOutcome.used_lately g _ _ keyed usable _ _ _) c =
      λ e. ground (arith, p, keyed, usable)

module _ {W : Type 0} (s : AuthService W) (m : AccountModel) (at : W → Accounts)
    (laws : AuthLaws m at s) where
  pub perform-Barred :
      (hash : String) (request : Request) (w : W)
      → Barred hash (at w)
      → Barred hash (at (perform s request w))
  unfolding perform
  perform-Barred hash (sign_in input) w p =
      subst (OfAgents hash) (sym (exchange-agents (exchange-refines s m at laws input w))) p
  perform-Barred hash (use_token raw) w p =
      subst (OfAgents hash) (sym (user-agents (authenticate_user-refines s m at laws raw w))) p
  perform-Barred hash (sign_out token_hash) w p =
      subst (OfAgents hash)
        (sym (logout-agents (revoke_user_token-refines s m at laws token_hash w))) p
  perform-Barred hash (use_key raw) w p =
      credentials-Barred m (at w) hash (authenticate_agent-refines s m at laws raw w) p
  perform-Barred hash (add_agent user_id name) w p =
      new_agent-Barred m (at w) hash (create_agent-refines s m at laws user_id name w) p
  perform-Barred hash (show_agents user_id) w p = rw (list_agents-quiet s m at laws user_id w) p
  perform-Barred hash (bar_agent user_id agent_id) w p =
      revoke-Barred m (at w) hash (laws.agents.active_keyed hash w)
        (revoke_agent-refines s m at laws user_id agent_id w) p

  replay-Barred :
      (hash : String) (history : List Request) (w : W)
      → Barred hash (at w)
      → Barred hash (at (replay s history w))
  unfolding replay
  replay-Barred hash [] w p = p
  replay-Barred hash (request ∷ history) w p =
      replay-Barred hash history (perform s request w) (perform-Barred hash request w p)

  -- Over any ports that keep their laws, the key of a revoked agent is refused after any
  -- history of calls of the account service, whether they succeed or fail.
  pub replay-refuses_revoked :
      (raw : String) (history : List Request) (w : W)
      → Barred (hash_token s raw) (at w)
      → (c : AgentCredentials) → (authenticate_agent s raw (replay s history w)).0 ≢ ok c
  replay-refuses_revoked raw history w p =
      Barred-refused m (at (replay s history w)) (hash_token s raw)
        (replay-Barred (hash_token s raw) history w p)
        (authenticate_agent-refines s m at laws raw (replay s history w))
