-- ===== src/Usecase/Auth/History/Spares.antt =====
-- server/internal/core/usecase/auth.go: who may revoke an agent.
use mathlib.Core.Option
use mathlib.Core.Option.{some-injective, none-ne-some}
use agent_events.Prelude.{
  All, List, [], ◌∷◌, subst, ℕ, String, ◌≡◌, ◌≢◌, refl, sym, ap, ◌∙◌, inl, inr, Bool, true, false,
  Option, none, some, Bool-cases, Option-cases,
}
use agent_events.Prelude.Int.{ℤ}
use agent_events.Apperr.{Error}
use agent_events.Exec.{Result}
use agent_events.Domain.{Agent, revoked}
use agent_events.Port.Accounts.{
  StoredAgent, Accounts, AccountModel, agent_of, change_agent, mark_used, mark_revoked,
}
use agent_events.Usecase.Auth.{AgentWithKey, AgentCredentials, AuthService}
use agent_events.Usecase.Auth.AgentOutcome.{CredentialsOutcome, NewAgentOutcome, RevokeOutcome}
use agent_events.Usecase.Auth.History.Keeps.{agents_of, user-agents, logout-agents, exchange-agents}
use agent_events.Usecase.Auth.Laws.{AuthLaws}
use agent_events.Usecase.Auth.UserRefines.{authenticate_user-refines, revoke_user_token-refines}
use agent_events.Usecase.Auth.ExchangeRefines.{exchange-refines}
use agent_events.Usecase.Auth.AgentRefines.{authenticate_agent-refines}
use agent_events.Usecase.Auth.AgentChanges.{
  create_agent-refines, revoke_agent-refines, list_agents-quiet,
}
use agent_events.Usecase.Auth.History.{
  Request, sign_in, use_token, sign_out, use_key, add_agent, show_agents, bar_agent, perform,
  replay,
}

-- Who owns an agent, and whether it is revoked.
abbrev status : Agent → String × Bool
status g = (g.user_id, revoked g)

-- An agent of the id is stored, it belongs to the owner, and it is not revoked.
abbrev OfAgents :
    (id owner : String)
    → (String → Option StoredAgent) × (String → Option StoredAgent) × (String → ℕ)
    → Type 0
OfAgents id owner (agent, keyed, active) =
    Option.map status (agent_of (agent id)) ≡ some (owner, false)

abbrev pub Usable : (id owner : String) → Accounts → Type 0
Usable id owner a = OfAgents id owner (agents_of a)

module _ (m : AccountModel) (before : Accounts) {after : Accounts} (id owner : String) where
  -- A change of other agents, or one that keeps owners and revocations.
  change-Usable :
      (active : String → ℕ) (changed : String) (f : StoredAgent → StoredAgent)
      → (m.same id changed ≡ true
          → (g : StoredAgent) → before.agent id ≡ some g
          → status (f g).agent ≡ status g.agent)
      → after ≡ change_agent m active changed f before
      → Usable id owner before
      → Usable id owner after
  change-Usable active changed f keeps change p = elim (Bool-cases (m.same id changed)) [
    | inr other ↦ rw (change, other) p
    | inl same ↦ elim (Option-cases (before.agent id)) [
      | inl missing ↦ absurd (none-ne-some (owner, false) (rw missing at p))
      | inr (g, found) ↦
          let stored : status g.agent ≡ (owner, false) = some-injective _ _ (rw found at p) in
          rw (change, same, found) (ap some (keeps same g found ∙ stored))
    ]
  ]

  credentials-Usable :
      {key_hash : String} {fails : Error → Type 0} {untouched : Agent → Type 0}
      {r : Result AgentCredentials}
      → CredentialsOutcome fails untouched m key_hash before after r
      → Usable id owner before
      → Usable id owner after
  credentials-Usable (CredentialsOutcome.unknown _ quiet) p = rw quiet p
  credentials-Usable (CredentialsOutcome.barred _ _ _ quiet) p = rw quiet p
  credentials-Usable (CredentialsOutcome.orphan _ _ _ _ quiet) p = rw quiet p
  credentials-Usable (CredentialsOutcome.failed _ _ quiet) p = rw quiet p
  credentials-Usable (CredentialsOutcome.used _ _ _ _ _ _ _ (inl (_, quiet))) p = rw quiet p
  credentials-Usable (CredentialsOutcome.used g _ now _ _ _ _ (inr change)) p =
      change-Usable before.active g.id (mark_used m now) (λ same g found. refl) change p
  credentials-Usable (CredentialsOutcome.used_lately _ _ _ _ _ _ _ quiet) p = rw quiet p

  new_agent-Usable :
      {hash_of : String → String} {max : ℤ} {user_id name : String} {fails : Error → Type 0}
      {r : Result AgentWithKey}
      → ((i j : String) → m.same i j ≡ true → before.agent i ≡ before.agent j)
      → NewAgentOutcome fails m hash_of max user_id name before after r
      → Usable id owner before
      → Usable id owner after
  new_agent-Usable same (NewAgentOutcome.blank_name _ quiet) p = rw quiet p
  new_agent-Usable same (NewAgentOutcome.failed _ _ quiet) p = rw quiet p
  new_agent-Usable same (NewAgentOutcome.full _ quiet) p = rw quiet p
  new_agent-Usable same (NewAgentOutcome.created new _ _ _ _ free _ change) p =
      elim (Bool-cases (m.same id new)) [
        | inl named ↦
            let taken : before.agent id ≡ none = same id new named ∙ free in
            absurd (none-ne-some (owner, false) (rw taken at p))
        | inr other ↦ rw (change, other) p
      ]

  revoke-Usable :
      {user_id agent_id : String} {fails : Error → Type 0} {r : Result (Unit {0})}
      → ((i j : String) → m.same i j ≡ true → before.agent i ≡ before.agent j)
      → user_id ≢ owner
      → RevokeOutcome fails m user_id agent_id before after r
      → Usable id owner before
      → Usable id owner after
  revoke-Usable same other (RevokeOutcome.missing _ quiet) p = rw quiet p
  revoke-Usable same other (RevokeOutcome.denied _ _ _ quiet) p = rw quiet p
  revoke-Usable same other (RevokeOutcome.failed _ _ quiet) p = rw quiet p
  revoke-Usable same other (RevokeOutcome.revoked_before _ _ _ _ quiet) p = rw quiet p
  revoke-Usable {agent_id = agent_id} same other
        (RevokeOutcome.revoked_now g now found own _ change _) p =
      change-Usable after.active agent_id (mark_revoked m now)
        (λ named h stored.
          let owned : status g ≡ (owner, false) =
            some-injective _ _
              (sym (ap (Option.map status) (ap agent_of (same id agent_id named) ∙ found)) ∙ p) in
          absurd (other (sym own ∙ ap (λ x. x.0) owned)))
        change p

-- A user in whose name the call revokes an agent is as asked.
abbrev pub By : (String → Type 0) → Request → Type 0
By Q (bar_agent user_id agent_id) = Q user_id
By Q _ = Unit

-- The call does not revoke an agent in the name of the owner.
abbrev pub NotBy : String → Request → Type 0
NotBy owner = By λ user_id. user_id ≢ owner

module _ {W : Type 0} (s : AuthService W) (m : AccountModel) (at : W → Accounts)
    (laws : AuthLaws m at s) where
  pub perform-Usable :
      (id owner : String) (request : Request) (w : W)
      → NotBy owner request
      → Usable id owner (at w)
      → Usable id owner (at (perform s request w))
  unfolding perform
  perform-Usable id owner (sign_in input) w other p =
      subst (OfAgents id owner) (sym (exchange-agents (exchange-refines s m at laws input w))) p
  perform-Usable id owner (use_token raw) w other p =
      subst (OfAgents id owner) (sym (user-agents (authenticate_user-refines s m at laws raw w))) p
  perform-Usable id owner (sign_out token_hash) w other p =
      subst (OfAgents id owner)
        (sym (logout-agents (revoke_user_token-refines s m at laws token_hash w))) p
  perform-Usable id owner (use_key raw) w other p =
      credentials-Usable m (at w) id owner (authenticate_agent-refines s m at laws raw w) p
  perform-Usable id owner (add_agent user_id name) w other p =
      new_agent-Usable m (at w) id owner (λ i j. laws.agents.at_same i j w)
        (create_agent-refines s m at laws user_id name w) p
  perform-Usable id owner (show_agents user_id) w other p =
      rw (list_agents-quiet s m at laws user_id w) p
  perform-Usable id owner (bar_agent user_id agent_id) w other p =
      revoke-Usable m (at w) id owner (λ i j. laws.agents.at_same i j w) other
        (revoke_agent-refines s m at laws user_id agent_id w) p

  -- Over any ports that keep their laws, an agent that is stored and not revoked still is, and
  -- still has its owner, after any history of calls in which the owner revokes no agent.
  pub replay-spares_others :
      (id owner : String) (history : List Request) (w : W)
      → All (NotBy owner) history
      → Usable id owner (at w)
      → Usable id owner (at (replay s history w))
  unfolding replay
  replay-spares_others id owner [] w others p = p
  replay-spares_others id owner (request ∷ history) w (other, others) p =
      replay-spares_others id owner history (perform s request w) others
        (perform-Usable id owner request w other p)
