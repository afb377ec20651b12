-- ===== src/Server/Frames.antt =====
-- server/cmd/api/main.go: the tables that the services leave alone.
use agent_events.Prelude.{String, ℕ, ◌≡◌, sym, ap, subst, List}
use agent_events.Exec.{App}
use agent_events.Exec.Keeps.{Keeps, end-Keeps}
use agent_events.Port.{IdentityVerifier}
use agent_events.Memory.{Limits}
use agent_events.World.{World, db-allow_in, db-random_read}
use agent_events.Postgres.Schema.{Db, Engine, EventRow, AgentRow, UserRow, UserTokenRow}
use agent_events.Postgres.Frames.{
  account_tables, upsert_by_identity-events, get_user-events, create_token-events,
  get_by_hash-events, delete_by_hash-events, create_if_under_limit-events, get_agent-events,
  get_by_key_hash-events, list_by_user-events, revoke-events, touch_last_used-events,
  save-account_tables, get-account_tables, list-account_tables, update-account_tables,
  delete-account_tables,
}
use agent_events.Usecase.Auth.{AuthConfig}
use agent_events.Usecase.Auth.Keeps as AuthKeeps
use agent_events.Usecase.Event.Keeps as EventKeeps
use agent_events.Server.{event_service, auth_service}

module _ {X : Type 0} (view : Db → X) (R : X → Type 0) where
  -- A method that leaves the view keeps what is said of it.
  leaves :
      {A : Type 0} {m : App World A}
      → ((w : World) → view (m w).1.db ≡ view w.db)
      → Keeps (λ w. R (view w.db)) m
  leaves same = end-Keeps λ w p. subst R (sym (same w)) p

module _ (pg : Engine) (limits : Limits) where
  -- The ports of the account service leave the table of events.
  pub auth_service-PortsKeep :
      (config : AuthConfig) (verifier : IdentityVerifier World) (sha256 : String → List ℕ)
      → ((provider raw : String) (w : World) → (verifier.verify provider raw w).1.db ≡ w.db)
      → (R : List EventRow → Type 0)
      → AuthKeeps.PortsKeep (λ w. R w.db.events) (auth_service pg limits config verifier sha256)
  auth_service-PortsKeep config verifier sha256 quiet R = record {
    verify = λ p raw. leaves events R λ w. ap events (quiet p raw w);
    upsert_by_identity = λ p s e. leaves events R λ w. upsert_by_identity-events pg w p s e;
    get_user = λ i. leaves events R λ w. get_user-events pg w i;
    create_token = λ t. leaves events R λ w. create_token-events pg w t;
    get_by_hash = λ h. leaves events R λ w. get_by_hash-events pg w h;
    delete_by_hash = λ h. leaves events R λ w. delete_by_hash-events pg w h;
    create_if_under_limit = λ g max. leaves events R λ w. create_if_under_limit-events pg w g max;
    get_agent = λ i. leaves events R λ w. get_agent-events pg w i;
    get_by_key_hash = λ k. leaves events R λ w. get_by_key_hash-events pg w k;
    list_by_user = λ i. leaves events R λ w. list_by_user-events pg w i;
    revoke = λ i t. leaves events R λ w. revoke-events pg w i t;
    touch_last_used = λ i t. leaves events R λ w. touch_last_used-events pg w i t;
    allow = λ k a. leaves events R λ w. ap events (db-allow_in limits k a w);
    log = λ l msg fs w p. p;
    now = end-Keeps λ w p. p;
    new_uuid = end-Keeps λ w p. p;
    random_bytes = leaves events R λ w. ap events (db-random_read (w.random 0) w);
  }
    where
      events : Db → List EventRow
      events db = db.events

  -- The ports of the event service leave the tables of accounts.
  pub event_service-PortsKeep :
      (R : List UserRow × List AgentRow × List UserTokenRow → Type 0)
      → EventKeeps.PortsKeep (λ w. R (account_tables w.db)) (event_service pg limits)
  event_service-PortsKeep R = record {
    save = λ e. leaves account_tables R λ w. save-account_tables pg w e;
    get = λ i. leaves account_tables R λ w. get-account_tables pg w i;
    list = leaves account_tables R λ w. list-account_tables pg w;
    update = λ e. leaves account_tables R λ w. update-account_tables pg w e;
    delete = λ i. leaves account_tables R λ w. delete-account_tables pg w i;
    allow = λ k a. leaves account_tables R λ w. ap account_tables (db-allow_in limits k a w);
    log = λ l msg fs w p. p;
    now = end-Keeps λ w p. p;
    new_uuid = end-Keeps λ w p. p;
  }
