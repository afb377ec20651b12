-- ===== src/Postgres/Accounts/UserLaws.antt =====
-- server/internal/adapters/postgres/user_repository.go against the laws of its port.
use mathlib.Core.Option
use mathlib.Core.Option.{none-ne-some}
use agent_events.Prelude.{
  String, ◌≡◌, refl, sym, ap, ◌∙◌, [], ◌∷◌, ◌++◌, inl, inr, true, Option, none, some, List, arith,
  eq_iff, find?, map, Bool-cases, Option-cases, if◌then◌else◌,
}
use agent_events.Apperr.{Error, user_not_found, is}
use agent_events.Exec.{ok, err, run-cases}
use agent_events.Domain.{User}
use agent_events.Port.Accounts.{UserRepositoryLaws}
use agent_events.World.{World, rest}
use agent_events.Postgres.Table.{lookup-map, lookup-shorter, find?-holds}
use agent_events.Postgres.Schema.{UserRow, Engine, user_from_row, timestamptz}
use agent_events.Postgres.AccountQuery.{upsert_user_identity, same_identity, set_email}
use agent_events.Postgres.Users.{upsert_by_identity, get_user, user_repository}
use agent_events.Postgres.Accounts.{find_user, accounts_in, accounts_at}

none_of_map : {A B : Type 0} (f : A → B) (o : Option A) → Option.map f o ≡ none → o ≡ none
none_of_map f none h = refl
none_of_map f (some a) h = absurd (none-ne-some (f a) (sym h))

-- The users after a sign-in: one row has a new email, or one row is new.
abbrev pub with_email : UserRow → List UserRow → List UserRow
with_email row rows = map (λ r. if same_identity r row then set_email row r else r) rows

with_email-keeps :
    (row : UserRow) (rows : List UserRow) (o : Option String)
    → find_user (with_email row rows) o ≡ none
    → find_user rows o ≡ none
with_email-keeps row rows none h = refl
with_email-keeps row rows (some u) h =
    let change : UserRow → UserRow = λ r. if same_identity r row then set_email row r else r in
    let keeps : (r : UserRow) → (change r).id ≡ r.id =
      λ r. elim (Bool-cases (same_identity r row)) [ inl same ↦ rw same | inr other ↦ rw other ] in
    ap (Option.map user_from_row) (
      none_of_map change _ (
        sym (lookup-map (λ (r : UserRow). r.id) u change keeps rows)
        ∙ none_of_map user_from_row _ h))

insert-keeps :
    (row : UserRow) (rows : List UserRow) (o : Option String)
    → find_user (rows ++ row ∷ []) o ≡ none
    → find_user rows o ≡ none
insert-keeps row rows none h = refl
insert-keeps row rows (some u) h =
    ap (Option.map user_from_row)
      (lookup-shorter (λ (r : UserRow). r.id) u rows (row ∷ []) (none_of_map user_from_row _ h))

module _ (pg : Engine) where
  open pg use {uuid}

  get-ok :
      (i : String) (w w' : World) (u : User)
      → get_user pg i w ≡ (ok u, w')
      → (accounts_at pg w' ≡ accounts_at pg w) × ((accounts_at pg w).user i ≡ some u)
  unfolding get_user
  get-ok i w w' u h = ground arith

  get-err :
      (i : String) (w w' : World) (x : Error)
      → get_user pg i w ≡ (err x, w')
      → (accounts_at pg w' ≡ accounts_at pg w)
        × (is x user_not_found ≡ true → (accounts_at pg w).user i ≡ none)
  unfolding get_user is
  get-err i w w' x h = ground arith

  -- A sign-in of a user who is known, and of one who is not.
  pub upsert-known :
      (row found : UserRow) (w w' : World) (r : UserRow)
      → find? (λ r. same_identity r row) w.db.users ≡ some found
      → upsert_user_identity pg row w ≡ (ok r, w')
      → (r ≡ set_email row found) × (w'.db ≡ record w.db { users = with_email row w.db.users })
  unfolding upsert_user_identity
  upsert-known row found w w' r h k = ground arith

  pub upsert-new :
      (row : UserRow) (w w' : World) (r : UserRow)
      → find? (λ r. same_identity r row) w.db.users ≡ none
      → upsert_user_identity pg row w ≡ (ok r, w')
      → (r.provider ≡ row.provider)
        × (r.subject ≡ row.subject)
        × (r.email ≡ row.email)
        × (w'.db ≡ record w.db { users = w.db.users ++ r ∷ [] })
  unfolding upsert_user_identity
  upsert-new row w w' r h k = ground arith

  -- Both together.
  upsert-row :
      (row : UserRow) (w w' : World) (r : UserRow)
      → upsert_user_identity pg row w ≡ (ok r, w')
      → (r.provider ≡ row.provider)
        × (r.subject ≡ row.subject)
        × (r.email ≡ row.email)
        × (w'.db ≡ record w.db { users = w'.db.users })
        × ((o : Option String) → find_user w'.db.users o ≡ none → find_user w.db.users o ≡ none)
  unfolding same_identity
  upsert-row row w w' r k = elim (Option-cases (find? (λ r. same_identity r row) w.db.users)) [
    | inl new ↦
        let (p, s, e, after) = upsert-new row w w' r new k in
        (p, s, e, rw after, λ o gone. insert-keeps r w.db.users o (rw after at gone))
    | inr (found, known) ↦
        let (same, after) = upsert-known row found w w' r known k in
        let holds : same_identity found row ≡ true =
          find?-holds (λ r. same_identity r row) w.db.users found known in
        (
          rw same (
              ground (
                arith,
                holds,
                eq_iff found.provider row.provider,
                eq_iff found.subject row.subject,
              )),
          rw same (
              ground (
                arith,
                holds,
                eq_iff found.provider row.provider,
                eq_iff found.subject row.subject,
              )),
          rw same,
          rw after,
          λ o gone. with_email-keeps row w.db.users o (rw after at gone),
        )
  ]

  upsert-ok :
      (provider subject email : String) (w w' : World) (u : User)
      → upsert_by_identity pg provider subject email w ≡ (ok u, w')
      → (u.provider ≡ provider)
        × (u.subject ≡ subject)
        × (u.email ≡ email)
        × (accounts_at pg w' ≡ record (accounts_at pg w) { user = (accounts_at pg w').user })
        × ((i : String) → (accounts_at pg w').user i ≡ none → (accounts_at pg w).user i ≡ none)
  unfolding upsert_by_identity user_from_row
  upsert-ok provider subject email w w' u h =
      let row : UserRow = record {
        id = w.uuids 0;
        provider = provider;
        subject = subject;
        email = email;
        created_at = timestamptz (w.clock 0);
      } in
      let w₁ = record w { uuids = rest w.uuids; clock = rest w.clock } in
      elim (run-cases (upsert_user_identity pg row w₁)) [
        | inr (e, w'', k) ↦ absurd (let x = rw k at h in ground arith)
        | inl (r, w'', k) ↦
            let ended : (user_from_row r ≡ u) × (w'' ≡ w') = let x = rw k at h in ground arith in
            let (p, s, e, after, kept_users) = upsert-row row w₁ w'' r k in
            rw (← ended.0, ← ended.1) (p, s, e, ap (accounts_in pg) after, λ i. kept_users (uuid i))
      ]

  upsert-err :
      (provider subject email : String) (w w' : World) (x : Error)
      → upsert_by_identity pg provider subject email w ≡ (err x, w')
      → accounts_at pg w' ≡ accounts_at pg w
  unfolding upsert_by_identity
  upsert-err provider subject email w w' x h = ground arith

  -- The PostgreSQL repository of users keeps every law of its port: a sign-in returns a user
  -- of the identity and the email that were given, changes users only, and removes none.
  pub user_repository-UserRepositoryLaws : UserRepositoryLaws (accounts_at pg) (user_repository pg)
  user_repository-UserRepositoryLaws = record {
    get_ok = get-ok;
    get_err = get-err;
    upsert_ok = upsert-ok;
    upsert_err = upsert-err;
  }
