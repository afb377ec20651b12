-- ===== src/Postgres/Accounts/UserRows.antt =====
-- server/internal/adapters/postgres/user_repository.go: the rows of users and their ids.
use mathlib.Core.Option
use mathlib.Core.Option.{some-injective, none-ne-some}
use agent_events.Prelude.{
  String, ◌≡◌, ◌≢◌, refl, sym, ap, ◌∙◌, subst, ◌⊎◌, inl, inr, Bool, true, none, some, List, [], ◌∷◌,
  ◌++◌, map, find?, arith, eq_refl, eq_false_of_ne, if◌then◌else◌, Bool-cases, Option-cases,
}
use agent_events.Exec.{ok, run-cases}
use agent_events.Domain.{User}
use agent_events.World.{World, rest}
use agent_events.Postgres.Table.{lookup, lookup-append, lookup-map, key-lookup, find?-holds}
use agent_events.Postgres.Schema.{UserRow, Engine, timestamptz, user_from_row}
use agent_events.Postgres.AccountQuery.{same_identity, set_email, upsert_user_identity}
use agent_events.Postgres.Users.{upsert_by_identity}
use agent_events.Postgres.Accounts.{find_user, accounts_at}
use agent_events.Postgres.Accounts.UserLaws.{with_email, upsert-known, upsert-new}

abbrev id_of : UserRow → String
id_of r = r.id

-- A row that is found in the longer table is an old one or the new one.
find?-append :
    (p : UserRow → Bool) (rows : List UserRow) (r q : UserRow)
    → find? p (rows ++ r ∷ []) ≡ some q
    → (find? p rows ≡ some q) ⊎ (r ≡ q)
unfolding find?
find?-append p [] r q h = elim (Bool-cases (p r)) [
  | inl pass ↦ inr (some-injective _ _ (rw pass at h))
  | inr out ↦ cc (rw out at h)
]
find?-append p (x ∷ rows) r q h = elim (Bool-cases (p x)) [
  | inl pass ↦ inl (rw pass (rw pass at h))
  | inr out ↦ elim (find?-append p rows r q (rw out at h)) [
    | inl old ↦ inl (rw out old)
    | inr new ↦ inr new
  ]
]

-- A row that is found in the changed table is a changed row.
find?-map :
    (p : UserRow → Bool) (f : UserRow → UserRow) (rows : List UserRow) (q : UserRow)
    → find? p (map f rows) ≡ some q
    → (r : UserRow) × (find? (λ x. p (f x)) rows ≡ some r) × (f r ≡ q)
unfolding find?
find?-map p f [] q h = cc
find?-map p f (x ∷ rows) q h = elim (Bool-cases (p (f x))) [
  | inl pass ↦ (x, rw pass refl, some-injective _ _ (rw pass at h))
  | inr out ↦ let (r, found, same) = find?-map p f rows q (rw out at h) in (r, rw out found, same)
]

lookup-appended :
    (rows : List UserRow) (r : UserRow)
    → lookup id_of r.id rows ≡ none
    → lookup id_of r.id (rows ++ r ∷ []) ≡ some r
lookup-appended rows r fresh = rw (lookup-append id_of r.id r rows fresh, eq_refl r.id)

module _ (pg : Engine) where
  open pg use {uuid, uuid_canonical}

  -- Every row, whatever it is looked for by, has a canonical id, under which it is found.
  abbrev pub UsersValid : List UserRow → Type 0
  UsersValid rows =
      (p : UserRow → Bool) (r : UserRow)
      → find? p rows ≡ some r
      → (uuid r.id ≡ some r.id) × (lookup id_of r.id rows ≡ some r)

  insert-UsersValid :
      (rows : List UserRow) (r : UserRow)
      → uuid r.id ≡ some r.id
      → lookup id_of r.id rows ≡ none
      → UsersValid rows
      → UsersValid (rows ++ r ∷ [])
  insert-UsersValid rows r canonical fresh valid p q h = elim (find?-append p rows r q h) [
    | inr new ↦
        subst (λ x. (uuid x.id ≡ some x.id) × (lookup id_of x.id (rows ++ r ∷ []) ≡ some x)) new
          (canonical, lookup-appended rows r fresh)
    | inl old ↦
        let (named, there) = valid p q old in
        let other : r.id ≢ q.id =
          λ e. none-ne-some q (sym fresh ∙ ap (λ k. lookup id_of k rows) e ∙ there) in
        (named, rw (lookup-append id_of q.id r rows fresh, eq_false_of_ne r.id q.id other) there)
  ]

  -- The change of the rows with the identity of a row.
  abbrev change : UserRow → UserRow → UserRow
  change row r = if same_identity r row then set_email row r else r

  id-change : (row r : UserRow) → (change row r).id ≡ r.id
  id-change row r = elim (Bool-cases (same_identity r row)) [
    | inl same ↦ rw same
    | inr other ↦ rw other
  ]

  with_email-UsersValid :
      (row : UserRow) (rows : List UserRow) → UsersValid rows → UsersValid (with_email row rows)
  with_email-UsersValid row rows valid p q h =
      let (r, found, same) = find?-map p (change row) rows q h in
      let (named, there) = valid (λ x. p (change row x)) r found in
      subst (λ x. (uuid x.id ≡ some x.id) × (lookup id_of x.id (with_email row rows) ≡ some x)) same
        (
          rw (id-change row r) named,
          rw (id-change row r) (
              lookup-map id_of r.id (change row) (id-change row) rows
              ∙ ap (Option.map (change row)) there),
        )

  -- A new row has a canonical id that was free.
  upsert-new_id :
      (row : UserRow) (w w' : World) (r : UserRow)
      → find? (λ r. same_identity r row) w.db.users ≡ none
      → upsert_user_identity pg row w ≡ (ok r, w')
      → (uuid row.id ≡ some r.id) × (lookup id_of r.id w.db.users ≡ none)
  unfolding upsert_user_identity
  upsert-new_id row w w' r h k = ground arith

  -- What a sign-in returns is valid, and found under its id.
  upsert-row_found :
      (row : UserRow) (w w' : World) (r : UserRow)
      → UsersValid w.db.users
      → upsert_user_identity pg row w ≡ (ok r, w')
      → UsersValid w'.db.users × (find_user w'.db.users (uuid r.id) ≡ some (user_from_row r))
  upsert-row_found row w w' r valid k =
      elim (Option-cases (find? (λ r. same_identity r row) w.db.users)) [
        | inl new ↦
            let (p, s, e, after) = upsert-new pg row w w' r new k in
            let (read, fresh) = upsert-new_id row w w' r new k in
            let canonical : uuid r.id ≡ some r.id = uuid_canonical row.id r.id read in
            let valid' = insert-UsersValid w.db.users r canonical fresh valid in
            rw (after, canonical)
              (valid', ap (Option.map user_from_row) (lookup-appended w.db.users r fresh))
        | inr (found, known) ↦
            let (same, after) = upsert-known pg row found w w' r known k in
            let (named, there) = valid (λ r. same_identity r row) found known in
            let own : same_identity found row ≡ true =
              find?-holds (λ r. same_identity r row) w.db.users found known in
            let changed : change row found ≡ set_email row found = rw own in
            rw (after, same, named)
              (
                with_email-UsersValid row w.db.users valid,
                ap (Option.map user_from_row) (
                    lookup-map id_of found.id (change row) (id-change row) w.db.users
                    ∙ ap (Option.map (change row)) there
                    ∙ ap some changed),
              )
      ]

  -- A user who is found under some id is found under the id that it has.
  pub find_user_self :
      (rows : List UserRow) (i : String) (u : User)
      → find_user rows (uuid i) ≡ some u
      → (uuid u.id ≡ some u.id) × (find_user rows (uuid u.id) ≡ some u)
  unfolding user_from_row
  find_user_self rows i u h = elim (Option-cases (uuid i)) [
    | inl bad ↦ cc (rw bad at h)
    | inr (k, read) ↦ elim (Option-cases (lookup id_of k rows)) [
      | inl missing ↦ cc (rw (read, missing) at h)
      | inr (r, there) ↦
          let same : user_from_row r ≡ u = some-injective _ _ (rw (read, there) at h) in
          let named : r.id ≡ k = key-lookup id_of k rows r there in
          let canonical : uuid r.id ≡ some r.id =
            ap uuid named ∙ uuid_canonical i k read ∙ ap some (sym named) in
          subst (λ x. (uuid x.id ≡ some x.id) × (find_user rows (uuid x.id) ≡ some x)) same
            (
              canonical,
              rw canonical
                  (ap (Option.map user_from_row) (ap (λ j. lookup id_of j rows) named ∙ there)),
            )
    ]
  ]

  -- In a valid table, the user of a sign-in is found under the id that it has, and the table stays
  -- valid.
  pub upsert_by_identity-found :
      (provider subject email : String) (w w' : World) (u : User)
      → UsersValid w.db.users
      → upsert_by_identity pg provider subject email w ≡ (ok u, w')
      → UsersValid w'.db.users × ((accounts_at pg w').user u.id ≡ some u)
  unfolding upsert_by_identity user_from_row
  upsert_by_identity-found provider subject email w w' u valid h =
      let row : UserRow = record {
        id = w.uuids 0;
        provider = provider;
        subject = subject;
        email = email;
        created_at = timestamptz (w.clock 0);
      } in
      let w₁ = record w { uuids = rest w.uuids; clock = rest w.clock } in
      elim (run-cases (upsert_user_identity pg row w₁)) [
        | inr (e, w'', k) ↦ absurd (let x = rw k at h in ground arith)
        | inl (r, w'', k) ↦
            let ended : (user_from_row r ≡ u) × (w'' ≡ w') = let x = rw k at h in ground arith in
            rw (← ended.0, ← ended.1) (upsert-row_found row w₁ w'' r valid k)
      ]
