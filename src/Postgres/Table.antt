-- ===== src/Postgres/Table.antt =====
-- A table as the list of its rows, with a text as the key of a row.
use mathlib.Core.Option
use mathlib.Core.Option.{none-ne-some}
use agent_events.Prelude.{
  ℕ, Bool, true, false, eqb, String, ◌≡◌, refl, sym, ap, inl, inr, not, Option, none, some, List,
  [], ◌∷◌, ◌++◌, map, arith, filter, find?, length, ◌==◌, eq_iff, Bool-cases, if◌then◌else◌,
}

module _ {R : Type 0} (key : R → String) where
  -- SELECT … WHERE key = $1
  unfoldable pub lookup : String → List R → Option R
  unfolding find?
  lookup k rows = find? (λ r. key r == k) rows

  -- UPDATE … WHERE key = $1
  unfoldable pub update : String → (R → R) → List R → List R
  update k f rows = map (λ r. if key r == k then f r else r) rows

  -- DELETE … WHERE key = $1
  unfoldable pub delete : String → List R → List R
  unfolding filter
  delete k rows = filter (λ r. not (key r == k)) rows

  -- the number of rows with the key
  unfoldable pub count : String → List R → ℕ
  unfolding filter
  count k rows = length (filter (λ r. key r == k) rows)

  pub lookup-append :
      (k : String) (r : R) (rows : List R)
      → lookup (key r) rows ≡ none
      → lookup k (rows ++ r ∷ []) ≡ (if key r == k then some r else lookup k rows)
  unfolding lookup
  lookup-append k r [] fresh = refl
  lookup-append k r (x ∷ rows) fresh = elim (Bool-cases (key x == key r)) [
    | inl same ↦ absurd (none-ne-some x (sym (rw same at fresh)))
    | inr other ↦ ground (
      arith,
      lookup-append k r rows (rw other at fresh),
      eq_iff (key x) (key r),
      eq_iff (key x) k,
      eq_iff (key r) k,
    )
  ]

  pub lookup-update :
      (k j : String) (f : R → R)
      → ((r : R) → key (f r) ≡ key r)
      → (rows : List R)
      → lookup j (update k f rows)
        ≡ (if j == k then Option.map f (lookup j rows) else lookup j rows)
  unfolding lookup update
  lookup-update k j f keeps [] = ground arith
  lookup-update k j f keeps (x ∷ rows) = ground (
    arith,
    lookup-update k j f keeps rows,
    keeps x,
    eq_iff (key x) k,
    eq_iff (key x) j,
    eq_iff (key (f x)) j,
    eq_iff j k,
  )

  pub lookup-delete :
      (k j : String) (rows : List R)
      → lookup j (delete k rows) ≡ (if j == k then none else lookup j rows)
  unfolding lookup delete
  lookup-delete k j [] = ground arith
  lookup-delete k j (x ∷ rows) =
      ground (arith, lookup-delete k j rows, eq_iff (key x) k, eq_iff (key x) j, eq_iff j k)

  -- A key that no row has: an UPDATE and a DELETE leave the table as it is.
  pub update-absent :
      (k : String) (f : R → R) (rows : List R) → count k rows ≡ 0 → update k f rows ≡ rows
  unfolding count update
  update-absent k f [] h = refl
  update-absent k f (x ∷ rows) h = elim (Bool-cases (key x == k)) [
    | inl same ↦ absurd (let e = rw same at h in omega arith)
    | inr other ↦ rw other (ap (λ rs. x ∷ rs) (update-absent k f rows (rw other at h)))
  ]

  pub delete-absent : (k : String) (rows : List R) → count k rows ≡ 0 → delete k rows ≡ rows
  unfolding count delete
  delete-absent k [] h = refl
  delete-absent k (x ∷ rows) h = elim (Bool-cases (key x == k)) [
    | inl same ↦ absurd (let e = rw same at h in omega arith)
    | inr other ↦ rw other (ap (λ rs. x ∷ rs) (delete-absent k rows (rw other at h)))
  ]

  -- No row is counted exactly where none is found.
  pub lookup-absent : (k : String) (rows : List R) → count k rows ≡ 0 → lookup k rows ≡ none
  unfolding count lookup
  lookup-absent k [] h = refl
  lookup-absent k (x ∷ rows) h = elim (Bool-cases (key x == k)) [
    | inl same ↦ absurd (let e = rw same at h in omega arith)
    | inr other ↦ rw other (lookup-absent k rows (rw other at h))
  ]

  pub lookup-counted :
      (k : String) (rows : List R)
      → eqb (count k rows) 0 ≡ false
      → (r : R) × (lookup k rows ≡ some r)
  unfolding count lookup
  lookup-counted k [] h = cc
  lookup-counted k (x ∷ rows) h = elim (Bool-cases (key x == k)) [
    | inl same ↦ (x, rw same refl)
    | inr other ↦ rw other (lookup-counted k rows (rw other at h))
  ]

  -- The row that is found has the key.
  pub key-lookup : (k : String) (rows : List R) (r : R) → lookup k rows ≡ some r → key r ≡ k
  unfolding lookup
  key-lookup k [] r h = cc
  key-lookup k (x ∷ rows) r h = ground (arith, eq_iff (key x) k, key-lookup k rows r)

  -- A change of rows that keeps their keys.
  pub lookup-map :
      (j : String) (f : R → R)
      → ((r : R) → key (f r) ≡ key r)
      → (rows : List R) → lookup j (map f rows) ≡ Option.map f (lookup j rows)
  unfolding lookup
  lookup-map j f keeps [] = refl
  lookup-map j f keeps (x ∷ rows) =
      ground (arith, lookup-map j f keeps rows, keeps x, eq_iff (key x) j, eq_iff (key (f x)) j)

  -- A key that no row of the longer table has.
  pub lookup-shorter :
      (j : String) (rows more : List R) → lookup j (rows ++ more) ≡ none → lookup j rows ≡ none
  unfolding lookup
  lookup-shorter j [] more h = refl
  lookup-shorter j (x ∷ rows) more h = ground (arith, lookup-shorter j rows more, eq_iff (key x) j)

-- What is found has the property.
pub find?-holds :
    {R : Type 0} (p : R → Bool) (rows : List R) (r : R) → find? p rows ≡ some r → p r ≡ true
unfolding find?
find?-holds p [] r h = cc
find?-holds p (x ∷ rows) r h = elim (Bool-cases (p x)) [
  | inl holds ↦ let e : some x ≡ some r = rw holds at h in ground (arith, holds, e)
  | inr fails ↦ find?-holds p rows r (rw fails at h)
]
