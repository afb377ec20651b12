-- ===== src/Postgres/Events/Listed.antt =====
-- server/internal/adapters/postgres/event_repository.go: `List` leaves out no stored event.
use mathlib.Core.Option.{some-injective}
use mathlib.Core.List.{Mem, mem-cast, mem-map_of_mem, Memᴰ}
use mathlib.Core.List.Memᴰ
use agent_events.Prelude.{
  String, ◌≡◌, refl, sym, inl, inr, some, List, [], ◌∷◌, map, arith, ◌==◌, Bool-cases, Option-cases,
  find?,
}
use agent_events.Prelude.Int.{leb_ℤ}
use agent_events.Time.{Time}
use agent_events.Exec.{ok}
use agent_events.Domain.{Event}
use agent_events.World.{World}
use agent_events.Postgres.Table.{lookup}
use agent_events.Postgres.Query.{insert_by, order_by}
use agent_events.Postgres.Schema.{EventRow, Engine, event_from_row}
use agent_events.Postgres.Events.{list}
use agent_events.Postgres.Events.View.{events_at}

module _ {R : Type 0} where
  lookup-Mem :
      (key : R → String) (k : String) (rows : List R) (r : R)
      → lookup key k rows ≡ some r
      → Memᴰ r rows
  unfolding lookup find?
  lookup-Mem key k [] r h = cc
  lookup-Mem key k (x ∷ rows) r h = elim (Bool-cases (key x == k)) [
    | inl same ↦ Memᴰ.head (sym (some-injective _ _ (rw same at h)))
    | inr other ↦ Memᴰ.tail (lookup-Mem key k rows r (rw other at h))
  ]

  module _ (created : R → Time) where
    insert_by-Mem : (r : R) (rows : List R) → Memᴰ r (insert_by created r rows)
    unfolding insert_by
    insert_by-Mem r [] = Memᴰ.head refl
    insert_by-Mem r (x ∷ rows) = elim (Bool-cases (leb_ℤ (created r) (created x))) [
      | inl before ↦ rw before (Memᴰ.head refl)
      | inr after ↦ rw after (Memᴰ.tail (insert_by-Mem r rows))
    ]

    insert_by-keeps : (q r : R) (rows : List R) → Memᴰ q rows → Memᴰ q (insert_by created r rows)
    unfolding insert_by
    insert_by-keeps q r [] m = elim m [ ]
    insert_by-keeps q r (x ∷ rows) m = elim (Bool-cases (leb_ℤ (created r) (created x))) [
      | inl before ↦ rw before (Memᴰ.tail m)
      | inr after ↦ rw after (elim m [
        | Memᴰ.head e ↦ Memᴰ.head e
        | Memᴰ.tail later ↦ Memᴰ.tail (insert_by-keeps q r rows later)
      ])
    ]

    order_by-Mem : (q : R) (rows : List R) → Memᴰ q rows → Memᴰ q (order_by created rows)
    unfolding order_by
    order_by-Mem q [] m = elim m [ ]
    order_by-Mem q (x ∷ rows) (Memᴰ.head e) = Memᴰ.cast e (insert_by-Mem x (order_by created rows))
    order_by-Mem q (x ∷ rows) (Memᴰ.tail m) =
        insert_by-keeps q x (order_by created rows) (order_by-Mem q rows m)

module _ (pg : Engine) where
  open pg use {uuid}

  pub list-all :
      (w w' : World) (events : List Event) (i : String) (e : Event)
      → list pg w ≡ (ok events, w')
      → events_at pg w i ≡ some e
      → Mem e events
  unfolding list
  list-all w w' events i e h stored =
      let whole : events
          ≡ map event_from_row (order_by (λ (r : EventRow). r.created_at.time) w.db.events) =
        ground arith in
      elim (Option-cases (uuid i)) [
        | inl bad ↦ cc (rw bad at stored)
        | inr (u, named) ↦ elim (Option-cases (lookup (λ (r : EventRow). r.id) u w.db.events)) [
          | inl missing ↦ cc (rw (named, missing) at stored)
          | inr (row, found) ↦ rw whole (
              mem-cast (some-injective _ _ (sym (rw (named, found) at stored))) (
                mem-map_of_mem event_from_row
                  ∣ order_by-Mem (λ (r : EventRow). r.created_at.time) row w.db.events
                    (lookup-Mem _ u w.db.events row found) ∣₁))
        ]
      ]
