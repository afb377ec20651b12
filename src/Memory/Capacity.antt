-- ===== src/Memory/Capacity.antt =====
-- server/internal/adapters/memory/rate_limiter.go: the size of the table.
use native.Mathlib.Nat.{le_trans}
use agent_events.Prelude.{
  ◌+◌, ◌≤◌, ◌<◌, String, ◌≡◌, inl, inr, true, List, [], ◌∷◌, arith, filter, any, length, ltb, leb,
  All, Bool-cases, Option-cases,
}
use agent_events.Prelude.Int.{ℤ}
use agent_events.Time.{Time}
use agent_events.Memory.{
  Limits, Counts, BucketKey, Range, same_bucket, remove, prune, evict, increment, make_room, allow,
  max_tracked_buckets, limit_of,
}

-- The order visits every key of the table.
abbrev pub Covers : List BucketKey → Counts → Type 0
Covers order = All (λ (entry : BucketKey × ℤ). any (same_bucket entry.0) order ≡ true)

remove-Covers :
    (b : BucketKey) (order : List BucketKey) (counts : Counts)
    → Covers (b ∷ order) counts
    → Covers order (remove b counts)
unfolding remove filter any
remove-Covers b order [] h = tt
remove-Covers b order (entry ∷ counts) (h, hs) = elim (Bool-cases (same_bucket entry.0 b)) [
  | inl same ↦ rw same (remove-Covers b order counts hs)
  | inr other ↦ rw other (rw other at h, remove-Covers b order counts hs)
]

evict-lt :
    (order : List BucketKey) (counts : Counts)
    → Covers order counts
    → length (evict order counts) < max_tracked_buckets
unfolding evict any
evict-lt [] [] h = omega arith
evict-lt [] (entry ∷ counts) h = cc (h.0)
evict-lt (b ∷ order) counts h = elim (Bool-cases (ltb (length counts) max_tracked_buckets)) [
  | inl few ↦ rw few (ground arith)
  | inr many ↦ rw many (evict-lt order (remove b counts) (remove-Covers b order counts h))
]

pub length-increment :
    (b : BucketKey) (counts : Counts) → length (increment b counts) ≤ length counts + 1
unfolding increment
length-increment b [] = omega arith
length-increment b ((c, n) ∷ counts) = elim (Bool-cases (same_bucket c b)) [
  | inl same ↦ rw same (omega arith)
  | inr other ↦ rw other (omega (arith, length-increment b counts))
]

length-make_room :
    (limits : Limits) (range₁ range₂ : Range) (now : Time) (counts : Counts)
    → ((c : Counts) → Covers (range₂ c) c)
    → length (make_room limits range₁ range₂ now counts) < max_tracked_buckets
unfolding make_room
length-make_room limits range₁ range₂ now counts covers =
    let pruned = prune limits now (range₁ counts) counts in
    elim (Bool-cases (leb max_tracked_buckets (length counts))) [
      | inl full ↦ rw full (evict-lt (range₂ pruned) pruned (covers pruned))
      | inr free ↦ rw free (ground arith)
    ]

-- If the second loop ranges over all keys, a call leaves at most `maxTrackedBuckets` entries
-- in a table that had no more, whatever the orders of the two loops are and whatever the clock
-- says.
pub allow-bounded :
    (limits : Limits) (range₁ range₂ : Range) (now : Time) (key action : String) (counts : Counts)
    → ((c : Counts) → Covers (range₂ c) c)
    → length counts ≤ max_tracked_buckets
    → length (allow limits range₁ range₂ now key action counts).1 ≤ max_tracked_buckets
unfolding allow
allow-bounded limits range₁ range₂ now key action counts covers h =
    elim (Option-cases (limit_of limits action)) [
      | inl unlimited ↦ rw (unlimited, allow) h
      | inr (limit, limited) ↦
          rw (limited, allow)
            (le_trans (length-increment _ (make_room limits range₁ range₂ now counts))
              (omega (arith, length-make_room limits range₁ range₂ now counts covers)))
    ]
