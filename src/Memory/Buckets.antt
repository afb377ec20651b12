-- ===== src/Memory/Buckets.antt =====
-- server/internal/adapters/memory/rate_limiter.go: how the counts of the buckets change.
use agent_events.Prelude.{
  any, ◌≡◌, refl, ◌↔◌, inl, inr, true, ◌&&◌, List, [], ◌∷◌, arith, eq_iff, Bool-cases,
  if◌then◌else◌,
}
use agent_events.Prelude.Int.{pos, ◌+ℤ◌, wrap, eq_of_parts}
use agent_events.Time.{Time}
use agent_events.Memory.{
  BucketKey, Counts, Limits, same_bucket, count_of, increment, remove, prune, stale,
}

pub same_bucket_iff : (b c : BucketKey) → (same_bucket b c ≡ true) ↔ (b ≡ c)
unfolding same_bucket
same_bucket_iff b c =
    ground (
      arith,
      eq_iff b.action c.action,
      eq_iff b.key c.key,
      eq_of_parts b.window_start c.window_start,
    )

pub count_of-increment :
    (b c : BucketKey) (counts : Counts)
    → count_of c (increment b counts)
      ≡ (if same_bucket b c then wrap (count_of c counts +ℤ pos 1) else count_of c counts)
unfolding count_of increment
count_of-increment b c [] = ground arith
count_of-increment b c ((d, n) ∷ counts) = ground (
  arith,
  same_bucket_iff d b,
  same_bucket_iff d c,
  same_bucket_iff b c,
  count_of-increment b c counts,
)

pub count_of-remove :
    (b c : BucketKey) (counts : Counts)
    → count_of c (remove b counts) ≡ (if same_bucket b c then pos 0 else count_of c counts)
unfolding count_of remove
count_of-remove b c [] = ground arith
count_of-remove b c ((d, n) ∷ counts) = ground (
  arith,
  same_bucket_iff d b,
  same_bucket_iff d c,
  same_bucket_iff b c,
  count_of-remove b c counts,
)

-- `prune` sets to 0 the count of exactly the stale buckets among those that it ranges over.
pub count_of-prune :
    (limits : Limits) (now : Time) (order : List BucketKey) (counts : Counts) (c : BucketKey)
    → count_of c (prune limits now order counts)
      ≡ (if any (same_bucket c) order && stale limits now c then pos 0 else count_of c counts)
unfolding prune any
count_of-prune limits now [] counts c = refl
count_of-prune limits now (b ∷ order) counts c = elim (Bool-cases (stale limits now b)) [
  | inl over ↦ rw over (
      ground (
        arith,
        count_of-prune limits now order (remove b counts) c,
        count_of-remove b c counts,
        same_bucket_iff b c,
        same_bucket_iff c b,
        over,
      ))
  | inr open_window ↦
      rw open_window
        (ground (arith, count_of-prune limits now order counts c, same_bucket_iff c b, open_window))
]
