-- ===== src/Memory.antt =====
-- server/internal/adapters/memory/rate_limiter.go: request counts per action, key and window. The
-- lock is not modelled: a call is one step. A map is an association list; the order in which Go
-- ranges over it is not determined, so each loop takes the order of its keys as an argument.
pub mod Capacity
pub mod Buckets
pub mod Quota
use agent_events.Prelude.{
  ℕ, suc, ◌/◌, String, Bool, true, false, not, ◌&&◌, Option, none, some, List, [], ◌∷◌, filter,
  length, leb, ltb, ◌==◌, if◌then◌else◌,
}
use agent_events.Prelude.Int.{ℤ, pos, negsuc, ◌+ℤ◌, sub_ℕ, leb_ℤ, eqb_ℤ, wrap}
use agent_events.Time.{Time, Duration, truncate, unix, nanoseconds_per_second}

-- type Limit struct
pub record Limit : Type 0 where
  pub max : ℤ
  pub window : Duration

-- type bucketKey struct
pub record BucketKey : Type 0 where
  pub action : String
  pub key : String
  pub window_start : ℤ

-- `==` of Go on two bucket keys
unfoldable pub same_bucket : BucketKey → BucketKey → Bool
same_bucket b c = b.action == c.action && b.key == c.key && eqb_ℤ b.window_start c.window_start

-- `map[string]Limit`
abbrev pub Limits : Type 0
Limits = List (String × Limit)

-- `map[bucketKey]int`
abbrev pub Counts : Type 0
Counts = List (BucketKey × ℤ)

-- const maxTrackedBuckets
abbrev pub max_tracked_buckets : ℕ
max_tracked_buckets = 4096

-- `limits[action]`
unfoldable pub limit_of : Limits → String → Option Limit
limit_of [] action = none
limit_of ((a, limit) ∷ limits) action = if a == action then some limit else limit_of limits action

-- `counts[bucket]`, 0 where there is no entry
unfoldable pub count_of : BucketKey → Counts → ℤ
count_of b [] = pos 0
count_of b ((c, n) ∷ counts) = if same_bucket c b then n else count_of b counts

-- `counts[bucket]++`
unfoldable pub increment : BucketKey → Counts → Counts
unfolding wrap ◌+ℤ◌
increment b [] = (b, pos 1) ∷ []
increment b ((c, n) ∷ counts) =
    if same_bucket c b then (c, wrap (n +ℤ pos 1)) ∷ counts else (c, n) ∷ increment b counts

-- `delete(counts, bucket)`
unfoldable pub remove : BucketKey → Counts → Counts
unfolding filter
remove b counts = filter (λ entry. not (same_bucket entry.0 b)) counts

-- `int64(d / time.Second)`: Go's division rounds towards zero
unfoldable pub whole_seconds : Duration → ℤ
whole_seconds (pos n) = pos (n / nanoseconds_per_second)
whole_seconds (negsuc n) = sub_ℕ 0 (suc n / nanoseconds_per_second)

-- The test of `prune`: a bucket with no limit, or whose window is over.
unfoldable pub stale : Limits → Time → BucketKey → Bool
unfolding limit_of whole_seconds ◌+ℤ◌ wrap
stale limits now b = elim (limit_of limits b.action) [
  | none ↦ true
  | some limit ↦ leb_ℤ (wrap (b.window_start +ℤ whole_seconds limit.window)) (unix now)
]

-- `RateLimiter.prune`
unfoldable pub prune : Limits → Time → (order : List BucketKey) → Counts → Counts
unfolding stale remove
prune limits now [] counts = counts
prune limits now (b ∷ order) counts =
    prune limits now order (if stale limits now b then remove b counts else counts)

-- `RateLimiter.evict`
unfoldable pub evict : (order : List BucketKey) → Counts → Counts
unfolding remove
evict [] counts = counts
evict (b ∷ order) counts =
    let rest = evict order (remove b counts) in
    if ltb (length counts) max_tracked_buckets then counts else rest

-- A way to range over a map: the keys of a table, in some order.
abbrev pub Range : Type 0
Range = Counts → List BucketKey

-- The bucket of a call.
unfoldable pub bucket_at : Limit → String → String → Time → BucketKey
bucket_at limit key action now = record {
  action = action;
  key = key;
  window_start = unix (truncate now limit.window);
}

-- The table before a count is raised: `prune` and `evict`, if it is full.
unfoldable pub make_room : Limits → Range → Range → Time → Counts → Counts
unfolding prune evict
make_room limits range₁ range₂ now counts =
    if leb max_tracked_buckets (length counts)
    then (let pruned = prune limits now (range₁ counts) counts in evict (range₂ pruned) pruned)
    else counts

-- `RateLimiter.Allow` on the clock's reading `now`; it returns no error
unfoldable pub allow :
    Limits → Range → Range → Time → (key action : String) → Counts → Bool × Counts
unfolding limit_of bucket_at make_room increment count_of same_bucket
allow limits range₁ range₂ now key action counts = elim (limit_of limits action) [
  | none ↦ (true, counts)
  | some limit ↦
      let bucket = bucket_at limit key action now in
      let counted = increment bucket (make_room limits range₁ range₂ now counts) in
      (leb_ℤ (count_of bucket counted) limit.max, counted)
]
