-- ===== src/Tests/Limiter.antt =====
-- The rate limiter on a few calls.
use Prim.Native.Nat.{min}
use agent_events.Prelude.{
  ◌≤◌, ◌≡◌, refl, String, true, List, [], ◌∷◌, arith, length, map, any, Bool-cases, inl, inr,
}
use agent_events.Prelude.Int.{pos}
use agent_events.Time.{Time, hour, unix, truncate}
use agent_events.Memory.{
  Limit, BucketKey, Counts, Range, same_bucket, limit_of, allow, max_tracked_buckets, count_of,
  prune,
}
use agent_events.Memory.Capacity.{Covers, allow-bounded}
use agent_events.Memory.Buckets.{same_bucket_iff}
use agent_events.Memory.Quota.{Call, calls_in, granted, granted-eq-min}
use agent_events.Tests.Fixtures.{limits, noon}

abbrev keys : Range
keys = map (λ entry. entry.0)

-- An order that has the keys of a table covers the table.
any-later :
    (b c : BucketKey) (order : List BucketKey)
    → any (same_bucket b) order ≡ true
    → any (same_bucket b) (c ∷ order) ≡ true
unfolding any
any-later b c order h = rw h (elim (Bool-cases (same_bucket b c)) [ inl e ↦ rw e | inr e ↦ rw e ])

weaken :
    (c : BucketKey) (order : List BucketKey) (counts : Counts)
    → Covers order counts
    → Covers (c ∷ order) counts
weaken c order [] h = tt
weaken c order (entry ∷ counts) (h, hs) = (any-later entry.0 c order h, weaken c order counts hs)

keys-Covers : (counts : Counts) → Covers (keys counts) counts
unfolding any
keys-Covers [] = tt
keys-Covers (entry ∷ counts) = (
  rw ((same_bucket_iff entry.0 entry.0).1 refl),
  weaken entry.0 (keys counts) counts (keys-Covers counts),
)

abbrev creation : Limit
creation = record { max = pos 2; window = hour }

abbrev bucket : BucketKey
bucket = record {
  action = "event.create";
  key = "user:ann";
  window_start = unix (truncate noon hour);
}

abbrev call : String → Call
call key = record { key = key; action = "event.create"; now = noon }

abbrev calls : List Call
calls = call "user:ann" ∷ call "user:bob" ∷ call "user:ann" ∷ call "user:ann" ∷ []

third_is_refused : granted limits keys keys bucket calls [] ≡ 2
unfolding granted allow unix truncate
third_is_refused = refl

granted-eq-min_example :
    granted limits keys keys bucket calls [] ≡ min (calls_in limits keys keys bucket calls) 2
unfolding limit_of
granted-eq-min_example =
    granted-eq-min limits keys keys bucket creation 2 calls refl refl (omega arith)

allow-bounded_example :
    length (allow limits keys keys noon "user:ann" "event.create" []).1 ≤ max_tracked_buckets
allow-bounded_example =
    allow-bounded limits keys keys noon "user:ann" "event.create" [] keys-Covers (omega arith)

abbrev later : Time
later = pos 63_900_007_200_000_000_000

abbrev table : Counts
table = (bucket, pos 2) ∷ []

-- Two hours later the window is over and its count is forgotten.
window_is_over : count_of bucket (prune limits later (keys table) table) ≡ pos 0
unfolding count_of prune unix truncate same_bucket
window_is_over = refl
