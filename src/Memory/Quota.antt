-- ===== src/Memory/Quota.antt =====
-- server/internal/adapters/memory/rate_limiter.go: how many requests of a bucket are allowed.
use Prim.Native.Nat.{min}
use agent_events.Prelude.{
  ℕ, ◌+◌, ◌-◌, ◌^◌, ◌≤◌, ◌<◌, String, ◌≡◌, refl, sym, ap, ◌∙◌, subst, inl, inr, Bool, true, false,
  ◌&&◌, none, some, List, [], ◌∷◌, arith, length, leb, Option-cases, Bool-cases, if◌then◌else◌,
}
use agent_events.Prelude.Int.{pos, ◌+ℤ◌, leb_ℤ, wrap}
use agent_events.Time.{Time}
use agent_events.Memory.{
  Limit, Limits, Counts, BucketKey, Range, same_bucket, count_of, increment, make_room, allow,
  limit_of, bucket_at, max_tracked_buckets,
}
use agent_events.Memory.Buckets.{same_bucket_iff, count_of-increment}
use agent_events.Memory.Capacity.{length-increment}
use mathlib.Core.Option.{some-injective}

-- A call of `Allow`, with what the clock says.
pub record Call : Type 0 where
  pub key : String
  pub action : String
  pub now : Time

make_room-free :
    (limits : Limits) (range₁ range₂ : Range) (now : Time) (counts : Counts)
    → length counts < max_tracked_buckets
    → make_room limits range₁ range₂ now counts ≡ counts
unfolding make_room
make_room-free limits range₁ range₂ now counts free =
    elim (Bool-cases (leb max_tracked_buckets (length counts))) [
      | inl full ↦ absurd (ground arith)
      | inr h ↦ rw h
    ]

wrap_suc : (c : ℕ) → c + 1 < 2 ^ 63 → wrap (pos c +ℤ pos 1) ≡ pos (c + 1)
unfolding wrap ◌+ℤ◌
wrap_suc c h = ground arith

same_bucket_refl : (b : BucketKey) → same_bucket b b ≡ true
same_bucket_refl b = (same_bucket_iff b b).1 refl

-- The next call in a bucket that has counted `c` makes it count `c + 1`.
count_of-raised :
    (k : BucketKey) (counts : Counts) (c : ℕ)
    → count_of k counts ≡ pos c
    → c + 1 < 2 ^ 63
    → count_of k (increment k counts) ≡ pos (c + 1)
count_of-raised k counts c cnt small =
    count_of-increment k k counts
    ∙ rw (same_bucket_refl k) (ap (λ z. wrap (z +ℤ pos 1)) cnt ∙ wrap_suc c small)

bucket_at-action :
    (limit : Limit) (call : Call)
    → (bucket_at limit call.key call.action call.now).action ≡ call.action
unfolding bucket_at
bucket_at-action limit call = refl

-- One more call in the bucket, when `c` were counted and `n` are to come.
share :
    (c m n g : ℕ)
    → g ≡ min n (m - (c + 1))
    → (if leb_ℤ (pos (c + 1)) (pos m) then 1 else 0) + g ≡ min (1 + n) (m - c)
share c m n g h = elim (Bool-cases (leb (c + 1 + 0) (m + 0))) [
  | inl within ↦ rw within (let le : c + 1 ≤ m = ground arith in omega arith)
  | inr beyond ↦ rw beyond (let gt : m < c + 1 = ground arith in omega arith)
]

module _ (limits : Limits) (range₁ range₂ : Range) (b : BucketKey) where
  -- The call is counted in the bucket.
  unfoldable pub is_in : Call → Bool
  is_in call = elim (limit_of limits call.action) [
    | none ↦ false
    | some limit ↦ same_bucket (bucket_at limit call.key call.action call.now) b
  ]

  -- The number of calls in the bucket.
  unfoldable pub calls_in : List Call → ℕ
  unfolding is_in
  calls_in [] = 0
  calls_in (call ∷ calls) = (if is_in call then 1 else 0) + calls_in calls

  -- The number of calls in the bucket that are allowed, from a table on.
  unfoldable pub granted : List Call → Counts → ℕ
  unfolding is_in
  granted [] counts = 0
  granted (call ∷ calls) counts =
      let (allowed, counts') = allow limits range₁ range₂ call.now call.key call.action counts in
      (if is_in call && allowed then 1 else 0) + granted calls counts'

  allow-free :
      (limit : Limit) (call : Call) (counts : Counts)
      → limit_of limits call.action ≡ some limit
      → length counts < max_tracked_buckets
      → let bucket = bucket_at limit call.key call.action call.now in
        allow limits range₁ range₂ call.now call.key call.action counts
        ≡ (leb_ℤ (count_of bucket (increment bucket counts)) limit.max, increment bucket counts)
  unfolding allow
  allow-free limit call counts h free =
      rw (h, make_room-free limits range₁ range₂ call.now counts free, allow)

  allow-unlimited :
      (call : Call) (counts : Counts)
      → limit_of limits call.action ≡ none
      → allow limits range₁ range₂ call.now call.key call.action counts ≡ (true, counts)
  unfolding allow
  allow-unlimited call counts h = rw (h, allow)

  -- As long as the table cannot fill up, of the calls in a bucket as many are allowed, and the
  -- first ones, as its limit leaves.
  granted-from :
      (limit : Limit) (m c : ℕ) (calls : List Call) (counts : Counts)
      → limit_of limits b.action ≡ some limit
      → limit.max ≡ pos m
      → count_of b counts ≡ pos c
      → length counts + length calls ≤ max_tracked_buckets
      → c + length calls < 2 ^ 63
      → granted calls counts ≡ min (calls_in calls) (m - c)
  unfolding granted calls_in
  granted-from limit m c [] counts lim max cnt room small = omega arith
  granted-from limit m c (call ∷ calls) counts lim max cnt room small =
      elim (Option-cases (limit_of limits call.action)) [
        | inl unlimited ↦
            rw (allow-unlimited call counts unlimited, unlimited, is_in)
              (omega (
                arith,
                granted-from limit m c calls counts lim max cnt (omega arith) (omega arith),
              ))
        | inr (l, limited) ↦
            let k = bucket_at l call.key call.action call.now in
            rw (allow-free l call counts limited (omega arith), limited, is_in)
              (elim (Bool-cases (same_bucket k b)) [
                | inl same ↦
                    let k-b : k ≡ b = (same_bucket_iff k b).0 same in
                    let l-limit : l ≡ limit = some-injective _ _ (
                      sym limited
                      ∙ ap (limit_of limits)
                          (sym (bucket_at-action l call) ∙ ap (λ (x : BucketKey). x.action) k-b)
                      ∙ lim) in
                    let cnt_k : count_of k counts ≡ pos c = rw k-b cnt in
                    let raised = count_of-raised k counts c cnt_k (omega arith) in
                    let l-max : l.max ≡ pos m = ap (λ (x : Limit). x.max) l-limit ∙ max in
                    simp (same, raised, l-max)
                      (share c m _ _ (
                        granted-from limit m (c + 1) calls (increment k counts) lim max
                          (subst (λ x. count_of x (increment k counts) ≡ pos (c + 1)) k-b raised)
                          (omega (arith, length-increment k counts)) (omega arith)))
                | inr other ↦ rw other (
                    omega (
                      arith,
                      granted-from limit m c calls (increment k counts) lim max
                          (count_of-increment k b counts ∙ rw other cnt)
                          (omega (arith, length-increment k counts)) (omega arith),
                    ))
              ])
      ]

-- From an empty table that the calls cannot fill, of the calls of one bucket exactly as many
-- are allowed as its limit says, or all of them if they are fewer, whatever calls of other
-- buckets come between.
pub granted-eq-min :
    (limits : Limits) (range₁ range₂ : Range) (b : BucketKey) (limit : Limit) (m : ℕ)
    (calls : List Call)
    → limit_of limits b.action ≡ some limit
    → limit.max ≡ pos m
    → length calls ≤ max_tracked_buckets
    → granted limits range₁ range₂ b calls [] ≡ min (calls_in limits range₁ range₂ b calls) m
unfolding count_of
granted-eq-min limits range₁ range₂ b limit m calls lim max few =
    granted-from limits range₁ range₂ b limit m 0 calls [] lim max refl (omega arith) (omega arith)
    ∙ omega arith
