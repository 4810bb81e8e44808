-- ===== src/Activity/Totals.antt =====
-- internal/collector/activity_aggregator.go: a bucket counts, sums and bounds the samples of its key.
use lynceus.Prelude.{
  String, ℕ, ◌+◌, ◌^◌, ◌<◌, ◌≡◌, refl, ap, ap₂, ◌∙◌, inl, inr, if◌then◌else◌, Option, none, some,
  List, [], ◌∷◌, ◌++◌, map, max, length, filter, flat_map, All, ◌==◌, arith, Bool-cases,
}
use lynceus.Prelude.Int.{ℤ, pos, pos_part, neg_part, ltz, ◌+ℤ◌, int32, int64}
use lynceus.Prelude.Dict.{Dict, get, get-put}
use lynceus.Activity.{
  ActivitySample, FlushedBucket, BucketKey, key_beq_iff, bucket_key_eq, ActivityAggregator,
  new_activity_aggregator, truncate, key_of, new_bucket, absorb, bucket_or_new, observe_one,
  observe_from, observe,
}

-- A sample with the start of its bucket.
abbrev pub Placed : Type 0
Placed = ℕ × ActivitySample

abbrev pub placed_key : Placed → BucketKey
placed_key p = key_of p.0 p.1

abbrev pub place : ℕ → ℕ → List ActivitySample → List Placed
place width time samples = map (λ s. (truncate width time, s)) samples

-- The observations of a run, each with its time, and their samples in order.
abbrev pub observe_all : ActivityAggregator → List (ℕ × List ActivitySample) → ActivityAggregator
observe_all a [] = a
observe_all a ((t, ss) ∷ obs) = observe_all (observe a t ss) obs

abbrev pub placed_all : ℕ → List (ℕ × List ActivitySample) → List Placed
placed_all width obs = flat_map (λ (o : ℕ × List ActivitySample). place width o.0 o.1) obs

abbrev pub of_key : BucketKey → List Placed → List Placed
of_key k ps = filter (λ p. placed_key p == k) ps

-- The samples taken in one after another.
combine : ActivityAggregator → Option FlushedBucket → List Placed → Option FlushedBucket
combine a o [] = o
combine a o ((t, s) ∷ ps) = combine a (some (absorb s (bucket_or_new a t s o))) ps

get-observe_one :
    (a : ActivityAggregator) (k : BucketKey) (t : ℕ) (s : ActivitySample)
    → get k (observe_one a t s).buckets ≡ (
        if key_of t s == k
        then some (absorb s (bucket_or_new a t s (get k a.buckets)))
        else get k a.buckets)
unfolding observe_one
get-observe_one a k t s = elim (Bool-cases (key_of t s == k)) [
  | inl q ↦
      let same = (key_beq_iff (key_of t s) k).0 q in
      get-put (key_of t s) k _ a.buckets ∙ rw (q, same) refl
  | inr q ↦ get-put (key_of t s) k _ a.buckets ∙ rw q refl
]

-- The buckets a bucket is made beside do not matter to it.
combine_beside :
    (a : ActivityAggregator) (m : Dict BucketKey FlushedBucket) (o : Option FlushedBucket)
    (ps : List Placed)
    → combine (record a { buckets = m }) o ps ≡ combine a o ps
unfolding combine
combine_beside a m o [] = refl
combine_beside a m none ((t, s) ∷ ps) = combine_beside a m (some (absorb s (new_bucket a t s))) ps
combine_beside a m (some b) ((t, s) ∷ ps) = combine_beside a m (some (absorb s b)) ps

place_in : ActivityAggregator → List Placed → ActivityAggregator
place_in a [] = a
place_in a ((t, s) ∷ ps) = place_in (observe_one a t s) ps

place_in-get :
    (a : ActivityAggregator) (k : BucketKey) (ps : List Placed)
    → get k (place_in a ps).buckets ≡ combine a (get k a.buckets) (of_key k ps)
unfolding place_in observe_one combine
place_in-get a k [] = refl
place_in-get a k ((t, s) ∷ ps) = elim (Bool-cases (key_of t s == k)) [
  | inl q ↦
      place_in-get (observe_one a t s) k ps
      ∙ beside
      ∙ ap (λ o. combine a o (of_key k ps)) (get-observe_one a k t s)
      ∙ rw q refl
  | inr q ↦
      place_in-get (observe_one a t s) k ps
      ∙ beside
      ∙ ap (λ o. combine a o (of_key k ps)) (get-observe_one a k t s)
      ∙ rw q refl
]
  where
    beside :
        combine (observe_one a t s) (get k (observe_one a t s).buckets) (of_key k ps)
        ≡ combine a (get k (observe_one a t s).buckets) (of_key k ps)
    beside =
        combine_beside a (observe_one a t s).buckets (get k (observe_one a t s).buckets)
          (of_key k ps)

observe_from-place_in :
    (a : ActivityAggregator) (t : ℕ) (ss : List ActivitySample) (more : List Placed)
    → place_in (observe_from a t ss) more ≡ place_in a (map (λ s. (t, s)) ss ++ more)
unfolding place_in observe_from
observe_from-place_in a t [] more = refl
observe_from-place_in a t (s ∷ ss) more = observe_from-place_in (observe_one a t s) t ss more

observe_from-width :
    (a : ActivityAggregator) (t : ℕ) (ss : List ActivitySample)
    → (observe_from a t ss).width ≡ a.width
unfolding observe_from observe_one
observe_from-width a t [] = refl
observe_from-width a t (s ∷ ss) = observe_from-width (observe_one a t s) t ss

observe_all-place_in :
    (a : ActivityAggregator) (obs : List (ℕ × List ActivitySample))
    → observe_all a obs ≡ place_in a (placed_all a.width obs)
unfolding place_in
observe_all-place_in a [] = refl
observe_all-place_in a ((t, ss) ∷ obs) =
    observe_all-place_in (observe a t ss) obs
    ∙ ap (λ w. place_in (observe a t ss) (placed_all w obs))
        (observe_from-width a (truncate a.width t) ss)
    ∙ observe_from-place_in a (truncate a.width t) ss (placed_all a.width obs)

abbrev pub total : List Placed → ℕ
total [] = 0
total ((t, s) ∷ ps) = pos_part s.count + total ps

abbrev pub greatest : List Placed → ℕ
greatest [] = 0
greatest ((t, s) ∷ ps) = max (pos_part s.count) (greatest ps)

-- What the bucket of a first sample and those after it should be.
abbrev pub summary : ActivityAggregator → List Placed → Option FlushedBucket
summary a [] = none
summary a ((t, s) ∷ ps) =
    let all = (t, s) ∷ ps in
    some (record (new_bucket a t s) {
      sample_count = pos (length all);
      count_sum = pos (total all);
      count_max = pos (greatest all);
    })

abbrev counted : FlushedBucket → (n m k : ℕ) → FlushedBucket
counted b n m k = record b { sample_count = pos n; count_sum = pos m; count_max = pos k }

one_more : (n : ℕ) → n + 1 < 2 ^ 31 → int32 (pos n +ℤ pos 1) ≡ pos (n + 1)
one_more n h = ground arith

sum_more :
    (m : ℕ) (z : ℤ)
    → neg_part z ≡ 0
    → m + pos_part z < 2 ^ 63
    → int64 (pos m +ℤ z) ≡ pos (m + pos_part z)
sum_more m z q h = ground arith

max_more :
    (k : ℕ) (z : ℤ)
    → neg_part z ≡ 0
    → (if ltz (pos k) z then z else pos k) ≡ pos (max k (pos_part z))
max_more k z q = ground arith

absorb-counted :
    (b : FlushedBucket) (n m k : ℕ) (s : ActivitySample)
    → neg_part s.count ≡ 0
    → n + 1 < 2 ^ 31
    → m + pos_part s.count < 2 ^ 63
    → absorb s (counted b n m k)
      ≡ counted b (n + 1) (m + pos_part s.count) (max k (pos_part s.count))
absorb-counted b n m k s q h l =
    ap
      (λ z. record b {
        sample_count = z;
        count_sum = int64 (pos m +ℤ s.count);
        count_max = if ltz (pos k) s.count then s.count else pos k;
      })
      (one_more n h)
    ∙ ap₂ (λ y z. record b { sample_count = pos (n + 1); count_sum = y; count_max = z })
        (sum_more m s.count q l) (max_more k s.count q)

counted_same :
    (b : FlushedBucket) {n m k i j l : ℕ}
    → n ≡ i
    → m ≡ j
    → k ≡ l
    → counted b n m k ≡ counted b i j l
counted_same b p q r = rw (p, q, r) refl

combine-counted :
    (a : ActivityAggregator) (b : FlushedBucket) (n m k : ℕ) (ps : List Placed)
    → All (λ (p : Placed). neg_part p.1.count ≡ 0) ps
    → n + length ps < 2 ^ 31
    → m + total ps < 2 ^ 63
    → combine a (some (counted b n m k)) ps
      ≡ some (counted b (n + length ps) (m + total ps) (max k (greatest ps)))
unfolding combine
combine-counted a b n m k [] h l r =
    ap some (counted_same b (omega arith) (omega arith) (omega arith))
combine-counted a b n m k ((t, s) ∷ ps) (h, hs) l r =
    ap (λ o. combine a (some o) ps) (absorb-counted b n m k s h (omega arith) (omega arith))
    ∙ combine-counted a b (n + 1) (m + pos_part s.count) (max k (pos_part s.count)) ps hs
        (omega arith) (omega arith)
    ∙ ap some (counted_same b (omega arith) (omega arith) (omega arith))

-- Where counts are not negative, fewer than 2^31 samples fall in a bucket and their counts sum to
-- less than 2^63, after any observations a new aggregator's bucket of a key is absent when no
-- sample had the key, and else has the number, the sum and the maximum of the samples that had.
pub observe_all-summary :
    (server : String) (w : ℤ) (obs : List (ℕ × List ActivitySample)) (k : BucketKey)
    → let a = new_activity_aggregator server w in
      let ps = of_key k (placed_all a.width obs) in
      All (λ (p : Placed). neg_part p.1.count ≡ 0) ps
      → length ps < 2 ^ 31
      → total ps < 2 ^ 63
      → get k (observe_all a obs).buckets ≡ summary a ps
unfolding combine get
observe_all-summary server w obs k h l r =
    let a = new_activity_aggregator server w in
    ap (λ (c : ActivityAggregator). get k c.buckets) (observe_all-place_in a obs)
    ∙ place_in-get a k (placed_all a.width obs)
    ∙ first (of_key k (placed_all a.width obs)) h l r
  where
    first :
        (ps : List Placed)
        → All (λ (p : Placed). neg_part p.1.count ≡ 0) ps
        → length ps < 2 ^ 31
        → total ps < 2 ^ 63
        → combine (new_activity_aggregator server w) none ps
          ≡ summary (new_activity_aggregator server w) ps
    first [] h l r = refl
    first ((t, s) ∷ ps) h l r =
        combine-counted (new_activity_aggregator server w)
          (new_bucket (new_activity_aggregator server w) t s) 0 0 0 ((t, s) ∷ ps) h (omega arith)
          (omega arith)
        ∙ ap some (
            counted_same (new_bucket (new_activity_aggregator server w) t s) (omega arith)
              (omega arith) (omega arith))
