-- ===== src/Activity/Flushed.antt =====
-- internal/collector/activity_aggregator.go: a flush hands out every bucket once and forgets it.
use lynceus.Prelude.{ℕ, ◌≡◌, refl, ap, ◌∙◌, inl, inr, ◌↔◌, String, some, List, [], ◌∷◌, map, Memᴰ}
use lynceus.Prelude.Int.{ℤ}
use lynceus.Prelude.Dict.{Dict, get, IsMap, put-IsMap, get-mem, mem-get}
use lynceus.Activity.{
  ActivitySample, FlushedBucket, BucketKey, bucket_key_eq, ActivityAggregator,
  new_activity_aggregator, key_of, absorb, bucket_or_new, observe_one, observe_from, observe,
  truncate, flush,
}
use lynceus.Activity.Totals.{observe_all}
use mathlib.Core.List.Memᴰ

observe_from-IsMap :
    (a : ActivityAggregator) (t : ℕ) (ss : List ActivitySample)
    → IsMap a.buckets
    → IsMap (observe_from a t ss).buckets
unfolding observe_from observe_one
observe_from-IsMap a t [] h = h
observe_from-IsMap a t (s ∷ ss) h = observe_from-IsMap (observe_one a t s) t ss (
    put-IsMap (key_of t s) (absorb s (bucket_or_new a t s (get (key_of t s) a.buckets))) a.buckets
      h)

observe_all-IsMap :
    (a : ActivityAggregator) (obs : List (ℕ × List ActivitySample))
    → IsMap a.buckets
    → IsMap (observe_all a obs).buckets
observe_all-IsMap a [] h = h
observe_all-IsMap a ((t, ss) ∷ obs) h =
    observe_all-IsMap (observe a t ss) obs (observe_from-IsMap a _ ss h)

observe_from-width :
    (a : ActivityAggregator) (t : ℕ) (ss : List ActivitySample)
    → record (observe_from a t ss) { buckets = [] } ≡ record a { buckets = [] }
unfolding observe_from observe_one
observe_from-width a t [] = refl
observe_from-width a t (s ∷ ss) = observe_from-width (observe_one a t s) t ss

observe_all-width :
    (a : ActivityAggregator) (obs : List (ℕ × List ActivitySample))
    → record (observe_all a obs) { buckets = [] } ≡ record a { buckets = [] }
observe_all-width a [] = refl
observe_all-width a ((t, ss) ∷ obs) =
    observe_all-width (observe a t ss) obs ∙ observe_from-width a (truncate a.width t) ss

mem-values :
    (m : Dict BucketKey FlushedBucket) {b : FlushedBucket}
    → Memᴰ b (map (λ (p : BucketKey × FlushedBucket). p.1) m)
    → (k : BucketKey) × Memᴰ (k, b) m
mem-values [] h = absurd (Memᴰ.not-nil h)
mem-values ((k, c) ∷ m) h = elim (Memᴰ.cases_cons h) [
  | inl e ↦ (k, Memᴰ.head (ap (λ x. (k, x)) e))
  | inr t ↦ let (j, r) = mem-values m t in (j, Memᴰ.tail r)
]

values-mem :
    (m : Dict BucketKey FlushedBucket) {k : BucketKey} {b : FlushedBucket}
    → Memᴰ (k, b) m
    → Memᴰ b (map (λ (p : BucketKey × FlushedBucket). p.1) m)
values-mem [] h = absurd (Memᴰ.not-nil h)
values-mem (p ∷ m) h = elim (Memᴰ.cases_cons h) [
  | inl e ↦ Memᴰ.head (ap (λ (q : BucketKey × FlushedBucket). q.1) e)
  | inr t ↦ Memᴰ.tail (values-mem m t)
]

-- After any observations, a flush leaves the aggregator as new, and hands out exactly the buckets
-- that its keys had, each of them under one key.
pub flush-IsExact :
    (server : String) (w : ℤ) (obs : List (ℕ × List ActivitySample)) (b : FlushedBucket)
    → let a = observe_all (new_activity_aggregator server w) obs in
      ((flush a).0 ≡ new_activity_aggregator server w)
      × IsMap a.buckets
      × (Memᴰ b (flush a).1 ↔ ((k : BucketKey) × (get k a.buckets ≡ some b)))
unfolding flush
flush-IsExact server w obs b =
    let new = new_activity_aggregator server w in
    let a = observe_all new obs in
    let distinct = observe_all-IsMap new obs tt in
    (
      observe_all-width new obs,
      distinct,
      (
        λ h. let (k, m) = mem-values a.buckets h in (k, mem-get a.buckets distinct m),
        λ r. values-mem a.buckets (get-mem r.0 a.buckets r.1),
      ),
    )
