-- ===== src/Activity/Tests.antt =====
-- internal/collector/activity_aggregator.go: three samples in two buckets of a minute.
use lynceus.Prelude.{ℕ, ◌+◌, ◌*◌, ◌≡◌, refl, arith, some, List, [], ◌∷◌, string_eq}
use lynceus.Prelude.Int.{pos}
use lynceus.Prelude.Dict.{get}
use lynceus.Activity.{
  ActivitySample, bucket_key_eq, ActivityAggregator, new_activity_aggregator, key_of, new_bucket,
}
use lynceus.Activity.Totals.{observe_all, observe_all-summary}

abbrev sample : ℕ → ActivitySample
sample n = record {
  database = "app";
  state = "active";
  wait_event_type = "";
  wait_event = "";
  count = pos n;
}

abbrev minute : ℕ
minute = 60000000000

abbrev observed : List (ℕ × List ActivitySample)
observed =
    (minute + 1, sample 4 ∷ []) ∷ (minute + 7, sample 9 ∷ []) ∷ (3 * minute, sample 1 ∷ []) ∷ []

abbrev aggregator : ActivityAggregator
aggregator = new_activity_aggregator "s1" (pos minute)

observe_all-summary_example :
    get (key_of minute (sample 4)) (observe_all aggregator observed).buckets
    ≡ some (record (new_bucket aggregator minute (sample 4)) {
      sample_count = pos 2;
      count_sum = pos 13;
      count_max = pos 9;
    })
observe_all-summary_example =
    observe_all-summary "s1" (pos minute) observed (key_of minute (sample 4)) (refl, (refl, tt))
      (omega arith) (omega arith)
