-- ===== src/Activity.antt =====
-- internal/collector/activity_aggregator.go: samples of sessions folded into buckets of fixed width.
-- Times are nanoseconds since the zero time, 1 January of the year 1.
pub mod Totals
pub mod Flushed
pub mod Tests
use lynceus.Prelude.{
  ℕ, ◌-◌, ◌*◌, ◌/◌, ◌%◌, ◌≡◌, ◌↔◌, Bool, true, ◌&&◌, if◌then◌else◌, leb, String, Option, none, some,
  List, [], ◌∷◌, map, Eq, string_eq, ◌==◌, arith, eq_iff,
}
use lynceus.Prelude.Int.{ℤ, pos, negsuc, eqz, eqz_iff, ltz, minus, ◌+ℤ◌, int32, int64, int_eq}
use lynceus.Prelude.Dict.{Dict, get, put}

pub record ActivitySample : Type 0 where
  pub database : String
  pub state : String
  pub wait_event_type : String
  pub wait_event : String
  pub count : ℤ

pub record FlushedBucket : Type 0 where
  pub server_id : String
  pub database : String
  pub state : String
  pub wait_event_type : String
  pub wait_event : String
  pub bucket_start : ℕ
  pub bucket_seconds : ℤ
  pub sample_count : ℤ
  pub count_sum : ℤ
  pub count_max : ℤ

pub record BucketKey : Type 0 where
  pub bucket_start : ℤ
  pub database : String
  pub state : String
  pub wait_event_type : String
  pub wait_event : String

abbrev pub key_beq : BucketKey → BucketKey → Bool
key_beq a b =
    eqz a.bucket_start b.bucket_start
    && (a.database == b.database)
    && (a.state == b.state)
    && (a.wait_event_type == b.wait_event_type)
    && (a.wait_event == b.wait_event)

pub key_beq_iff : (a b : BucketKey) → (key_beq a b ≡ true) ↔ (a ≡ b)
key_beq_iff a b = ground (
  arith,
  eqz_iff a.bucket_start b.bucket_start,
  eq_iff a.database b.database,
  eq_iff a.state b.state,
  eq_iff a.wait_event_type b.wait_event_type,
  eq_iff a.wait_event b.wait_event,
)

instance abbrev pub bucket_key_eq : Eq BucketKey
bucket_key_eq = record { beq = key_beq; beq_iff = key_beq_iff }

pub record ActivityAggregator : Type 0 where
  pub server_id : String
  pub width : ℕ
  pub buckets : Dict BucketKey FlushedBucket

abbrev pub second : ℕ
second = 1000000000

-- A width below one second is one second.
abbrev pub clamped_width : ℤ → ℕ
clamped_width (pos n) = if leb second n then n else second
clamped_width (negsuc n) = second

abbrev pub new_activity_aggregator : String → ℤ → ActivityAggregator
new_activity_aggregator server w = record {
  server_id = server;
  width = clamped_width w;
  buckets = [];
}

-- `Truncate` and `Unix`, which count from the year 1 and from 1970.
abbrev pub truncate : ℕ → ℕ → ℕ
truncate width t = t - t % width

abbrev pub unix : ℕ → ℤ
unix t = minus (t / second) 62135596800

abbrev pub key_of : ℕ → ActivitySample → BucketKey
key_of start s = record {
  bucket_start = unix start;
  database = s.database;
  state = s.state;
  wait_event_type = s.wait_event_type;
  wait_event = s.wait_event;
}

abbrev pub new_bucket : ActivityAggregator → ℕ → ActivitySample → FlushedBucket
new_bucket a start s = record {
  server_id = a.server_id;
  database = s.database;
  state = s.state;
  wait_event_type = s.wait_event_type;
  wait_event = s.wait_event;
  bucket_start = start;
  bucket_seconds = int32 (pos (a.width / second));
  sample_count = pos 0;
  count_sum = pos 0;
  count_max = pos 0;
}

abbrev pub absorb : ActivitySample → FlushedBucket → FlushedBucket
absorb s b = record b {
  sample_count = int32 (b.sample_count +ℤ pos 1);
  count_sum = int64 (b.count_sum +ℤ s.count);
  count_max = if ltz b.count_max s.count then s.count else b.count_max;
}

abbrev pub bucket_or_new :
    ActivityAggregator → ℕ → ActivitySample → Option FlushedBucket → FlushedBucket
bucket_or_new a start s none = new_bucket a start s
bucket_or_new a start s (some b) = b

-- One turn of the loop over the samples.
unfoldable pub observe_one : ActivityAggregator → ℕ → ActivitySample → ActivityAggregator
observe_one a start s =
    let k = key_of start s in
    record a { buckets = put k (absorb s (bucket_or_new a start s (get k a.buckets))) a.buckets }

unfoldable pub observe_from : ActivityAggregator → ℕ → List ActivitySample → ActivityAggregator
observe_from a start [] = a
observe_from a start (s ∷ ss) = observe_from (observe_one a start s) start ss

abbrev pub observe : ActivityAggregator → ℕ → List ActivitySample → ActivityAggregator
observe a time samples = observe_from a (truncate a.width time) samples

-- The buckets in the order in which the map is visited.
unfoldable pub flush : ActivityAggregator → ActivityAggregator × List FlushedBucket
flush a = (record a { buckets = [] }, map (λ (p : BucketKey × FlushedBucket). p.1) a.buckets)
