-- ===== src/Ingest/Tests.antt =====
-- internal/ingest/server.go: a snapshot with a query in both tiers and one setting, over a store
-- that refuses settings.
use lynceus.Prelude.{
  ℕ, false, refl, Option, none, some, List, [], ◌∷◌, All, string_eq, nat_eq, ◌==◌,
}
use lynceus.Prelude.Int.{pos}
use lynceus.Prelude.Result.{Error, msg, Result, ok, err}
use lynceus.Ingest.Wire.{QueryStat, QueryStatRaw, Setting, Snapshot}
use lynceus.Ingest.Rows.{unix}
use lynceus.Ingest.Persist.{Write, write_settings, Outside, persist_snapshot}
use lynceus.Ingest.Persist.Order.{Followed, planned, persist_snapshot-Followed}
use lynceus.Ingest.Persist.Tiers.{IsTiered, persist_snapshot-IsTiered}
use lynceus.Ingest.Handle.{Frame, DlqEntry, RateLimit, Request, ServerState, handle}
use lynceus.Ingest.Handle.Delivery.{IsDelivered, handle-IsDelivered}

abbrev query : QueryStat
query = record {
  fingerprint = "f1";
  normalized_query = "select $1";
  calls = pos 3;
  total_time_ms = 0;
  mean_time_ms = 0;
  rows = pos 3;
  shared_blks_hit = pos 0;
  shared_blks_read = pos 0;
}

abbrev raw : QueryStatRaw
raw = record {
  raw_query = "select 42";
  fingerprint = "f1";
  normalized_query = "select $1";
  calls = pos 1;
  total_time_ms = 0;
  mean_time_ms = 0;
  rows = pos 1;
  shared_blks_hit = pos 0;
  shared_blks_read = pos 0;
}

abbrev setting : Setting
setting = record {
  name = "work_mem";
  value = "4096";
  unit = "kB";
  source = "default";
  pending_restart = false;
}

abbrev snapshot : Snapshot ℕ
snapshot = record {
  server_id = "s1";
  collected_at_unix = pos 100;
  query_stats = query ∷ [];
  activity_buckets = [];
  query_plans = [];
  schema_objects = [];
  table_stats = [];
  log_events = [];
  freeze_ages = [];
  connection_samples = [];
  blocking_edges = [];
  index_stats = [];
  xmin_horizons = [];
  settings = setting ∷ [];
  query_stat_raws = raw ∷ [];
}

abbrev no_settings : List (Write ℕ) → Write ℕ → Option Error
no_settings done (write_settings rs) = some (msg "read only")
no_settings done w = none

abbrev outside : Outside ℕ
outside = record { answer = no_settings; clock = λ l. unix (pos 7); detect_all = λ p. [] }

persist_snapshot-Followed_example :
    Followed no_settings (planned outside snapshot) (persist_snapshot outside snapshot)
persist_snapshot-Followed_example = persist_snapshot-Followed outside snapshot

persist_snapshot-IsTiered_example : All (IsTiered "s1") (persist_snapshot outside snapshot).done
persist_snapshot-IsTiered_example = persist_snapshot-IsTiered outside snapshot

-- A limiter with one token.
abbrev bucket : RateLimit ℕ
bucket = record { new_limiter = 1; allow = λ n. (n == 1, 0) }

abbrev no_park_error : DlqEntry → Option Error
no_park_error e = none

abbrev decode : Frame → Result (Snapshot ℕ)
decode [] = err (msg "empty")
decode (b ∷ bs) = ok snapshot

abbrev empty_state : ServerState ℕ ℕ
empty_state = record { limiters = []; writes = []; dlq = [] }

abbrev frame : Frame
frame = 8 ∷ 1 ∷ []

abbrev request : Request
request = record { authorization = "Bearer t"; accept = none; read = ok frame }

handle-IsDelivered_example :
    IsDelivered outside decode frame empty_state
      (handle outside bucket no_park_error decode "t" request empty_state)
handle-IsDelivered_example =
    handle-IsDelivered outside bucket no_park_error decode (λ e. refl) empty_state "t" request frame
      refl refl refl
