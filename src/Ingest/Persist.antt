-- ===== src/Ingest/Persist.antt =====
-- internal/ingest/server.go (`persistSnapshot`, `persistExtendedRows`): the writes of a snapshot.
pub mod Order
pub mod Tiers
use lynceus.Prelude.{String, Bool, true, false, Option, none, some, List, [], ◌∷◌, ◌++◌}
use lynceus.Prelude.Result.{Error}
use lynceus.Ingest.Wire.{Snapshot, QueryPlan}
use lynceus.Ingest.Rows.{
  Time, QueryStatRow, ActivityBucketRow, QueryPlanRow, InsightRow, SchemaObjectRow, TableStatRow,
  LogEventRow, FreezeAgeRow, XminHorizonRow, IndexStatRow, SettingRow, ConnectionSampleRow,
  BlockingEdgeRow,
}
use lynceus.Ingest.Convert.{
  Insight, snapshot_to_rows, snapshot_to_raw_rows, snapshot_to_query_plans, snapshot_to_insights,
  snapshot_to_schema_objects, snapshot_to_table_stats, snapshot_to_freeze_ages,
}
use lynceus.Ingest.Health.{
  snapshot_to_xmin_horizons, snapshot_to_settings, snapshot_to_index_stats, snapshot_to_log_events,
  snapshot_to_activity_buckets, snapshot_to_connection_samples, snapshot_to_blocking_edges,
}

-- A call of the stats store.
pub data Write (Body : Type 0) : Type 0 where
  write_query_stats : List QueryStatRow → Write Body
  write_activity_buckets : List ActivityBucketRow → Write Body
  write_query_plans : List (QueryPlanRow Body) → Write Body
  write_insights : List InsightRow → Write Body
  write_schema_objects : List SchemaObjectRow → Write Body
  write_table_stats : List TableStatRow → Write Body
  write_log_events : List LogEventRow → Write Body
  write_freeze_ages : List FreezeAgeRow → Write Body
  write_xmin_horizons : List XminHorizonRow → Write Body
  write_index_stats : List IndexStatRow → Write Body
  write_settings : List SettingRow → Write Body
  write_connection_samples : List ConnectionSampleRow → Write Body
  write_blocking_edges : List BlockingEdgeRow → Write Body

-- What the program uses from outside: the error of a write after the writes before it, the clock
-- (`time.Now()` as read for the rows of a label), and `insight.DetectAll`.
pub record Outside (Body : Type 0) : Type 0 where
  pub answer : List (Write Body) → Write Body → Option Error
  pub clock : String → Time
  pub detect_all : QueryPlan Body → List Insight

-- The writes that were accepted, and the label and error that ended the sequence.
pub record Persisted (Body : Type 0) : Type 0 where
  pub done : List (Write Body)
  pub failed : Option (String × Error)

abbrev pub nothing_done : {Body : Type 0} → Persisted Body
nothing_done = record { done = []; failed = none }

abbrev pub accept :
    {Body : Type 0} → String → Write Body → List (Write Body) → Option Error → Persisted Body
accept l w done none = record { done = done ++ w ∷ []; failed = none }
accept l w done (some e) = record { done = done; failed = some (l, e) }

-- `if err := write; err != nil { return label, err }`, after a `return` nothing.
abbrev pub send :
    {Body : Type 0}
    → (List (Write Body) → Write Body → Option Error)
    → String
    → Write Body
    → List (Write Body)
    → Option (String × Error)
    → Persisted Body
send answer l w done none = accept l w done (answer done w)
send answer l w done (some f) = record { done = done; failed = some f }

-- `if rows := ...; len(rows) > 0 { ... }`
abbrev pub send_rows :
    {Body R : Type 0}
    → (List (Write Body) → Write Body → Option Error)
    → String
    → (List R → Write Body)
    → List R
    → Persisted Body
    → Persisted Body
send_rows answer l w [] p = p
send_rows answer l w (r ∷ rs) p = send answer l (w (r ∷ rs)) p.done p.failed

unfoldable pub persist_extended_rows :
    {Body : Type 0} → Outside Body → Snapshot Body → Persisted Body → Persisted Body
persist_extended_rows out snap p =
    let p1 =
      send_rows out.answer "write schema_objects" write_schema_objects
        (snapshot_to_schema_objects snap) p in
    let p2 =
      send_rows out.answer "write table_stats" write_table_stats
        (snapshot_to_table_stats snap (out.clock "write table_stats")) p1 in
    let p3 =
      send_rows out.answer "write log_events" write_log_events (snapshot_to_log_events snap) p2 in
    let p4 =
      send_rows out.answer "write freeze_ages" write_freeze_ages
        (snapshot_to_freeze_ages snap (out.clock "write freeze_ages")) p3 in
    let p5 =
      send_rows out.answer "write xmin_horizon" write_xmin_horizons
        (snapshot_to_xmin_horizons snap (out.clock "write xmin_horizon")) p4 in
    let p6 =
      send_rows out.answer "write index_stats" write_index_stats
        (snapshot_to_index_stats snap (out.clock "write index_stats")) p5 in
    let p7 =
      send_rows out.answer "write settings" write_settings
        (snapshot_to_settings snap (out.clock "write settings")) p6 in
    let p8 =
      send_rows out.answer "write connection_samples" write_connection_samples
        (snapshot_to_connection_samples snap) p7 in
    send_rows out.answer "write blocking_edges" write_blocking_edges
      (snapshot_to_blocking_edges snap) p8

-- The T1 query rows are written even where there are none.
unfoldable pub persist_snapshot : {Body : Type 0} → Outside Body → Snapshot Body → Persisted Body
unfolding persist_extended_rows
persist_snapshot out snap =
    let p1 =
      send out.answer "write" (write_query_stats (snapshot_to_rows snap (out.clock "write"))) []
        none in
    let p2 =
      send_rows out.answer "write raw" write_query_stats
        (snapshot_to_raw_rows snap (out.clock "write raw")) p1 in
    let p3 =
      send_rows out.answer "write activity" write_activity_buckets
        (snapshot_to_activity_buckets snap) p2 in
    let p4 =
      send_rows out.answer "write plans" write_query_plans (snapshot_to_query_plans snap) p3 in
    let p5 =
      send_rows out.answer "write insights" write_insights
        (snapshot_to_insights out.detect_all snap) p4 in
    persist_extended_rows out snap p5
