-- ===== src/Ingest/Convert.antt =====
-- internal/ingest/server.go (`snapshotToRows` to `snapshotToFreezeAges`): a snapshot's messages as
-- rows. `now` is `time.Now()`.
use lynceus.Prelude.{◌-◌, ◌%◌, String, Bool, ◌||◌, List, map, flat_map, ltb, if◌then◌else◌}
use lynceus.Prelude.Int.{ℤ, pos, negsuc, eqz}
use lynceus.Ingest.Wire.{Snapshot, QueryPlan, Double}
use lynceus.Ingest.Rows.{
  Time, zero_time, unix, QueryStatRow, QueryPlanRow, InsightRow, SchemaObjectRow, TableStatRow,
  FreezeAgeRow,
}

-- The seconds of Go's zero time, 0001-01-01.
abbrev pub is_zero : ℤ → Bool
is_zero u = eqz u (negsuc 62135596799)

unfoldable pub collected_at : ℤ → Time → Time
collected_at u now = if is_zero u || eqz u (pos 0) then now else unix u

unfoldable pub unix_to_time : ℤ → Time
unix_to_time u = if eqz u (pos 0) then zero_time else unix u

-- `int16(k)`: the low 16 bits, read as signed.
unfoldable pub int16 : ℤ → ℤ
int16 (pos n) = if ltb (n % 65536) 32768 then pos (n % 65536) else negsuc (65535 - n % 65536)
int16 (negsuc n) = if ltb (n % 65536) 32768 then negsuc (n % 65536) else pos (65535 - n % 65536)

-- internal/insight: what a detector reports.
pub record Insight : Type 0 where
  pub kind : String
  pub severity : String
  pub fingerprint : String
  pub relation : String
  pub node_path : String
  pub rows_returned : ℤ
  pub rows_scanned : ℤ
  pub selectivity : Double
  pub detail : String

unfoldable pub snapshot_to_rows : {Body : Type 0} → Snapshot Body → Time → List QueryStatRow
snapshot_to_rows snap now =
    map
      (λ q. record {
        server_id = snap.server_id;
        collected_at = collected_at snap.collected_at_unix now;
        fingerprint = q.fingerprint;
        normalized_query = q.normalized_query;
        data_tier = 1;
        calls = q.calls;
        total_time_ms = q.total_time_ms;
        mean_time_ms = q.mean_time_ms;
        rows = q.rows;
        shared_blks_hit = q.shared_blks_hit;
        shared_blks_read = q.shared_blks_read;
        raw_query = "";
      })
      snap.query_stats

unfoldable pub snapshot_to_raw_rows : {Body : Type 0} → Snapshot Body → Time → List QueryStatRow
snapshot_to_raw_rows snap now =
    map
      (λ q. record {
        server_id = snap.server_id;
        collected_at = collected_at snap.collected_at_unix now;
        fingerprint = q.fingerprint;
        normalized_query = q.normalized_query;
        raw_query = q.raw_query;
        data_tier = 2;
        calls = q.calls;
        total_time_ms = q.total_time_ms;
        mean_time_ms = q.mean_time_ms;
        rows = q.rows;
        shared_blks_hit = q.shared_blks_hit;
        shared_blks_read = q.shared_blks_read;
      })
      snap.query_stat_raws

unfoldable pub snapshot_to_query_plans : {Body : Type 0} → Snapshot Body → List (QueryPlanRow Body)
snapshot_to_query_plans snap =
    map
      (λ p. record {
        server_id = snap.server_id;
        captured_at = unix p.captured_at_unix;
        plan = p;
        data_tier = 1;
      })
      snap.query_plans

unfoldable pub snapshot_to_schema_objects : {Body : Type 0} → Snapshot Body → List SchemaObjectRow
snapshot_to_schema_objects snap =
    map
      (λ o. record {
        server_id = snap.server_id;
        kind = int16 o.kind;
        fqn = o.fqn;
        schema_name = o.schema;
        object_name = o.name;
        size_bytes = o.size_bytes;
        is_partition = o.is_partition;
        parent_fqn = o.parent_fqn;
      })
      snap.schema_objects

unfoldable pub snapshot_to_table_stats : {Body : Type 0} → Snapshot Body → Time → List TableStatRow
snapshot_to_table_stats snap now =
    map
      (λ t. record {
        server_id = snap.server_id;
        collected_at = collected_at snap.collected_at_unix now;
        schema_name = t.schema;
        object_name = t.name;
        fqn = t.fqn;
        total_bytes = t.total_bytes;
        heap_bytes = t.heap_bytes;
        toast_bytes = t.toast_bytes;
        indexes_bytes = t.indexes_bytes;
        row_estimate = t.row_estimate;
        live_tuples = t.live_tuples;
        dead_tuples = t.dead_tuples;
        n_mod_since_analyze = t.n_mod_since_analyze;
        seq_scan = t.seq_scan;
        idx_scan = t.idx_scan;
        n_tup_ins = t.n_tup_ins;
        n_tup_upd = t.n_tup_upd;
        n_tup_del = t.n_tup_del;
        n_tup_hot_upd = t.n_tup_hot_upd;
        last_vacuum = unix_to_time t.last_vacuum_unix;
        last_autovacuum = unix_to_time t.last_autovacuum_unix;
        last_analyze = unix_to_time t.last_analyze_unix;
        last_autoanalyze = unix_to_time t.last_autoanalyze_unix;
        vacuum_count = t.vacuum_count;
        autovacuum_count = t.autovacuum_count;
        data_tier = 1;
      })
      snap.table_stats

unfoldable pub snapshot_to_freeze_ages : {Body : Type 0} → Snapshot Body → Time → List FreezeAgeRow
snapshot_to_freeze_ages snap now =
    map
      (λ f. record {
        server_id = snap.server_id;
        collected_at = collected_at snap.collected_at_unix now;
        scope = f.scope;
        schema_name = f.schema;
        object_name = f.name;
        fqn = f.fqn;
        xid_age = f.xid_age;
        mxid_age = f.mxid_age;
        autovacuum_freeze_max_age = f.autovacuum_freeze_max_age;
        data_tier = 1;
      })
      snap.freeze_ages

-- `detect_all` is `insight.DetectAll`.
unfoldable pub snapshot_to_insights :
    {Body : Type 0} → (QueryPlan Body → List Insight) → Snapshot Body → List InsightRow
snapshot_to_insights detect_all snap =
    flat_map
      (λ p.
        map
          (λ (i : Insight). record {
            server_id = snap.server_id;
            captured_at = unix p.captured_at_unix;
            kind = i.kind;
            severity = i.severity;
            fingerprint = i.fingerprint;
            relation = i.relation;
            node_path = i.node_path;
            rows_returned = i.rows_returned;
            rows_scanned = i.rows_scanned;
            selectivity = i.selectivity;
            detail = i.detail;
            data_tier = 1;
          })
          (detect_all p))
      snap.query_plans
