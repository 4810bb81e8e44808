-- ===== src/Ingest/Health.antt =====
-- internal/ingest/server.go (`snapshotToXminHorizons` to `snapshotToBlockingEdges`): the other
-- messages of a snapshot as rows.
use lynceus.Prelude.{List, map}
use lynceus.Ingest.Wire.{Snapshot}
use lynceus.Ingest.Rows.{
  Time, unix, XminHorizonRow, SettingRow, IndexStatRow, LogEventRow, ActivityBucketRow,
  ConnectionSampleRow, BlockingEdgeRow,
}
use lynceus.Ingest.Convert.{collected_at}

unfoldable pub snapshot_to_xmin_horizons :
    {Body : Type 0} → Snapshot Body → Time → List XminHorizonRow
snapshot_to_xmin_horizons snap now =
    map
      (λ x. record {
        server_id = snap.server_id;
        collected_at = collected_at snap.collected_at_unix now;
        oldest_xmin_age = x.oldest_xmin_age;
        holder_kind = x.holder_kind;
        data_tier = 1;
      })
      snap.xmin_horizons

unfoldable pub snapshot_to_settings : {Body : Type 0} → Snapshot Body → Time → List SettingRow
snapshot_to_settings snap now =
    map
      (λ s. record {
        server_id = snap.server_id;
        collected_at = collected_at snap.collected_at_unix now;
        name = s.name;
        value = s.value;
        unit = s.unit;
        source = s.source;
        pending_restart = s.pending_restart;
        data_tier = 1;
      })
      snap.settings

unfoldable pub snapshot_to_index_stats : {Body : Type 0} → Snapshot Body → Time → List IndexStatRow
snapshot_to_index_stats snap now =
    map
      (λ ix. record {
        server_id = snap.server_id;
        collected_at = collected_at snap.collected_at_unix now;
        schema_name = ix.schema;
        object_name = ix.name;
        fqn = ix.fqn;
        table_fqn = ix.table_fqn;
        idx_scan = ix.idx_scan;
        size_bytes = ix.size_bytes;
        is_valid = ix.is_valid;
        is_ready = ix.is_ready;
        is_unique = ix.is_unique;
        is_primary = ix.is_primary;
        data_tier = 1;
      })
      snap.index_stats

unfoldable pub snapshot_to_log_events : {Body : Type 0} → Snapshot Body → List LogEventRow
snapshot_to_log_events snap =
    map
      (λ e. record {
        server_id = snap.server_id;
        event_type = e.event_type;
        severity = e.severity;
        occurred_at = unix e.occurred_at_unix;
        logged_at = unix e.logged_at_unix;
        pid = e.pid;
        backend_type = e.backend_type;
        database_name = e.database_name;
        user_name = e.user_name;
        application_name = e.application_name;
        client_addr_hash = e.client_addr_hash;
        sql_state = e.sql_state;
        session_line_num = e.session_line_num;
        transaction_id = e.transaction_id;
        data_tier = 1;
      })
      snap.log_events

unfoldable pub snapshot_to_activity_buckets :
    {Body : Type 0} → Snapshot Body → List ActivityBucketRow
snapshot_to_activity_buckets snap =
    map
      (λ b. record {
        server_id = snap.server_id;
        database = b.database_name;
        state = b.state;
        wait_event_type = b.wait_event_type;
        wait_event = b.wait_event;
        bucket_start = unix b.bucket_start_unix;
        bucket_seconds = b.bucket_seconds;
        sample_count = b.sample_count;
        count_sum = b.count_sum;
        count_max = b.count_max;
        data_tier = 1;
      })
      snap.activity_buckets

unfoldable pub snapshot_to_connection_samples :
    {Body : Type 0} → Snapshot Body → List ConnectionSampleRow
snapshot_to_connection_samples snap =
    map
      (λ c. record {
        server_id = snap.server_id;
        observed_at = unix c.observed_at_unix;
        pid = c.pid;
        state = c.state;
        active_seconds = c.active_seconds;
        xact_seconds = c.xact_seconds;
        state_seconds = c.state_seconds;
        wait_event_type = c.wait_event_type;
        data_tier = 1;
      })
      snap.connection_samples

unfoldable pub snapshot_to_blocking_edges : {Body : Type 0} → Snapshot Body → List BlockingEdgeRow
snapshot_to_blocking_edges snap =
    map
      (λ e. record {
        server_id = snap.server_id;
        observed_at = unix e.observed_at_unix;
        blocked_pid = e.blocked_pid;
        blocker_pid = e.blocker_pid;
        blocked_wait_seconds = e.blocked_wait_seconds;
        data_tier = 1;
      })
      snap.blocking_edges
