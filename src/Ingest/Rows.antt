-- ===== src/Ingest/Rows.antt =====
-- internal/store/types.go, internal/store/stats.go: the rows of the stats store.
use lynceus.Prelude.{ℕ, String, Bool}
use lynceus.Prelude.Int.{ℤ}
use lynceus.Ingest.Wire.{Double, QueryPlan}

-- `zero_time` is Go's zero `time.Time`; `unix` counts seconds.
pub data Time : Type 0 where
  zero_time : Time
  unix : ℤ → Time

pub record QueryStatRow : Type 0 where
  pub server_id : String
  pub collected_at : Time
  pub fingerprint : String
  pub normalized_query : String
  pub raw_query : String
  pub data_tier : ℕ
  pub calls : ℤ
  pub total_time_ms : Double
  pub mean_time_ms : Double
  pub rows : ℤ
  pub shared_blks_hit : ℤ
  pub shared_blks_read : ℤ

pub record ActivityBucketRow : Type 0 where
  pub server_id : String
  pub database : String
  pub state : String
  pub wait_event_type : String
  pub wait_event : String
  pub bucket_start : Time
  pub bucket_seconds : ℤ
  pub sample_count : ℤ
  pub count_sum : ℤ
  pub count_max : ℤ
  pub data_tier : ℕ

pub record QueryPlanRow (Body : Type 0) : Type 0 where
  pub server_id : String
  pub captured_at : Time
  pub plan : QueryPlan Body
  pub data_tier : ℕ

pub record InsightRow : Type 0 where
  pub server_id : String
  pub captured_at : Time
  pub kind : String
  pub severity : String
  pub fingerprint : String
  pub relation : String
  pub node_path : String
  pub rows_returned : ℤ
  pub rows_scanned : ℤ
  pub selectivity : Double
  pub detail : String
  pub data_tier : ℕ

pub record SchemaObjectRow : Type 0 where
  pub server_id : String
  pub kind : ℤ
  pub fqn : String
  pub schema_name : String
  pub object_name : String
  pub size_bytes : ℤ
  pub is_partition : Bool
  pub parent_fqn : String

pub record TableStatRow : Type 0 where
  pub server_id : String
  pub collected_at : Time
  pub schema_name : String
  pub object_name : String
  pub fqn : String
  pub total_bytes : ℤ
  pub heap_bytes : ℤ
  pub toast_bytes : ℤ
  pub indexes_bytes : ℤ
  pub row_estimate : ℤ
  pub live_tuples : ℤ
  pub dead_tuples : ℤ
  pub n_mod_since_analyze : ℤ
  pub seq_scan : ℤ
  pub idx_scan : ℤ
  pub n_tup_ins : ℤ
  pub n_tup_upd : ℤ
  pub n_tup_del : ℤ
  pub n_tup_hot_upd : ℤ
  pub last_vacuum : Time
  pub last_autovacuum : Time
  pub last_analyze : Time
  pub last_autoanalyze : Time
  pub vacuum_count : ℤ
  pub autovacuum_count : ℤ
  pub data_tier : ℕ

pub record LogEventRow : Type 0 where
  pub server_id : String
  pub event_type : String
  pub severity : String
  pub occurred_at : Time
  pub logged_at : Time
  pub pid : ℤ
  pub backend_type : String
  pub database_name : String
  pub user_name : String
  pub application_name : String
  pub client_addr_hash : String
  pub sql_state : String
  pub session_line_num : ℤ
  pub transaction_id : ℤ
  pub data_tier : ℕ

pub record FreezeAgeRow : Type 0 where
  pub server_id : String
  pub collected_at : Time
  pub scope : String
  pub schema_name : String
  pub object_name : String
  pub fqn : String
  pub xid_age : ℤ
  pub mxid_age : ℤ
  pub autovacuum_freeze_max_age : ℤ
  pub data_tier : ℕ

pub record XminHorizonRow : Type 0 where
  pub server_id : String
  pub collected_at : Time
  pub oldest_xmin_age : ℤ
  pub holder_kind : String
  pub data_tier : ℕ

pub record IndexStatRow : Type 0 where
  pub server_id : String
  pub collected_at : Time
  pub schema_name : String
  pub object_name : String
  pub fqn : String
  pub table_fqn : String
  pub idx_scan : ℤ
  pub size_bytes : ℤ
  pub is_valid : Bool
  pub is_ready : Bool
  pub is_unique : Bool
  pub is_primary : Bool
  pub data_tier : ℕ

pub record SettingRow : Type 0 where
  pub server_id : String
  pub collected_at : Time
  pub name : String
  pub value : String
  pub unit : String
  pub source : String
  pub pending_restart : Bool
  pub data_tier : ℕ

pub record ConnectionSampleRow : Type 0 where
  pub server_id : String
  pub observed_at : Time
  pub pid : ℤ
  pub state : String
  pub active_seconds : ℤ
  pub xact_seconds : ℤ
  pub state_seconds : ℤ
  pub wait_event_type : String
  pub data_tier : ℕ

pub record BlockingEdgeRow : Type 0 where
  pub server_id : String
  pub observed_at : Time
  pub blocked_pid : ℤ
  pub blocker_pid : ℤ
  pub blocked_wait_seconds : ℤ
  pub data_tier : ℕ
