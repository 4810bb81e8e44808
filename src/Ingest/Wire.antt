-- ===== src/Ingest/Wire.antt =====
-- proto/lynceus/v1/snapshot.proto, log_event.proto: a collector's snapshot as decoded. A float64 is
-- its bit pattern; of a plan only the time is read here, and the rest is a parameter.
use lynceus.Prelude.{ℕ, String, Bool, List}
use lynceus.Prelude.Int.{ℤ}

abbrev pub Double : Type 0
Double = ℕ

pub record QueryStat : Type 0 where
  pub fingerprint : String
  pub normalized_query : String
  pub calls : ℤ
  pub total_time_ms : Double
  pub mean_time_ms : Double
  pub rows : ℤ
  pub shared_blks_hit : ℤ
  pub shared_blks_read : ℤ

pub record QueryStatRaw : Type 0 where
  pub raw_query : String
  pub fingerprint : String
  pub normalized_query : String
  pub calls : ℤ
  pub total_time_ms : Double
  pub mean_time_ms : Double
  pub rows : ℤ
  pub shared_blks_hit : ℤ
  pub shared_blks_read : ℤ

pub record ActivityBucket : Type 0 where
  pub server_id : String
  pub database_name : String
  pub state : String
  pub wait_event_type : String
  pub wait_event : String
  pub bucket_start_unix : ℤ
  pub bucket_seconds : ℤ
  pub sample_count : ℤ
  pub count_sum : ℤ
  pub count_max : ℤ

pub record ConnectionSample : Type 0 where
  pub server_id : String
  pub observed_at_unix : ℤ
  pub pid : ℤ
  pub state : String
  pub active_seconds : ℤ
  pub xact_seconds : ℤ
  pub state_seconds : ℤ
  pub wait_event_type : String

pub record BlockingEdge : Type 0 where
  pub server_id : String
  pub observed_at_unix : ℤ
  pub blocked_pid : ℤ
  pub blocker_pid : ℤ
  pub blocked_wait_seconds : ℤ

pub record SchemaObject : Type 0 where
  pub kind : ℤ
  pub schema : String
  pub name : String
  pub fqn : String
  pub size_bytes : ℤ
  pub is_partition : Bool
  pub parent_fqn : String
  pub first_seen_at_unix : ℤ

pub record TableStat : Type 0 where
  pub schema : String
  pub name : String
  pub fqn : String
  pub total_bytes : ℤ
  pub heap_bytes : ℤ
  pub toast_bytes : ℤ
  pub indexes_bytes : ℤ
  pub row_estimate : ℤ
  pub live_tuples : ℤ
  pub dead_tuples : ℤ
  pub n_mod_since_analyze : ℤ
  pub seq_scan : ℤ
  pub idx_scan : ℤ
  pub n_tup_ins : ℤ
  pub n_tup_upd : ℤ
  pub n_tup_del : ℤ
  pub n_tup_hot_upd : ℤ
  pub last_vacuum_unix : ℤ
  pub last_autovacuum_unix : ℤ
  pub last_analyze_unix : ℤ
  pub last_autoanalyze_unix : ℤ
  pub vacuum_count : ℤ
  pub autovacuum_count : ℤ

pub record IndexStat : Type 0 where
  pub schema : String
  pub name : String
  pub fqn : String
  pub table_fqn : String
  pub idx_scan : ℤ
  pub size_bytes : ℤ
  pub is_valid : Bool
  pub is_ready : Bool
  pub is_unique : Bool
  pub is_primary : Bool

pub record FreezeAge : Type 0 where
  pub scope : String
  pub schema : String
  pub name : String
  pub fqn : String
  pub xid_age : ℤ
  pub mxid_age : ℤ
  pub autovacuum_freeze_max_age : ℤ

pub record XminHorizon : Type 0 where
  pub oldest_xmin_age : ℤ
  pub holder_kind : String

pub record Setting : Type 0 where
  pub name : String
  pub value : String
  pub unit : String
  pub source : String
  pub pending_restart : Bool

pub record LogEvent : Type 0 where
  pub event_type : String
  pub severity : String
  pub occurred_at_unix : ℤ
  pub logged_at_unix : ℤ
  pub pid : ℤ
  pub backend_type : String
  pub database_name : String
  pub user_name : String
  pub application_name : String
  pub client_addr_hash : String
  pub sql_state : String
  pub session_line_num : ℤ
  pub transaction_id : ℤ

pub record QueryPlan (Body : Type 0) : Type 0 where
  pub captured_at_unix : ℤ
  pub body : Body

pub record Snapshot (Body : Type 0) : Type 0 where
  pub server_id : String
  pub collected_at_unix : ℤ
  pub query_stats : List QueryStat
  pub activity_buckets : List ActivityBucket
  pub query_plans : List (QueryPlan Body)
  pub schema_objects : List SchemaObject
  pub table_stats : List TableStat
  pub log_events : List LogEvent
  pub freeze_ages : List FreezeAge
  pub connection_samples : List ConnectionSample
  pub blocking_edges : List BlockingEdge
  pub index_stats : List IndexStat
  pub xmin_horizons : List XminHorizon
  pub settings : List Setting
  pub query_stat_raws : List QueryStatRaw
