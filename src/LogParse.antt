-- ===== src/LogParse.antt =====
-- internal/logparse: what a log record is before and after it is classified. Text is its code points.
pub mod Severities
pub mod Scan
pub mod Stderr
pub mod Csv
pub mod Classify
pub mod Stream
pub mod Tests
use lynceus.Prelude.{ℕ, Bool, ◌&&◌, if◌then◌else◌, List, [], bytes_eq, ◌==◌}
use lynceus.Prelude.Int.{ℤ}
use lynceus.Ingest.Rows.{Time}

abbrev pub Text : Type 0
Text = List ℕ

pub data Format : Type 0 where
  csv stderr : Format

pub data Severity : Type 0 where
  unknown debug log info notice warning error fatal panic : Severity

pub record RawRecord : Type 0 where
  pub logged_at : Time
  pub occurred_at : Time
  pub severity : Severity
  pub sql_state : Text
  pub pid : ℤ
  pub backend_type : Text
  pub database_name : Text
  pub user_name : Text
  pub app_name : Text
  pub client_addr : Text
  pub session_line : ℤ
  pub txn_id : ℤ
  pub message : Text
  pub detail : Text
  pub hint : Text
  pub statement_text : Text
  pub internal_query : Text
  pub context_line : Text

pub data EventType : Type 0 where
  unclassified : EventType
  connection_authorized connection_received connection_disconnected : EventType
  connection_auth_failed : EventType
  checkpoint_starting checkpoint_complete : EventType
  vacuum_completed autovacuum_completed : EventType
  lock_deadlock lock_acquired_after : EventType
  query_duration query_canceled_timeout : EventType
  error_constraint_violation error_syntax : EventType
  auto_explain_plan temp_file_created : EventType

-- What may be shipped: no field of the message.
pub record LogEvent : Type 0 where
  pub event_type : EventType
  pub severity : Severity
  pub occurred_at : Time
  pub logged_at : Time
  pub pid : ℤ
  pub backend_type : Text
  pub database_name : Text
  pub user_name : Text
  pub app_name : Text
  pub client_addr_hash : Text
  pub sql_state : Text
  pub session_line_num : ℤ
  pub transaction_id : ℤ

pub record LogPayload : Type 0 where
  pub message : Text
  pub detail : Text
  pub hint : Text
  pub statement_text : Text
  pub internal_query : Text
  pub context_line : Text

pub data PayloadTier : Type 0 where
  tier_empty tier_sensitive : PayloadTier

abbrev pub payload_tier : LogPayload → PayloadTier
payload_tier p =
    if (p.message == [])
      && (p.detail == [])
      && (p.hint == [])
      && (p.statement_text == [])
      && (p.internal_query == [])
      && (p.context_line == [])
    then tier_empty
    else tier_sensitive
