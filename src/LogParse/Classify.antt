-- ===== src/LogParse/Classify.antt =====
-- internal/logparse/classifier.go and rules.go. The regular expressions are arguments.
use lynceus.Prelude.{Bool, true, false, ◌&&◌, if◌then◌else◌, List, [], ◌∷◌}
use lynceus.LogParse.{
  Text, Severity, error, fatal, RawRecord, EventType, unclassified, connection_authorized,
  connection_received, connection_disconnected, connection_auth_failed, checkpoint_starting,
  checkpoint_complete, vacuum_completed, autovacuum_completed, lock_deadlock, lock_acquired_after,
  query_duration, query_canceled_timeout, error_constraint_violation, error_syntax,
  auto_explain_plan, temp_file_created, LogEvent, LogPayload,
}

pub record Rule : Type 0 where
  pub event_type : EventType
  pub matches : RawRecord → Bool

-- `MatchString` of each expression of `DefaultRules`.
pub record Expressions : Type 0 where
  pub auto_explain : Text → Bool
  pub duration : Text → Bool
  pub conn_authorized : Text → Bool
  pub conn_received : Text → Bool
  pub disconnect : Text → Bool
  pub auth_failed : Text → Bool
  pub checkpoint_start : Text → Bool
  pub checkpoint_done : Text → Bool
  pub autovacuum : Text → Bool
  pub manual_vacuum : Text → Bool
  pub deadlock : Text → Bool
  pub lock_acquired : Text → Bool
  pub timeout_cancel : Text → Bool
  pub constraint : Text → Bool
  pub syntax : Text → Bool
  pub temp_file : Text → Bool

abbrev pub is_error : Severity → Bool
is_error error = true
is_error fatal = true
is_error _ = false

abbrev pub re_match : (Text → Bool) → RawRecord → Bool
re_match re rec = re rec.message

abbrev pub re_match_with : (Text → Bool) → (RawRecord → Bool) → RawRecord → Bool
re_match_with re pre rec = pre rec && re rec.message

abbrev pub rule : EventType → (RawRecord → Bool) → Rule
rule t m = record { event_type = t; matches = m }

abbrev pub default_rules : Expressions → List Rule
default_rules re =
    rule auto_explain_plan (re_match re.auto_explain)
    ∷ rule query_duration (re_match re.duration)
    ∷ rule connection_authorized (re_match re.conn_authorized)
    ∷ rule connection_received (re_match re.conn_received)
    ∷ rule connection_disconnected (re_match re.disconnect)
    ∷ rule connection_auth_failed (re_match_with re.auth_failed (λ r. is_error r.severity))
    ∷ rule checkpoint_starting (re_match re.checkpoint_start)
    ∷ rule checkpoint_complete (re_match re.checkpoint_done)
    ∷ rule autovacuum_completed (re_match re.autovacuum)
    ∷ rule vacuum_completed (re_match re.manual_vacuum)
    ∷ rule lock_deadlock (re_match_with re.deadlock (λ r. is_error r.severity))
    ∷ rule lock_acquired_after (re_match re.lock_acquired)
    ∷ rule query_canceled_timeout (re_match_with re.timeout_cancel (λ r. is_error r.severity))
    ∷ rule error_constraint_violation (re_match_with re.constraint (λ r. is_error r.severity))
    ∷ rule error_syntax (re_match_with re.syntax (λ r. is_error r.severity))
    ∷ rule temp_file_created (re_match re.temp_file)
    ∷ []

-- The first rule that matches decides.
abbrev pub first_type : List Rule → RawRecord → EventType
first_type [] rec = unclassified
first_type (r ∷ rs) rec = if r.matches rec then r.event_type else first_type rs rec

-- `hex_sha256` is SHA-256 in hexadecimal.
abbrev pub hash_client_addr : (hex_sha256 : Text → Text) → Text → Text
hash_client_addr hex_sha256 [] = []
hash_client_addr hex_sha256 (c ∷ cs) = hex_sha256 (c ∷ cs)

abbrev pub payload_of : RawRecord → LogPayload
payload_of rec = record {
  message = rec.message;
  detail = rec.detail;
  hint = rec.hint;
  statement_text = rec.statement_text;
  internal_query = rec.internal_query;
  context_line = rec.context_line;
}

unfoldable pub classify : (hex_sha256 : Text → Text) → List Rule → RawRecord → LogEvent × LogPayload
classify hex_sha256 rules rec = (
  record {
    event_type = first_type rules rec;
    severity = rec.severity;
    occurred_at = rec.occurred_at;
    logged_at = rec.logged_at;
    pid = rec.pid;
    backend_type = rec.backend_type;
    database_name = rec.database_name;
    user_name = rec.user_name;
    app_name = rec.app_name;
    client_addr_hash = hash_client_addr hex_sha256 rec.client_addr;
    sql_state = rec.sql_state;
    session_line_num = rec.session_line;
    transaction_id = rec.txn_id;
  },
  payload_of rec,
)
