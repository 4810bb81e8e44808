-- ===== src/LogPipeline.antt =====
-- internal/collector/log_pipeline.go and plan_pipeline.go: a chunk of a log as what is shipped of it.
pub mod QuoteFree
mod Tests
use lynceus.Prelude.{
  String, Bool, true, false, if◌then◌else◌, Option, none, some, List, [], ◌∷◌, ◌++◌, map, bytes_eq,
  ◌==◌,
}
use lynceus.Prelude.Int.{ℤ, pos, negsuc}
use lynceus.Prelude.Text.{codes}
use lynceus.Prelude.Numerals.{trim_space}
use lynceus.Prelude.Result.{Error, msg, Result, ok, err}
use lynceus.Ingest.Rows.{Time, zero_time, unix}
use lynceus.Checks.Vacuum.{Float64}
use lynceus.LogTail.{FileError, Answer, gives, fails, Os, FileTail, read}
use lynceus.PlanExtract.{RawNode, QueryPlan, extract}
use lynceus.LogParse.{
  Text, EventType, unclassified, connection_authorized, connection_received,
  connection_disconnected, connection_auth_failed, checkpoint_starting, checkpoint_complete,
  vacuum_completed, autovacuum_completed, lock_deadlock, lock_acquired_after, query_duration,
  query_canceled_timeout, error_constraint_violation, error_syntax, auto_explain_plan,
  temp_file_created, LogEvent, LogPayload,
}
use lynceus.LogParse.Severities.{severity_name}
use lynceus.LogParse.Stream.{Options, Environment, Source, Parsed, parse_stream}
use lynceus.Insight.{Insight}
use lynceus.Insight.Registry.{detect_plans}

abbrev pub event_name : EventType → String
event_name unclassified = "log.unclassified"
event_name connection_authorized = "connection.authorized"
event_name connection_received = "connection.received"
event_name connection_disconnected = "connection.disconnected"
event_name connection_auth_failed = "connection.auth_failed"
event_name checkpoint_starting = "checkpoint.starting"
event_name checkpoint_complete = "checkpoint.completed"
event_name vacuum_completed = "vacuum.completed"
event_name autovacuum_completed = "vacuum.autovacuum_completed"
event_name lock_deadlock = "lock.deadlock_detected"
event_name lock_acquired_after = "lock.acquired_after_wait"
event_name query_duration = "query.duration"
event_name query_canceled_timeout = "query.canceled_due_to_timeout"
event_name error_constraint_violation = "error.constraint_violation"
event_name error_syntax = "error.syntax"
event_name auto_explain_plan = "auto_explain.plan"
event_name temp_file_created = "temp_file.created"

-- The message lynceus.v1.LogEvent, as it is shipped.
pub record ProtoLogEvent : Type 0 where
  pub event_type : String
  pub severity : Text
  pub occurred_at_unix : ℤ
  pub logged_at_unix : ℤ
  pub pid : ℤ
  pub backend_type : Text
  pub database_name : Text
  pub user_name : Text
  pub application_name : Text
  pub client_addr_hash : Text
  pub sql_state : Text
  pub session_line_num : ℤ
  pub transaction_id : ℤ

-- `time.Time.Unix`; the zero time is in the year 1.
abbrev pub unix_of : Time → ℤ
unix_of zero_time = negsuc 62135596799
unix_of (unix n) = n

abbrev pub to_proto_log_event : LogEvent → ProtoLogEvent
to_proto_log_event e = record {
  event_type = event_name e.event_type;
  severity = severity_name e.severity;
  occurred_at_unix = unix_of e.occurred_at;
  logged_at_unix = unix_of e.logged_at;
  pid = e.pid;
  backend_type = e.backend_type;
  database_name = e.database_name;
  user_name = e.user_name;
  application_name = e.app_name;
  client_addr_hash = e.client_addr_hash;
  sql_state = e.sql_state;
  session_line_num = e.session_line_num;
  transaction_id = e.transaction_id;
}

-- What the pipeline uses of pg_query, of encoding/json and of the expression `autoExplainPrefix`,
-- whose matches `strip_prefix` removes.
pub record PlanLibrary : Type 0 where
  pub strip_prefix : Text → Text
  pub pg_normalize : Text → Result Text
  pub pg_fingerprint : Text → Result String
  pub plans_in_array : Text → Option (List (Option RawNode))
  pub plan_in_object : Text → Option (Option RawNode)
  pub texts_in_array : Text → Option (List Text)
  pub text_in_object : Text → Option Text

abbrev pub is_plan : EventType → Bool
is_plan auto_explain_plan = true
is_plan _ = false

abbrev pub first_text : List Text → Text
first_text [] = []
first_text (t ∷ ts) = t

abbrev pub text_or_empty : Option Text → Text
text_or_empty none = []
text_or_empty (some t) = t

abbrev pub or_text : Text → Text → Text
or_text [] other = other
or_text (c ∷ cs) other = c ∷ cs

abbrev pub fingerprint_or_empty : Result String → String
fingerprint_or_empty (err e) = ""
fingerprint_or_empty (ok fp) = fp

module _ (lib : PlanLibrary) where
  abbrev pub query_text_from_body : Text → Text
  query_text_from_body body = elim (lib.texts_in_array body) [
    | some ts ↦ first_text ts
    | none ↦ text_or_empty (lib.text_in_object body)
  ]

  -- A statement without text has no fingerprint.
  abbrev pub fingerprint_of : Text → String
  fingerprint_of [] = ""
  fingerprint_of (c ∷ cs) = fingerprint_or_empty (lib.pg_fingerprint (c ∷ cs))

  abbrev pub plan_fingerprint : LogPayload → (body : Text) → String
  plan_fingerprint p body = fingerprint_of (or_text p.statement_text (query_text_from_body body))

  abbrev pub plan_body : LogPayload → Text
  plan_body p = trim_space (lib.strip_prefix p.message)

  -- A plan that cannot be extracted is dropped.
  abbrev pub kept_plan : Result QueryPlan → List QueryPlan
  kept_plan (err e) = []
  kept_plan (ok qp) = qp ∷ []

  abbrev pub plan_of_body : LogEvent → LogPayload → (body : Text) → List QueryPlan
  plan_of_body e p [] = []
  plan_of_body e p (c ∷ cs) = kept_plan (
      extract lib.pg_normalize lib.plans_in_array lib.plan_in_object (c ∷ cs)
        (plan_fingerprint p (c ∷ cs)) (unix_of e.occurred_at))

  unfoldable pub extract_plans : List LogEvent → List LogPayload → List QueryPlan
  extract_plans [] ps = []
  extract_plans (e ∷ es) [] = []
  extract_plans (e ∷ es) (p ∷ ps) =
      let rest = extract_plans es ps in
      if is_plan e.event_type then plan_of_body e p (plan_body p) ++ rest else rest

-- `insights` is none where a detector does not return.
pub record DrainResult (F : Type 0) : Type 0 where
  pub log_events : List ProtoLogEvent
  pub query_plans : List QueryPlan
  pub insights : Option (List (Insight F))

pub data Drained (F : Type 0) : Type 0 where
  drained : DrainResult F → Drained F
  read_failed : FileError → Drained F
  parse_failed : Error → Drained F

pub record LogPipeline : Type 0 where
  pub src : FileTail
  pub opts : Options
  pub detect_locally : Bool

module _ (f64 : Float64) (lib : PlanLibrary) (env : Environment) where
  abbrev pub detected : Bool → List QueryPlan → Option (List (Insight f64.F))
  detected false plans = some []
  detected true plans = detect_plans f64 plans

  abbrev pub outcome : LogPipeline → Parsed × Option Error → Drained f64.F
  outcome p (parsed, some e) = parse_failed e
  outcome p ((events, payloads), none) =
      let plans = extract_plans lib events payloads in
      drained (record {
        log_events = map to_proto_log_event events;
        query_plans = plans;
        insights = detected p.detect_locally plans;
      })

  abbrev pub after_source : LogPipeline → FileTail × Answer Text → LogPipeline × Drained f64.F
  after_source p (t, fails e) = (record p { src = t }, read_failed e)
  after_source p (t, gives chunk) = (
    record p { src = t },
    outcome p (parse_stream env p.opts (record { content = chunk; failure = none })),
  )

  -- One chunk of the log; the tail moves on whatever becomes of it.
  unfoldable pub drain : Os → LogPipeline → LogPipeline × Drained f64.F
  drain os p = after_source p (read os p.src)
