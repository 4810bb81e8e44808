-- ===== src/Checks.antt =====
-- internal/checks/checks.go: the input of a check, its results, and `Run`.
pub mod Settings
pub mod Connections
pub mod Indexes
pub mod Vacuum
pub mod Registry
pub mod Tests
use lynceus.Prelude.{ℕ, String, Bool, List, [], ◌∷◌, ◌++◌, Option, map, flat_map}
use lynceus.Prelude.Int.{ℤ}

pub data Severity : Type 0 where
  info warning critical : Severity

abbrev pub rank : Severity → ℕ
rank critical = 3
rank warning = 2
rank info = 1

pub data Status : Type 0 where
  passing firing : Status

pub record TableInfo : Type 0 where
  pub relation : String
  pub live_tuples : ℤ
  pub dead_tuples : ℤ
  pub n_mod_since_analyze : ℤ
  pub seq_scan : ℤ
  pub idx_scan : ℤ

pub record FreezeInfo : Type 0 where
  pub scope : String
  pub relation : String
  pub xid_age : ℤ
  pub mxid_age : ℤ
  pub autovacuum_freeze_max_age : ℤ

pub record XminInfo : Type 0 where
  pub oldest_xmin_age : ℤ
  pub holder_kind : String

pub record ConnInfo : Type 0 where
  pub pid : ℤ
  pub state : String
  pub active_seconds : ℤ
  pub xact_seconds : ℤ
  pub state_seconds : ℤ
  pub wait_event_type : String

pub record BlockEdge : Type 0 where
  pub blocked_pid : ℤ
  pub blocker_pid : ℤ
  pub blocked_wait_seconds : ℤ

pub record IndexInfo : Type 0 where
  pub schema : String
  pub name : String
  pub fqn : String
  pub table_fqn : String
  pub idx_scan : ℤ
  pub size_bytes : ℤ
  pub is_valid : Bool
  pub is_ready : Bool
  pub is_unique : Bool
  pub is_primary : Bool

pub record SettingInfo : Type 0 where
  pub name : String
  pub value : String
  pub unit : String
  pub source : String
  pub pending_restart : Bool

-- What the index check reads of a recommendation of the index advisor.
pub record IndexRec : Type 0 where
  pub relation : String
  pub columns : List String
  pub query_count : ℕ
  pub total_bytes : ℤ
  pub seq_scans : ℤ

pub record Input : Type 0 where
  pub server_id : String
  pub table_stats : List TableInfo
  pub freeze_ages : List FreezeInfo
  pub index_recs : List IndexRec
  pub connections : List ConnInfo
  pub blocking : List BlockEdge
  pub indexes : List IndexInfo
  pub xmin_horizon : Option XminInfo
  pub settings : List SettingInfo

-- The texts that `fmt.Sprintf` makes, by their arguments. `text` is a fixed one.
pub data Detail : Type 0 where
  text : String → Detail
  setting_bytes : (name : String) (bytes : ℤ) → Detail
  statistics_target : ℤ → Detail
  freeze_age : (kind : String) (age max_age : ℤ) → Detail
  xmin_age : (holder : String) (age : ℤ) → Detail
  dead_tuples_of : (dead live : ℤ) → Detail
  active_for : (seconds : ℤ) (wait_event_type : String) → Detail
  idle_for : (state : String) (seconds xact_seconds : ℤ) → Detail
  blocked_by : (blocked blocker seconds : ℤ) → Detail
  invalid_on : (table : String) (ready : Bool) → Detail
  unused_on : (table : String) (scans bytes : ℤ) → Detail
  missing_on : (columns : List String) (queries : ℕ) (bytes scans : ℤ) → Detail

pub record CheckResult : Type 0 where
  pub server_id : String
  pub check_id : String
  pub category : String
  pub severity : Severity
  pub status : Status
  pub object : String
  pub detail : Detail

-- A check's own identifier and category, and its predicate.
pub record Check : Type 0 where
  pub id : String
  pub category : String
  pub eval : Input → List CheckResult

-- A result as a check makes it: its server is not set yet.
abbrev pub fires : String → String → Severity → String → Detail → CheckResult
fires id category sev object detail = record {
  server_id = "";
  check_id = id;
  category = category;
  severity = sev;
  status = firing;
  object = object;
  detail = detail;
}

abbrev pub stamp : String → CheckResult → CheckResult
stamp server r = record r { server_id = server }

unfoldable pub run : Input → List Check → List CheckResult
run input [] = []
run input (c ∷ cs) = map (stamp input.server_id) (c.eval input) ++ run input cs
