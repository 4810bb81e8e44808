-- ===== src/FleetView.antt =====
-- internal/fleetview/: what the views read of the two stores, and their severities.
mod Holding
pub mod Summary
pub mod Items
pub mod Dashboard
pub mod Issues
pub mod Tally
mod Tests
use lynceus.Prelude.{ℕ, String, Bool, not, ◌&&◌, ◌||◌, if◌then◌else◌, List, ◌==◌, string_eq}
use lynceus.Prelude.Int.{ℤ}
use lynceus.Prelude.Result.{Result}
use lynceus.Ingest.Rows.{SettingRow}

pub record Cluster : Type 0 where
  pub id : String
  pub name : String

pub record Instance : Type 0 where
  pub id : String
  pub name : String
  pub role : String

pub record ServerStream : Type 0 where
  pub server_id : String
  pub database_name : String

pub record Throughput (F : Type 0) : Type 0 where
  pub calls : ℤ
  pub total_time_ms : F

pub record QpsBucket : Type 0 where
  pub bucket_start : ℤ
  pub calls : ℤ

pub record ActivitySummary : Type 0 where
  pub active_conns : ℤ
  pub top_wait : String

-- A stored check result, with the fields that the views read. Times are nanoseconds since 1970.
pub record LatestCheck : Type 0 where
  pub check_id : String
  pub category : String
  pub severity : String
  pub status : String
  pub detail : String
  pub muted : Bool
  pub evaluated_at : ℤ

-- A stored insight, with the fields that the views read.
pub record TopInsight : Type 0 where
  pub server_id : String
  pub captured_at : ℤ
  pub kind : String
  pub severity : String
  pub fingerprint : String
  pub detail : String

-- What the configuration database answers.
pub record Config : Type 0 where
  pub list_clusters : Result (List Cluster)
  pub server_ids_for_cluster : String → Result (List String)
  pub list_instances : String → Result (List Instance)
  pub list_server_streams : String → Result (List ServerStream)

-- What the stats store answers for the window of the view.
pub record StatsStore (F : Type 0) : Type 0 where
  pub throughput_for_servers : List String → Result (Throughput F)
  pub qps_buckets_for_servers : List String → Result (List QpsBucket)
  pub activity_summary_for_servers : List String → Result ActivitySummary
  pub insight_count_for_servers : List String → Result ℕ
  pub latest_checks_results : String → Result (List LatestCheck)
  pub latest_settings : String → Result (List SettingRow)
  pub top_insights_for_servers : List String → ℕ → Result (List TopInsight)

pub data Sev : Type 0 where
  crit : Sev
  warn : Sev
  info : Sev

-- The words of the checks and those of the insights.
abbrev pub norm_sev : String → Sev
norm_sev raw =
    if (raw == "critical") || (raw == "high")
    then crit
    else if (raw == "warning") || (raw == "medium")
    then warn
    else info

abbrev pub sev_rank : Sev → ℕ
sev_rank crit = 0
sev_rank warn = 1
sev_rank info = 2

abbrev pub is_open_check : LatestCheck → Bool
is_open_check c = (c.status == "firing") && not c.muted
