-- ===== src/FleetView/Summary.antt =====
-- internal/fleetview/summary.go: `ListClusterSummaries` with `rollupOpenChecks` and
-- `settingsForServer`.
use lynceus.Prelude.{
  ℕ, zero, suc, ◌/◌, ◌%◌, String, if◌then◌else◌, Option, none, some, List, [], ◌∷◌, length, ◌==◌,
  string_eq,
}
use lynceus.Prelude.Int.{ℤ, pos, negsuc, ltz}
use lynceus.Prelude.Text.{codes}
use lynceus.Prelude.Numerals.{parse_int}
use lynceus.Prelude.Result.{Result, ok, ◌>>=◌}
use lynceus.Ingest.Rows.{SettingRow}
use lynceus.Checks.Vacuum.{Float64}
use lynceus.FleetView.{
  Cluster, Instance, Throughput, QpsBucket, LatestCheck, Config, StatsStore, is_open_check,
}

pub record ClusterSummary (F : Type 0) : Type 0 where
  pub cluster : Cluster
  pub instance_count : ℕ
  pub stream_count : ℕ
  pub calls : ℤ
  pub avg_latency_ms : F
  pub qps_buckets : List QpsBucket
  pub active_conns : ℤ
  pub top_wait : String
  pub insight_count : ℕ
  pub crit_open : ℕ
  pub warn_open : ℕ
  pub info_open : ℕ
  pub version : String

pub record OpenCounts : Type 0 where
  pub crit : ℕ
  pub warn : ℕ
  pub info : ℕ

abbrev pub count_one : OpenCounts → String → OpenCounts
count_one n severity =
    if severity == "critical"
    then record n { crit = suc n.crit }
    else if severity == "warning"
    then record n { warn = suc n.warn }
    else record n { info = suc n.info }

abbrev pub count_open : List LatestCheck → OpenCounts → OpenCounts
count_open [] n = n
count_open (r ∷ rows) n = count_open rows (if is_open_check r then count_one n r.severity else n)

abbrev pub rollup_from : {F : Type 0} → StatsStore F → List String → OpenCounts → Result OpenCounts
rollup_from stats [] n = ok n
rollup_from stats (sid ∷ sids) n =
    stats.latest_checks_results sid >>= λ rows. rollup_from stats sids (count_open rows n)

abbrev pub rollup_open_checks : {F : Type 0} → StatsStore F → List String → Result OpenCounts
rollup_open_checks stats sids = rollup_from stats sids (record { crit = 0; warn = 0; info = 0 })

pub record ServerSettings : Type 0 where
  pub version : String
  pub max_conns : ℤ

-- `version_text` writes "major.minor".
module _ (version_text : ℕ → ℕ → String) where
  abbrev pub version_of : Option ℤ → String
  version_of none = ""
  version_of (some (negsuc n)) = ""
  version_of (some (pos zero)) = ""
  version_of (some (pos (suc n))) = version_text (suc n / 10000) (suc n % 10000)

  abbrev pub format_server_version : String → String
  format_server_version raw = version_of (parse_int (codes raw))

  abbrev pub parsed_or : ℤ → Option ℤ → ℤ
  parsed_or old none = old
  parsed_or old (some n) = n

  -- A later row of one name replaces the earlier one.
  abbrev pub read_settings : List SettingRow → ServerSettings → ServerSettings
  read_settings [] s = s
  read_settings (r ∷ rows) s = read_settings rows (
      if r.name == "server_version_num"
      then record s { version = format_server_version r.value }
      else if r.name == "max_connections"
      then record s { max_conns = parsed_or s.max_conns (parse_int (codes r.value)) }
      else s)

  abbrev pub settings_for_server : {F : Type 0} → StatsStore F → String → Result ServerSettings
  settings_for_server stats sid = stats.latest_settings sid >>= λ rows.
      ok (read_settings rows (record { version = ""; max_conns = pos 0 }))

  module _ (f64 : Float64) (cfg : Config) (stats : StatsStore f64.F) where
    abbrev pub avg_latency : Throughput f64.F → f64.F
    avg_latency tp =
        if ltz (pos 0) tp.calls
        then f64.div tp.total_time_ms (f64.of_int tp.calls)
        else f64.literal "0"

    abbrev pub empty_summary : Cluster → List Instance → List String → ClusterSummary f64.F
    empty_summary cl instances sids = record {
      cluster = cl;
      instance_count = length instances;
      stream_count = length sids;
      calls = pos 0;
      avg_latency_ms = f64.literal "0";
      qps_buckets = [];
      active_conns = pos 0;
      top_wait = "";
      insight_count = 0;
      crit_open = 0;
      warn_open = 0;
      info_open = 0;
      version = "";
    }

    abbrev pub filled : ClusterSummary f64.F → List String → Result (ClusterSummary f64.F)
    filled sum [] = ok sum
    filled sum (sid ∷ sids) = stats.throughput_for_servers (sid ∷ sids) >>= λ tp.
        stats.qps_buckets_for_servers (sid ∷ sids) >>= λ buckets.
        stats.activity_summary_for_servers (sid ∷ sids) >>= λ act.
        stats.insight_count_for_servers (sid ∷ sids) >>= λ insights.
        rollup_open_checks stats (sid ∷ sids) >>= λ counts.
        settings_for_server stats sid >>= λ settings. ok (record sum {
          calls = tp.calls;
          avg_latency_ms = avg_latency tp;
          qps_buckets = buckets;
          active_conns = act.active_conns;
          top_wait = act.top_wait;
          insight_count = insights;
          crit_open = counts.crit;
          warn_open = counts.warn;
          info_open = counts.info;
          version = settings.version;
        })

    abbrev pub summaries_of : List Cluster → Result (List (ClusterSummary f64.F))
    summaries_of [] = ok []
    summaries_of (cl ∷ cls) = cfg.server_ids_for_cluster cl.id >>= λ sids.
        cfg.list_instances cl.id >>= λ instances.
        filled (empty_summary cl instances sids) sids >>= λ sum.
        summaries_of cls >>= λ rest. ok (sum ∷ rest)

    -- The first query that fails ends it. A cluster without streams has an empty summary.
    unfoldable pub list_cluster_summaries : Result (List (ClusterSummary f64.F))
    list_cluster_summaries = cfg.list_clusters >>= summaries_of
