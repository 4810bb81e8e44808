-- ===== src/FleetView/Tests.antt =====
-- internal/fleetview: one cluster with two firing checks, of which one is muted, and an insight.
use lynceus.Prelude.{ℕ, ◌≡◌, refl, String, Bool, true, false, [], ◌∷◌}
use lynceus.Prelude.Int.{pos}
use lynceus.Prelude.Result.{ok}
use lynceus.Prelude.Sort.{sort}
use lynceus.Prelude.Dict.{put}
use lynceus.Checks.Tests.{whole}
use lynceus.FleetView.{LatestCheck, TopInsight, Config, StatsStore, crit}
use lynceus.FleetView.Summary.{list_cluster_summaries}
use lynceus.FleetView.Dashboard.{
  View, Names, check_item, insight_item, add_checks, add_insights, add_servers, add_clusters,
  build_fleet_view,
}
use lynceus.FleetView.Tally.{IsFleet, build_fleet_view-IsFleet}

abbrev check : String → Bool → LatestCheck
check severity muted = record {
  check_id = "vacuum.wraparound";
  category = "vacuum";
  severity = severity;
  status = "firing";
  detail = "old transactions";
  muted = muted;
  evaluated_at = pos 100;
}

abbrev slow_scan : TopInsight
slow_scan = record {
  server_id = "s1";
  captured_at = pos 50;
  kind = "slow_scan";
  severity = "high";
  fingerprint = "fp";
  detail = "scan";
}

abbrev config : Config
config = record {
  list_clusters = ok (record { id = "c1"; name = "main" } ∷ []);
  server_ids_for_cluster = λ c. ok ("s1" ∷ []);
  list_instances = λ c. ok (record { id = "i1"; name = "node"; role = "primary" } ∷ []);
  list_server_streams = λ i. ok (record { server_id = "s1"; database_name = "app" } ∷ []);
}

abbrev stats : StatsStore whole.F
stats = record {
  throughput_for_servers = λ s. ok (record { calls = pos 4; total_time_ms = 8 });
  qps_buckets_for_servers = λ s. ok (record { bucket_start = pos 0; calls = pos 7200 } ∷ []);
  activity_summary_for_servers = λ s. ok (record { active_conns = pos 3; top_wait = "" });
  insight_count_for_servers = λ s. ok 1;
  latest_checks_results = λ s. ok (check "warning" false ∷ check "critical" true ∷ []);
  latest_settings = λ s. ok [];
  top_insights_for_servers = λ s n. ok (slow_scan ∷ []);
}

abbrev text : ℕ → ℕ → String
text major minor = "16.3"

abbrev names : Names
names = record { by_server = ("s1", "node") ∷ []; databases = ("app", tt) ∷ [] }

abbrev view : View whole.F
view = record {
  clusters =
      record {
        cluster_id = "c1";
        name = "main";
        version = "";
        provider = "";
        provider_name = "";
        engine = "POSTGRESQL";
        engine_icon = "eng-pg";
        health = "DEGRADED";
        health_sev = crit;
        crit = 1;
        warn = 1;
        info = 0;
        qps = 7200;
        latency_ms = 8;
        active_conns = pos 3;
        top_wait = "";
      }
      ∷ [];
  attention =
      insight_item "c1" names slow_scan ∷ check_item "c1" names "s1" (check "warning" false) ∷ [];
  open_crit = 1;
  open_warn = 1;
  open_info = 0;
  cluster_count = 1;
  node_count = 1;
  database_count = 1;
  healthy = false;
}

view_runs : build_fleet_view text whole config stats ≡ ok view
unfolding build_fleet_view add_clusters add_servers add_checks add_insights list_cluster_summaries
    sort put
view_runs = refl

build_fleet_view-IsFleet_example : IsFleet view
build_fleet_view-IsFleet_example = build_fleet_view-IsFleet text whole config stats view view_runs
