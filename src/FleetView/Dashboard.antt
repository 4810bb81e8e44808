-- ===== src/FleetView/Dashboard.antt =====
-- internal/fleetview/dashboard.go: `BuildFleetView`.
use lynceus.Prelude.{
  ℕ, zero, suc, ◌+◌, String, Bool, true, false, if◌then◌else◌, Option, none, some, List, [], ◌∷◌,
  ◌++◌, length, ◌==◌, string_eq,
}
use lynceus.Prelude.Int.{ℤ}
use lynceus.Prelude.Sort.{sort}
use lynceus.Prelude.Dict.{Dict, get, put}
use lynceus.Prelude.Result.{Result, ok, ◌>>=◌}
use lynceus.Checks.Vacuum.{Float64}
use lynceus.FleetView.{
  Instance, ServerStream, QpsBucket, LatestCheck, TopInsight, Config, StatsStore, Sev, crit, warn,
  info, norm_sev, is_open_check,
}
use lynceus.FleetView.Items.{AttentionItem, place_order, place_of, check_id, insight_kind}
use lynceus.FleetView.Summary.{ClusterSummary, list_cluster_summaries}

pub record FleetCluster (F : Type 0) : Type 0 where
  pub cluster_id : String
  pub name : String
  pub version : String
  pub provider : String
  pub provider_name : String
  pub engine : String
  pub engine_icon : String
  pub health : String
  pub health_sev : Sev
  pub crit : ℕ
  pub warn : ℕ
  pub info : ℕ
  pub qps : F
  pub latency_ms : F
  pub active_conns : ℤ
  pub top_wait : String

pub record View (F : Type 0) : Type 0 where
  pub clusters : List (FleetCluster F)
  pub attention : List AttentionItem
  pub open_crit : ℕ
  pub open_warn : ℕ
  pub open_info : ℕ
  pub cluster_count : ℕ
  pub node_count : ℕ
  pub database_count : ℕ
  pub healthy : Bool

-- The names that a cluster's streams give: of each server's node, and of the databases.
pub record Names : Type 0 where
  pub by_server : Dict String String
  pub databases : Dict String (Unit {0})

abbrev pub add_streams : String → List ServerStream → Names → Names
add_streams node [] n = n
add_streams node (s ∷ streams) n = add_streams node streams (record {
  by_server = put s.server_id node n.by_server;
  databases = if s.database_name == "" then n.databases else put s.database_name tt n.databases;
})

abbrev pub read_names : Config → List Instance → Names → Result Names
read_names cfg [] n = ok n
read_names cfg (i ∷ instances) n = cfg.list_server_streams i.id >>= λ streams.
    read_names cfg instances (add_streams i.name streams n)

abbrev pub named_or : String → Option String → String
named_or sid none = sid
named_or sid (some n) = if n == "" then sid else n

abbrev pub name_of : Names → String → String
name_of n sid = named_or sid (get sid n.by_server)

abbrev pub bump : {F : Type 0} → FleetCluster F → Sev → FleetCluster F
bump fc crit = record fc { crit = suc fc.crit }
bump fc warn = record fc { warn = suc fc.warn }
bump fc info = record fc { info = suc fc.info }

abbrev pub derive_health : (crit warn : ℕ) → String × Sev
derive_health (suc c) w = ("DEGRADED", crit)
derive_health zero (suc w) = ("WARNING", warn)
derive_health zero zero = ("HEALTHY", info)

-- A cluster in the making, and the list that all of them add to.
pub record Open (F : Type 0) : Type 0 where
  pub cluster : FleetCluster F
  pub attention : List AttentionItem

abbrev pub check_item : (cluster : String) → Names → (sid : String) → LatestCheck → AttentionItem
check_item cl names sid ch = record {
  kind = "check";
  id = check_id ch.check_id;
  detail = ch.detail;
  sev = norm_sev ch.severity;
  server_id = sid;
  server_name = name_of names sid;
  cluster_id = cl;
  category = ch.category;
  check_id = ch.check_id;
  fingerprint = "";
  at = ch.evaluated_at;
}

abbrev pub insight_item : (cluster : String) → Names → TopInsight → AttentionItem
insight_item cl names x = record {
  kind = "insight";
  id = insight_kind x.kind;
  detail = x.detail;
  sev = norm_sev x.severity;
  server_id = x.server_id;
  server_name = name_of names x.server_id;
  cluster_id = cl;
  category = "";
  check_id = "";
  fingerprint = x.fingerprint;
  at = x.captured_at;
}

abbrev pub add_item : {F : Type 0} → Open F → AttentionItem → Open F
add_item o x = record { cluster = bump o.cluster x.sev; attention = o.attention ++ x ∷ [] }

module _ {F : Type 0} (cl : String) (names : Names) where
  unfoldable pub add_checks : (sid : String) → List LatestCheck → Open F → Open F
  add_checks sid [] o = o
  add_checks sid (ch ∷ checks) o =
      add_checks sid checks
        (if is_open_check ch then add_item o (check_item cl names sid ch) else o)

  unfoldable pub add_insights : List TopInsight → Open F → Open F
  add_insights [] o = o
  add_insights (x ∷ xs) o = add_insights xs (add_item o (insight_item cl names x))

  unfoldable pub add_servers : StatsStore F → List String → Open F → Result (Open F)
  add_servers stats [] o = ok o
  add_servers stats (sid ∷ sids) o =
      stats.latest_checks_results sid >>= λ checks. add_servers stats sids (add_checks sid checks o)

abbrev pub empty_view : {F : Type 0} → (cluster_count : ℕ) → View F
empty_view n = record {
  clusters = [];
  attention = [];
  open_crit = 0;
  open_warn = 0;
  open_info = 0;
  cluster_count = n;
  node_count = 0;
  database_count = 0;
  healthy = false;
}

abbrev pub with_health : {F : Type 0} → FleetCluster F → FleetCluster F
with_health fc =
    let health = derive_health fc.crit fc.warn in
    record fc { health = health.0; health_sev = health.1 }

abbrev pub close_cluster : {F : Type 0} → (nodes databases : ℕ) → View F → Open F → View F
close_cluster nodes databases fv o = record fv {
  clusters = fv.clusters ++ with_health o.cluster ∷ [];
  attention = o.attention;
  open_crit = fv.open_crit + o.cluster.crit;
  open_warn = fv.open_warn + o.cluster.warn;
  open_info = fv.open_info + o.cluster.info;
  node_count = fv.node_count + nodes;
  database_count = fv.database_count + databases;
}

abbrev pub is_empty : List AttentionItem → Bool
is_empty [] = true
is_empty (x ∷ xs) = false

abbrev pub finish_view : {F : Type 0} → View F → View F
finish_view fv =
    let sorted = sort place_of fv.attention in
    record fv { attention = sorted; healthy = is_empty sorted }

module _ (version_text : ℕ → ℕ → String) (f64 : Float64) (cfg : Config)
    (stats : StatsStore f64.F) where
  abbrev pub last_qps : List QpsBucket → f64.F
  last_qps [] = f64.literal "0"
  last_qps (b ∷ []) = f64.div (f64.of_int b.calls) (f64.literal "3600.0")
  last_qps (b ∷ c ∷ bs) = last_qps (c ∷ bs)

  -- Nothing fills in the version and the provider.
  abbrev pub new_cluster : ClusterSummary f64.F → FleetCluster f64.F
  new_cluster sum = record {
    cluster_id = sum.cluster.id;
    name = sum.cluster.name;
    version = "";
    provider = "";
    provider_name = "";
    engine = "POSTGRESQL";
    engine_icon = "eng-pg";
    health = "";
    health_sev = info;
    crit = 0;
    warn = 0;
    info = 0;
    qps = last_qps sum.qps_buckets;
    latency_ms = sum.avg_latency_ms;
    active_conns = sum.active_conns;
    top_wait = sum.top_wait;
  }

  unfoldable pub add_clusters : List (ClusterSummary f64.F) → View f64.F → Result (View f64.F)
  add_clusters [] fv = ok fv
  add_clusters (sum ∷ sums) fv = cfg.server_ids_for_cluster sum.cluster.id >>= λ sids.
      cfg.list_instances sum.cluster.id >>= λ instances.
      read_names cfg instances (record { by_server = []; databases = [] }) >>= λ names.
      add_servers sum.cluster.id names stats sids
        (record { cluster = new_cluster sum; attention = fv.attention })
      >>= λ o. stats.top_insights_for_servers sids 50 >>= λ insights. add_clusters sums (
          close_cluster sum.instance_count (length names.databases) fv
            (add_insights sum.cluster.id names insights o))

  unfoldable pub build_fleet_view : Result (View f64.F)
  build_fleet_view = list_cluster_summaries version_text f64 cfg stats >>= λ sums.
      add_clusters sums (empty_view (length sums)) >>= λ fv. ok (finish_view fv)
