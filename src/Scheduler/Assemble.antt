-- ===== src/Scheduler/Assemble.antt =====
-- internal/checks/scheduler.go (`assembleInput`): a server's latest rows as the input of the checks.
use lynceus.Prelude.{
  String, if◌then◌else◌, Option, none, some, List, [], ◌∷◌, ◌++◌, map, string_eq, ◌==◌,
}
use lynceus.Prelude.Result.{Result, ok, err, ◌>>=◌}
use lynceus.Prelude.Dict.{Dict, put}
use lynceus.Ingest.Rows.{
  TableStatRow, FreezeAgeRow, XminHorizonRow, ConnectionSampleRow, BlockingEdgeRow, SettingRow,
  IndexStatRow,
}
use lynceus.Checks.{
  TableInfo, FreezeInfo, XminInfo, ConnInfo, BlockEdge, SettingInfo, IndexInfo, IndexRec, Input,
}
use lynceus.Advisor.Index.{AdvisedPlan, Candidates, IndexRecommendation, recommend_indexes}
use lynceus.Advisor.Index

pub record PlanKey : Type 0 where
  pub server_id : String
  pub fingerprint : String

-- What the store's queries answer for a server at the tick's time.
pub record Latest : Type 0 where
  pub table_stats : String → Result (List TableStatRow)
  pub freeze_ages : String → Result (List FreezeAgeRow)
  pub xmin_horizon : String → Result (Option XminHorizonRow)
  pub connection_samples : String → Result (List ConnectionSampleRow)
  pub blocking_edges : String → Result (List BlockingEdgeRow)
  pub settings : String → Result (List SettingRow)
  pub index_stats : String → Result (List IndexStatRow)
  pub plan_keys : Result (List PlanKey)
  pub top_plans : (server fingerprint : String) → Result (List AdvisedPlan)

abbrev pub to_table : TableStatRow → TableInfo
to_table t = record {
  relation = t.fqn;
  live_tuples = t.live_tuples;
  dead_tuples = t.dead_tuples;
  n_mod_since_analyze = t.n_mod_since_analyze;
  seq_scan = t.seq_scan;
  idx_scan = t.idx_scan;
}

abbrev pub to_freeze : FreezeAgeRow → FreezeInfo
to_freeze f = record {
  scope = f.scope;
  relation = f.fqn;
  xid_age = f.xid_age;
  mxid_age = f.mxid_age;
  autovacuum_freeze_max_age = f.autovacuum_freeze_max_age;
}

abbrev pub to_xmin : Option XminHorizonRow → Option XminInfo
to_xmin none = none
to_xmin (some x) =
    some (record { oldest_xmin_age = x.oldest_xmin_age; holder_kind = x.holder_kind })

abbrev pub to_conn : ConnectionSampleRow → ConnInfo
to_conn c = record {
  pid = c.pid;
  state = c.state;
  active_seconds = c.active_seconds;
  xact_seconds = c.xact_seconds;
  state_seconds = c.state_seconds;
  wait_event_type = c.wait_event_type;
}

abbrev pub to_edge : BlockingEdgeRow → BlockEdge
to_edge e = record {
  blocked_pid = e.blocked_pid;
  blocker_pid = e.blocker_pid;
  blocked_wait_seconds = e.blocked_wait_seconds;
}

abbrev pub to_setting : SettingRow → SettingInfo
to_setting s = record {
  name = s.name;
  value = s.value;
  unit = s.unit;
  source = s.source;
  pending_restart = s.pending_restart;
}

abbrev pub to_index : IndexStatRow → IndexInfo
to_index ix = record {
  schema = ix.schema_name;
  name = ix.object_name;
  fqn = ix.fqn;
  table_fqn = ix.table_fqn;
  idx_scan = ix.idx_scan;
  size_bytes = ix.size_bytes;
  is_valid = ix.is_valid;
  is_ready = ix.is_ready;
  is_unique = ix.is_unique;
  is_primary = ix.is_primary;
}

abbrev pub to_rec : IndexRecommendation → IndexRec
to_rec r = record {
  relation = r.relation;
  columns = r.columns;
  query_count = r.query_count;
  total_bytes = r.total_bytes;
  seq_scans = r.seq_scans;
}

-- A later table of one name replaces the earlier one.
abbrev pub sizes : List TableStatRow → Dict String Index.TableInfo → Dict String Index.TableInfo
sizes [] m = m
sizes (t ∷ ts) m =
    sizes ts (put t.object_name (record { total_bytes = t.total_bytes; seq_scans = t.seq_scan }) m)

-- A query whose plans cannot be read is left out.
abbrev pub plans_or_none : Result (List AdvisedPlan) → List AdvisedPlan
plans_or_none (err e) = []
plans_or_none (ok ps) = ps

module _ (comparisons : String → List (String × String)) (visited : Candidates → Candidates)
    (db : Latest) where
  abbrev pub server_plans : String → List PlanKey → List AdvisedPlan
  server_plans server [] = []
  server_plans server (k ∷ ks) =
      let rest = server_plans server ks in
      if k.server_id == server
      then plans_or_none (db.top_plans server k.fingerprint) ++ rest
      else rest

  -- Without the list of plans there is no advice on indexes, and no error.
  abbrev pub index_recs : String → List TableStatRow → Result (List PlanKey) → List IndexRec
  index_recs server tables (err e) = []
  index_recs server tables (ok keys) =
      map to_rec
        (recommend_indexes comparisons visited (server_plans server keys) (sizes tables []))

  -- The first query that fails ends it.
  unfoldable pub assemble_input : String → Result Input
  assemble_input server = db.table_stats server >>= λ tables. db.freeze_ages server >>= λ freezes.
      db.xmin_horizon server >>= λ xmin. db.connection_samples server >>= λ conns.
      db.blocking_edges server >>= λ edges. db.settings server >>= λ settings.
      db.index_stats server >>= λ indexes. ok (record {
        server_id = server;
        table_stats = map to_table tables;
        freeze_ages = map to_freeze freezes;
        index_recs = index_recs server tables db.plan_keys;
        connections = map to_conn conns;
        blocking = map to_edge edges;
        indexes = map to_index indexes;
        xmin_horizon = to_xmin xmin;
        settings = map to_setting settings;
      })
