-- ===== src/Console/Handlers/Execute.antt =====
-- internal/api/console.go: a statement's run, by hand or handed over from a saved script.
use lynceus.Prelude.{
  ℕ, Bool, true, false, not, ◌||◌, if◌then◌else◌, Option, none, some, List, [], ◌∷◌, length, ◌==◌,
  bytes_eq,
}
use lynceus.Prelude.Text.{codes}
use lynceus.Prelude.Result.{Result, ok, err}
use lynceus.Audit.Canonical.{Bytes, yes, text, number, object, no_members, member, Codec}
use lynceus.Audit.Log.{AuditEntry, AuditRecord, AuditLog, Faults, append_audit_returning}
use lynceus.Console.{ConsoleResult}
use lynceus.Console.Sessions.{Run, append}
use lynceus.Console.Handlers.{
  Cluster, ServerStream, Statement, Server, Request, Response, not_found, failed, ConsoleState,
  console_row_limit, console_timeout_secs, hex_encode, short_hash, resolve_console_target,
  cluster_name_of, console_cluster_from_query, console_script_sql,
}
use lynceus.Console.Handlers.Page.{render_console_body}
use lynceus.UiScope.{parse}

abbrev pub statement_of : Request → Bytes → Bytes → Bytes → ServerStream → Statement
statement_of req cluster name sql st = record {
  cluster_id = cluster;
  cluster_name = name;
  node = req.node;
  database = req.db;
  server_id = st.server_id;
  sql = sql;
  row_limit = console_row_limit;
  timeout_secs = console_timeout_secs;
  actor = req.actor;
}

abbrev pub run_entry : Server → Codec → Request → Bytes → ServerStream → ConsoleResult → AuditEntry
run_entry s c req sql st res = record {
  actor = req.actor;
  action = codes "console.query.execute";
  server_id = st.server_id;
  data_tier = 2;
  detail = some (
      object (
        member (codes "target_node") (text req.node) (
          member (codes "target_database") (text req.db) (
            member (codes "statement") (text sql) (
              member (codes "statement_sha256") (text (hex_encode (c.sha256 sql))) (
                member (codes "duration_ms") (number (s.float_text res.duration_ms)) (
                  member (codes "row_count") (number (s.decimal (length res.rows))) (
                    member (codes "row_limit") (number (s.decimal console_row_limit)) (
                      member (codes "timeout_secs") (number (s.decimal console_timeout_secs))
                        (member (codes "read_only") yes no_members))))))))));
}

abbrev pub run_of : Request → Bytes → Bytes → ConsoleResult → AuditRecord → Run
run_of req cluster sql res rec = record {
  id = hex_encode rec.row_hash;
  short_hash = short_hash rec.row_hash;
  cluster_id = cluster;
  at = rec.at;
  sql = sql;
  node = req.node;
  database = req.db;
  result = res;
  duration_ms = res.duration_ms;
}

module _ (s : Server) (c : Codec) (f : Faults) (now : ℕ) (req : Request) (w : ConsoleState) where
  -- The result is kept only when its audit row is.
  abbrev pub after_audit :
      Bytes
      → Bytes
      → Statement
      → ConsoleResult
      → Result AuditRecord × AuditLog
      → Result Bool × ConsoleState
  after_audit cluster sql stmt res (err x, log) =
      (err x, record w { log = log; executed = stmt ∷ w.executed })
  after_audit cluster sql stmt res (ok rec, log) = (
    ok true,
    record {
      log = log;
      sessions = append w.sessions req.actor cluster (run_of req cluster sql res rec);
      executed = stmt ∷ w.executed;
    },
  )

  abbrev pub after_execute :
      Bytes → Bytes → ServerStream → Statement → Result ConsoleResult → Result Bool × ConsoleState
  after_execute cluster sql st stmt (err x) = (err x, record w { executed = stmt ∷ w.executed })
  after_execute cluster sql st stmt (ok res) =
      after_audit cluster sql stmt res
        (append_audit_returning c f w.log (run_entry s c req sql st res) now)

  abbrev pub after_target :
      Bytes → Bytes → Bytes → Result (Option ServerStream) → Result Bool × ConsoleState
  after_target cluster name sql (err x) = (err x, w)
  after_target cluster name sql (ok none) = (ok false, w)
  after_target cluster name sql (ok (some st)) =
      if (sql == []) || not st.t2_enabled
      then (ok false, w)
      else let stmt = statement_of req cluster name sql st in
        after_execute cluster sql st stmt (s.execute stmt)

  unfoldable pub run_console_statement : Bytes → Bytes → Bytes → Result Bool × ConsoleState
  run_console_statement cluster name sql =
      after_target cluster name (s.trim_space sql)
        (resolve_console_target s cluster req.node req.db)

  abbrev pub run_response : Result Bool × ConsoleState → Response × ConsoleState
  run_response (err x, later) = (failed "run failed — result withheld", later)
  run_response (ok b, later) = (render_console_body s req later, later)

  abbrev pub after_grant : Bytes → Bytes → Result Bool → Response × ConsoleState
  after_grant cluster name (err x) = (failed "grant check", w)
  after_grant cluster name (ok false) = (render_console_body s req w, w)
  after_grant cluster name (ok true) = run_response (run_console_statement cluster name req.sql)

  abbrev pub after_clusters : Bytes → Result (List Cluster) → Response × ConsoleState
  after_clusters cluster (err x) = (failed "load clusters", w)
  after_clusters cluster (ok ks) =
      let name = cluster_name_of cluster ks in
      if name == []
      then (not_found, w)
      else after_grant cluster name (s.active_grant cluster name req.actor)

  unfoldable pub handle_console_run : Response × ConsoleState
  unfolding parse
  handle_console_run =
      let cluster = (parse req.scope).cluster_id in
      if cluster == [] then (not_found, w) else after_clusters cluster s.list_clusters

  abbrev pub handed_over : Bytes → Bytes → Bytes → ConsoleState
  handed_over cluster name sql = if sql == [] then w else (run_console_statement cluster name sql).1

  abbrev pub if_granted : Cluster → Result Bool → ConsoleState
  if_granted k (err x) = w
  if_granted k (ok false) = w
  if_granted k (ok true) = handed_over k.id k.name (console_script_sql s req.script)

  abbrev pub on_cluster : Option Cluster → ConsoleState
  on_cluster none = w
  on_cluster (some k) = if_granted k (s.active_grant k.id k.name req.actor)

  abbrev pub with_clusters : Result (List Cluster) → ConsoleState
  with_clusters (err x) = w
  with_clusters (ok ks) = on_cluster (console_cluster_from_query req ks)

  unfoldable pub run_console_handoff : ConsoleState
  run_console_handoff = with_clusters s.list_clusters
