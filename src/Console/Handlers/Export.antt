-- ===== src/Console/Handlers/Export.antt =====
-- internal/api/console.go: the download of the latest result.
use lynceus.Prelude.{
  ℕ, String, Bool, true, false, if◌then◌else◌, Option, none, some, List, [], length, ◌==◌, bytes_eq,
}
use lynceus.Prelude.Text.{codes}
use lynceus.Prelude.Result.{Result, ok, err}
use lynceus.Audit.Canonical.{Bytes, text, number, object, no_members, member, Codec}
use lynceus.Audit.Log.{AuditEntry, AuditRecord, AuditLog, Faults, append_audit_returning}
use lynceus.Console.Sessions.{Run, latest}
use lynceus.Console.Export.{csv, sql_inserts}
use lynceus.Console.Handlers.{
  Cluster, ServerStream, Server, Request, Response, not_found, missing, failed, forbidden, download,
  ConsoleState, hex_encode, resolve_console_target, console_cluster_from_query,
}

-- Any other format is CSV.
abbrev pub is_sql : Request → Bool
is_sql req = req.format == codes "sql"

abbrev pub export_format : Request → Bytes
export_format req = if is_sql req then codes "sql" else codes "csv"

abbrev pub content_type : Request → String
content_type req =
    if is_sql req then "application/sql; charset=utf-8" else "text/csv; charset=utf-8"

abbrev pub export_body : Request → Run → Bytes
export_body req run = if is_sql req then sql_inserts run.result (codes "result") else csv run.result

-- A target that is not found, or an error, leaves the server out of the audit row.
abbrev pub server_or_empty : Result (Option ServerStream) → Bytes
server_or_empty (err x) = []
server_or_empty (ok none) = []
server_or_empty (ok (some st)) = st.server_id

abbrev pub export_entry : Server → Codec → Request → Bytes → Run → AuditEntry
export_entry s c req cluster run = record {
  actor = req.actor;
  action = codes "console.result.export";
  server_id = server_or_empty (resolve_console_target s cluster run.node run.database);
  data_tier = 2;
  detail = some (
      object (
        member (codes "format") (text (export_format req)) (
          member (codes "row_count") (number (s.decimal (length run.result.rows))) (
            member (codes "statement_sha256") (text (hex_encode (c.sha256 run.sql))) (
              member (codes "target_node") (text run.node)
                (member (codes "target_database") (text run.database) no_members))))));
}

module _ (s : Server) (c : Codec) (f : Faults) (now : ℕ) (req : Request) (w : ConsoleState) where
  abbrev pub after_audit : Run → Result AuditRecord × AuditLog → Response × ConsoleState
  after_audit run (err x, log) = (failed "audit failed — export withheld", record w { log = log })
  after_audit run (ok rec, log) =
      (download (content_type req) (export_body req run), record w { log = log })

  abbrev pub after_latest : Bytes → Option Run → Response × ConsoleState
  after_latest cluster none = (missing "no result to export", w)
  after_latest cluster (some run) =
      after_audit run (append_audit_returning c f w.log (export_entry s c req cluster run) now)

  abbrev pub after_grant : Cluster → Result Bool → Response × ConsoleState
  after_grant k (err x) = (failed "grant check", w)
  after_grant k (ok false) = (forbidden "no active session grant on this cluster", w)
  after_grant k (ok true) = after_latest k.id (latest w.sessions req.actor k.id)

  abbrev pub on_cluster : Option Cluster → Response × ConsoleState
  on_cluster none = (not_found, w)
  on_cluster (some k) = after_grant k (s.active_grant k.id k.name req.actor)

  abbrev pub with_clusters : Result (List Cluster) → Response × ConsoleState
  with_clusters (err x) = (failed "load clusters", w)
  with_clusters (ok ks) = on_cluster (console_cluster_from_query req ks)

  unfoldable pub handle_console_export : Response × ConsoleState
  handle_console_export = with_clusters s.list_clusters
