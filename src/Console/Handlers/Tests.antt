-- ===== src/Console/Handlers/Tests.antt =====
-- internal/api/console.go: a statement that runs, and the download of its result.
use lynceus.Prelude.{map, true, ◌≡◌, refl, none, [], ◌∷◌}
use lynceus.Prelude.Text.{codes}
use lynceus.Prelude.Dict.{get, put}
use lynceus.Prelude.Result.{ok}
use lynceus.Audit.Canonical.{Bytes, canonical_json}
use lynceus.Audit.Log.{
  AuditLog, no_faults, canonical_detail, append_audit_tx, append_audit_returning,
}
use lynceus.Console.{ConsoleResult}
use lynceus.Console.Sessions.{Run, append, latest, recent}
use lynceus.Console.Export.{csv, csv_field}
use lynceus.Console.Handlers.{
  Server, Request, download, ConsoleState, resolve_console_target, console_cluster_from_query,
}
use lynceus.Console.Handlers.Execute.{run_console_statement, handle_console_run}
use lynceus.Console.Handlers.Export.{handle_console_export}
use lynceus.Console.Handlers.Page.{build_console_vm, render_console_body}
use lynceus.Console.Handlers.Shown.{shown}
use lynceus.T2Read.Tests.{codec}
use lynceus.UiScope.{cut, parse}

abbrev result : ConsoleResult
result = record { columns = codes "n" ∷ []; rows = (codes "42" ∷ []) ∷ []; duration_ms = 0 }

abbrev server : Server
server = record {
  list_clusters = ok (record { id = codes "c1"; name = codes "orders" } ∷ []);
  list_instances = λ cluster. ok (record { id = codes "i1"; name = codes "n1" } ∷ []);
  list_server_streams = λ i.
      ok (record { server_id = codes "s1"; database_name = codes "app"; t2_enabled = true } ∷ []);
  get_visible_script = λ id. ok none;
  active_grant = λ cluster name actor. ok true;
  execute = λ stmt. ok result;
  trim_space = λ b. b;
  float_text = λ n. codes "0";
  decimal = λ n. codes "1";
}

abbrev request : Request
request = record {
  scope = codes "cluster:c1";
  cluster = [];
  script = [];
  restore = [];
  node = codes "n1";
  db = codes "app";
  sql = codes "select n";
  format = [];
  actor = codes "ann";
}

abbrev empty_log : AuditLog
empty_log = record { rows = []; last_value = 0 }

abbrev start : ConsoleState
start = record { log = empty_log; sessions = record { by_key = []; cap = 5 }; executed = [] }

abbrev later : ConsoleState
later = (handle_console_run server codec no_faults 5 request start).1

abbrev sql_of : Run → Bytes
sql_of r = r.sql

-- The page shows the run that was made, as the result and in the history.
run_ok :
    map sql_of (shown (handle_console_run server codec no_faults 5 request start).0)
    ≡ codes "select n" ∷ codes "select n" ∷ []
unfolding handle_console_run run_console_statement resolve_console_target parse cut
    append_audit_returning append_audit_tx canonical_detail canonical_json render_console_body
    build_console_vm console_cluster_from_query append latest recent get put
run_ok = refl

export_ok :
    (handle_console_export server codec no_faults 6 request later).0
    ≡ download "text/csv; charset=utf-8" (codes "n\n42\n")
unfolding handle_console_export handle_console_run run_console_statement resolve_console_target
    console_cluster_from_query parse cut append_audit_returning append_audit_tx canonical_detail
    canonical_json append latest recent csv csv_field get put
export_ok = refl
