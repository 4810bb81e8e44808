-- ===== src/Console/Handlers/Page.antt =====
-- internal/api/console.go: the console's page, of which what it shows of the sessions is modelled.
use lynceus.Prelude.{
  Bool, true, false, Option, none, some, List, [], ◌∷◌, if◌then◌else◌, ◌==◌, bytes_eq,
}
use lynceus.Prelude.Result.{Result, ok, err}
use lynceus.Audit.Canonical.{Bytes}
use lynceus.Console.Sessions.{Run, recent, latest, get_run}
use lynceus.Console.Handlers.{
  Cluster, Instance, Server, Request, ConsoleVm, Response, not_found, page, ConsoleState,
  console_cluster_from_query, console_script_sql,
}

-- The streams of every instance can be listed.
abbrev pub are_listed : Server → List Instance → Bool
are_listed s [] = true
are_listed s (i ∷ is) =
    let rest = are_listed s is in elim (s.list_server_streams i.id) [ err x ↦ false | ok ss ↦ rest ]

abbrev pub editor_text : Server → Request → Option Run → Bytes
editor_text s req (some run) = run.sql
editor_text s req none = console_script_sql s req.script

module _ (s : Server) (req : Request) (w : ConsoleState) where
  -- The run that is restored, or else the latest.
  abbrev pub current_run : Cluster → Option Run
  current_run k =
      if req.restore == []
      then latest w.sessions req.actor k.id
      else get_run w.sessions req.actor k.id req.restore

  abbrev pub vm_of : Cluster → Result Bool → Option ConsoleVm
  vm_of k (err x) = none
  vm_of k (ok false) =
      some (record { granted = false; result = none; history = []; editor_sql = [] })
  vm_of k (ok true) = some (record {
    granted = true;
    result = current_run k;
    history = recent w.sessions req.actor k.id;
    editor_sql = editor_text s req (current_run k);
  })

  abbrev pub with_instances : Cluster → Result (List Instance) → Option ConsoleVm
  with_instances k (err x) = none
  with_instances k (ok is) =
      if are_listed s is then vm_of k (s.active_grant k.id k.name req.actor) else none

  abbrev pub vm_on : Option Cluster → Option ConsoleVm
  vm_on none = none
  vm_on (some k) = with_instances k (s.list_instances k.id)

  abbrev pub vm_among : Result (List Cluster) → Option ConsoleVm
  vm_among (err x) = none
  vm_among (ok ks) = vm_on (console_cluster_from_query req ks)

  unfoldable pub build_console_vm : Option ConsoleVm
  build_console_vm = vm_among s.list_clusters

  abbrev pub answered_with : Option ConsoleVm → Response
  answered_with none = not_found
  answered_with (some vm) = page vm

  unfoldable pub render_console_body : Response
  unfolding build_console_vm
  render_console_body = answered_with build_console_vm
