-- ===== src/Console/Handlers/Egress.antt =====
-- internal/api/console.go: a result that is downloaded, and a script that is handed over.
use lynceus.Prelude.{ℕ, Bool, true, false, ◌≡◌, ◌⊎◌, none, some, List, bytes_eq}
use lynceus.Prelude.Text.{codes}
use lynceus.Prelude.Result.{Error, Result, ok, err}
use lynceus.Audit.Canonical.{Codec}
use lynceus.Audit.Log.{AuditRecord, Faults, append_audit_returning}
use lynceus.Console.Sessions.{Run, latest}
use lynceus.Console.Handlers.{
  Cluster, Server, Request, Response, download, ConsoleState, resolve_console_target,
  console_cluster_from_query,
}
use lynceus.Console.Handlers.Export.{content_type, export_body, export_entry, server_or_empty}
use lynceus.Console.Handlers.Ran.{IsLogged}

abbrev pub is_download : Response → Bool
is_download (download kind body) = true
is_download r = false

module _ (s : Server) (c : Codec) (f : Faults) (now : ℕ) (req : Request) (w : ConsoleState) where
  -- The run is the actor's latest on a cluster with an active grant, and its export is logged.
  abbrev pub HasSent : Cluster → Response × ConsoleState → Type 0
  HasSent k p =
      (run : Run) × (rec : AuditRecord) × (s.active_grant k.id k.name req.actor ≡ ok true)
      × (latest w.sessions req.actor k.id ≡ some run)
      × (p.0 ≡ download (content_type req) (export_body req run))
      × IsLogged req.actor (codes "console.result.export")
          (server_or_empty (resolve_console_target s k.id run.node run.database)) rec p.1.log
          w.log.rows

  abbrev pub IsNamed : Cluster → Type 0
  IsNamed k =
      (ks : List Cluster) × (s.list_clusters ≡ ok ks) × (console_cluster_from_query req ks ≡ some k)

  -- The cluster is the one that the request names.
  abbrev pub HasExported : Response × ConsoleState → Type 0
  HasExported p = (k : Cluster) × IsNamed k × HasSent k p

  -- Why nothing is sent of a cluster.
  pub data IsHeld (k : Cluster) : Type 0 where
    grant_failed : (x : Error) → s.active_grant k.id k.name req.actor ≡ err x → IsHeld k
    not_granted : s.active_grant k.id k.name req.actor ≡ ok false → IsHeld k
    no_run : latest w.sessions req.actor k.id ≡ none → IsHeld k
    unaudited :
        (run : Run) (x : Error)
        → latest w.sessions req.actor k.id ≡ some run
        → (append_audit_returning c f w.log (export_entry s c req k.id run) now).0 ≡ err x
        → IsHeld k

  -- Why nothing is sent.
  pub data IsBarred : Type 0 where
    no_clusters : (x : Error) → s.list_clusters ≡ err x → IsBarred
    no_cluster :
        (ks : List Cluster)
        → s.list_clusters ≡ ok ks
        → console_cluster_from_query req ks ≡ none
        → IsBarred
    held : (k : Cluster) → IsNamed k → IsHeld k → IsBarred

  abbrev pub KeepsRest : Response × ConsoleState → Type 0
  KeepsRest p = (p.1.sessions ≡ w.sessions) × (p.1.executed ≡ w.executed)

  abbrev Audited : Type 0 → (Response × ConsoleState → Type 0) → Response × ConsoleState → Type 0
  Audited R P p = KeepsRest p × (((is_download p.0 ≡ false) × R) ⊎ P p)
