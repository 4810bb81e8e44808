-- ===== src/Console/Handlers/Guarded.antt =====
-- internal/api/console.go: no statement runs and no result leaves without a grant and an audit row.
use mathlib.Core.List.Memᴰ
use lynceus.Prelude.{Memᴰ, ℕ, Bool, true, false, ◌≡◌, List, []}
use lynceus.Prelude.Result.{Error, Result, ok, err}
use lynceus.Audit.Canonical.{Bytes, Codec}
use lynceus.Audit.Log.{Faults}
use lynceus.Console.Handlers.{Cluster, Server, Request, Response, ConsoleState, cluster_name_of}
use lynceus.Console.Handlers.Execute.{run_response}
use lynceus.Console.Handlers.Shown.{ShowsHeld}
use lynceus.Console.Handlers.Ran.{HasRun, NoTarget}

module _ (s : Server) (c : Codec) (f : Faults) (now : ℕ) (req : Request) (w : ConsoleState) where
  abbrev pub IsNameOf : (cluster name : Bytes) → Type 0
  IsNameOf cluster name =
      (ks : List Cluster) × (s.list_clusters ≡ ok ks) × (name ≡ cluster_name_of cluster ks)

  -- A statement ran under a grant, and what is answered is what the run came to.
  abbrev pub HasServed : Bytes → Response × ConsoleState → Type 0
  HasServed cluster p =
      (name : Bytes) × (r : Result Bool × ConsoleState) × IsNameOf cluster name
      × (s.active_grant cluster name req.actor ≡ ok true)
      × HasRun s c f now req w cluster name (s.trim_space req.sql) r
      × (p ≡ run_response s c f now req w r)
      × ShowsHeld s req p

  -- Why nothing runs. The cluster's name is the one that the config store has.
  pub data IsBlocked (cluster : Bytes) : Type 0 where
    no_scope : cluster ≡ [] → IsBlocked cluster
    no_clusters : (x : Error) → s.list_clusters ≡ err x → IsBlocked cluster
    no_name :
        (ks : List Cluster)
        → s.list_clusters ≡ ok ks
        → cluster_name_of cluster ks ≡ []
        → IsBlocked cluster
    grant_failed :
        (name : Bytes) (x : Error)
        → IsNameOf cluster name
        → s.active_grant cluster name req.actor ≡ err x
        → IsBlocked cluster
    not_granted :
        (name : Bytes)
        → IsNameOf cluster name
        → s.active_grant cluster name req.actor ≡ ok false
        → IsBlocked cluster
    untargeted : NoTarget s c f now req w cluster (s.trim_space req.sql) → IsBlocked cluster

  -- Nothing ran, nothing was logged or kept, and there is a reason.
  abbrev pub IsRefused : Bytes → Response × ConsoleState → Type 0
  IsRefused cluster p = (p.1 ≡ w) × ShowsHeld s req p × IsBlocked cluster
