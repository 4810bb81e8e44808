-- ===== src/Console/Handlers/Handoff.antt =====
-- internal/api/console.go: a script that is handed over runs as a statement does.
use lynceus.Prelude.{
  ℕ, Bool, true, false, [], ◌≡◌, ◌⊎◌, inl, inr, refl, Option, none, some, List, ◌==◌, bytes_eq,
  Bool-cases,
}
use lynceus.Prelude.Result.{Result, ok, err}
use lynceus.Audit.Canonical.{Codec}
use lynceus.Audit.Log.{Faults}
use lynceus.Console.Handlers.{
  Cluster, Server, Request, ConsoleState, resolve_console_target, console_cluster_from_query,
  console_script_sql,
}
use lynceus.Console.Handlers.Execute.{
  run_console_statement, handed_over, if_granted, on_cluster, with_clusters, run_console_handoff,
}
use lynceus.Console.Handlers.Ran.{HasRun, targeted}

module _ (s : Server) (c : Codec) (f : Faults) (now : ℕ) (req : Request) (w : ConsoleState) where
  -- The script ran, under a grant on a cluster.
  abbrev pub HasHanded : ConsoleState → Type 0
  HasHanded later =
      (k : Cluster) × (r : Result Bool × ConsoleState) × (s.active_grant k.id k.name req.actor
        ≡ ok true)
      × HasRun s c f now req w k.id k.name (s.trim_space (console_script_sql s req.script)) r
      × (later ≡ r.1)

  abbrev IsHandled : ConsoleState → Type 0
  IsHandled later = (later ≡ w) ⊎ HasHanded later

  handed :
      (k : Cluster)
      → s.active_grant k.id k.name req.actor ≡ ok true
      → IsHandled (handed_over s c f now req w k.id k.name (console_script_sql s req.script))
  unfolding run_console_statement
  handed k g =
      let sql = console_script_sql s req.script in
      elim (Bool-cases (sql == [])) [
        | inl q ↦ rw q (inl refl)
        | inr q ↦
            elim (targeted s c f now req w k.id k.name (s.trim_space sql)
              (resolve_console_target s k.id req.node req.db) refl) [
                | inl h ↦ rw q (inl h.0)
                | inr h ↦
                    rw q
                      (inr (k, run_console_statement s c f now req w k.id k.name sql, g, h, refl))
              ]
      ]

  granted :
      (k : Cluster) (g : Result Bool)
      → s.active_grant k.id k.name req.actor ≡ g
      → IsHandled (if_granted s c f now req w k g)
  granted k (err x) h = inl refl
  granted k (ok false) h = inl refl
  granted k (ok true) h = handed k h

  named : (o : Option Cluster) → IsHandled (on_cluster s c f now req w o)
  named none = inl refl
  named (some k) = granted k (s.active_grant k.id k.name req.actor) refl

  listed : (ks : Result (List Cluster)) → IsHandled (with_clusters s c f now req w ks)
  listed (err x) = inl refl
  listed (ok ks) = named (console_cluster_from_query req ks)

  -- Either nothing changes, or a session grant is active for the actor on a cluster and the script's
  -- trimmed text runs there as a statement does: logged and kept, or withheld.
  pub run_console_handoff-IsGuarded :
      (run_console_handoff s c f now req w ≡ w) ⊎ HasHanded (run_console_handoff s c f now req w)
  unfolding run_console_handoff
  run_console_handoff-IsGuarded = listed s.list_clusters
