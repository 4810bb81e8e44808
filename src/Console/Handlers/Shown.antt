-- ===== src/Console/Handlers/Shown.antt =====
-- internal/api/console.go: the console's page shows only what the sessions keep for its actor and
-- cluster, under a grant.
use mathlib.Core.List.Memᴰ
use lynceus.Prelude.{
  arith, Bool, true, false, ◌≡◌, refl, inl, inr, Option, none, some, List, [], ◌∷◌, ◌++◌, find-some,
  Memᴰ, Bool-cases, ◌==◌, bytes_eq,
}
use lynceus.Prelude.Result.{Result, ok, err}
use lynceus.Console.Sessions.{Run, first_run, recent, latest, get_run}
use lynceus.Console.Handlers.{
  Cluster, Instance, Server, Request, ConsoleVm, Response, page, ConsoleState,
  console_cluster_from_query,
}
use lynceus.Console.Handlers.Page.{
  are_listed, current_run, vm_of, with_instances, vm_on, vm_among, build_console_vm, answered_with,
  render_console_body,
}

abbrev pub one_or_none : Option Run → List Run
one_or_none none = []
one_or_none (some run) = run ∷ []

-- The runs that a page shows.
abbrev pub shown : Response → List Run
shown (page vm) = one_or_none vm.result ++ vm.history
shown r = []

module _ (s : Server) (req : Request) where
  -- The run is kept for the actor on a cluster that the request names, and a grant is active there.
  abbrev pub IsHeld : ConsoleState → Run → Type 0
  IsHeld w run =
      (ks : List Cluster) × (k : Cluster) × (s.list_clusters ≡ ok ks)
      × (console_cluster_from_query req ks ≡ some k)
      × (s.active_grant k.id k.name req.actor ≡ ok true)
      × Memᴰ run (recent w.sessions req.actor k.id)

  abbrev pub ShowsHeld : Response × ConsoleState → Type 0
  ShowsHeld p = (run : Run) → Memᴰ run (shown p.0) → IsHeld p.1 run

  first_mem : (runs : List Run) {run : Run} → first_run runs ≡ some run → Memᴰ run runs
  first_mem [] h = cc
  first_mem (r ∷ rs) h = Memᴰ.head (ground arith)

  module _ (w : ConsoleState) where
    current_mem :
        (k : Cluster) {run : Run}
        → current_run s req w k ≡ some run
        → Memᴰ run (recent w.sessions req.actor k.id)
    unfolding latest get_run
    current_mem k {run} h = elim (Bool-cases (req.restore == [])) [
      | inl q ↦ first_mem (recent w.sessions req.actor k.id) (rw q at h)
      | inr q ↦
          (find-some (λ r. r.id == req.restore) (recent w.sessions req.actor k.id) (rw q at h)).0
    ]

    abbrev Shows : Option ConsoleVm → Type 0
    Shows o = (run : Run) → Memᴰ run (shown (answered_with s req w o)) → IsHeld w run

    built :
        (ks : List Cluster) (k : Cluster) (g : Result Bool)
        → s.list_clusters ≡ ok ks
        → console_cluster_from_query req ks ≡ some k
        → s.active_grant k.id k.name req.actor ≡ g
        → Shows (vm_of s req w k g)
    built ks k (err x) l q g run m = absurd (Memᴰ.not-nil m)
    built ks k (ok false) l q g run m = absurd (Memᴰ.not-nil m)
    built ks k (ok true) l q g run m = (
      ks,
      k,
      l,
      q,
      g,
      elim (Memᴰ.append_cases (one_or_none (current_run s req w k)) m) [
        | inl h ↦ of_current (current_run s req w k) refl h
        | inr h ↦ h
      ],
    )
      where
        of_current :
            (o : Option Run)
            → current_run s req w k ≡ o
            → Memᴰ run (one_or_none o)
            → Memᴰ run (recent w.sessions req.actor k.id)
        of_current none e h = absurd (Memᴰ.not-nil h)
        of_current (some r) e h = rw (Memᴰ.eq_of_singleton h) (current_mem k e)

    opened :
        (ks : List Cluster) (k : Cluster) (a : Result (List Instance))
        → s.list_clusters ≡ ok ks
        → console_cluster_from_query req ks ≡ some k
        → Shows (with_instances s req w k a)
    opened ks k (err x) l q = λ run m. absurd (Memᴰ.not-nil m)
    opened ks k (ok is) l q = elim (Bool-cases (are_listed s is)) [
      | inl e ↦ rw e (built ks k (s.active_grant k.id k.name req.actor) l q refl)
      | inr e ↦ rw e (λ run m. absurd (Memᴰ.not-nil m))
    ]

    picked :
        (ks : List Cluster) (o : Option Cluster)
        → s.list_clusters ≡ ok ks
        → console_cluster_from_query req ks ≡ o
        → Shows (vm_on s req w o)
    picked ks none l q = λ run m. absurd (Memᴰ.not-nil m)
    picked ks (some k) l q = opened ks k (s.list_instances k.id) l q

    listed : (a : Result (List Cluster)) → s.list_clusters ≡ a → Shows (vm_among s req w a)
    listed (err x) l = λ run m. absurd (Memᴰ.not-nil m)
    listed (ok ks) l = picked ks (console_cluster_from_query req ks) l refl

    pub render_console_body-ShowsHeld : ShowsHeld (render_console_body s req w, w)
    unfolding render_console_body build_console_vm
    render_console_body-ShowsHeld = listed s.list_clusters refl
