-- ===== src/Console/Handlers/Ran.antt =====
-- internal/api/console.go: a statement runs where its target has tier 2 on, and not unlogged.
use lynceus.Prelude.{
  ℕ, Bool, true, false, ◌≡◌, ◌⊎◌, inl, inr, refl, sym, ap, ◌∙◌, Option, none, some, List, [], ◌∷◌,
  ◌==◌, bytes_eq, Bool-cases,
}
use lynceus.Prelude.Text.{codes}
use lynceus.Prelude.Result.{Error, Result, ok, err}
use lynceus.Audit.Canonical.{Bytes, Codec}
use lynceus.Audit.Log.{AuditRecord, AuditRow, AuditLog, Faults, stored_row, append_audit_returning}
use lynceus.Console.{ConsoleResult}
use lynceus.Console.Sessions.{append}
use lynceus.Console.Handlers.{
  ServerStream, Statement, Server, Request, ConsoleState, resolve_console_target,
}
use lynceus.Console.Handlers.Execute.{
  statement_of, run_entry, run_of, after_audit, after_execute, after_target,
}
use lynceus.T2Read.Audited.{append_ok}

-- The latest row of the log records this actor's use of tier 2.
abbrev pub IsLogged : Bytes → Bytes → Bytes → AuditRecord → AuditLog → List AuditRow → Type 0
IsLogged actor action server rec log old =
    (log.rows ≡ stored_row rec ∷ old)
    × (rec.actor ≡ actor)
    × (rec.action ≡ action)
    × (rec.server_id ≡ server)
    × (rec.data_tier ≡ 2)

module _ (s : Server) (c : Codec) (f : Faults) (now : ℕ) (req : Request) (w : ConsoleState) where
  -- The result is logged and kept.
  abbrev pub IsKept : Bytes → Bytes → ServerStream → Statement → ConsoleState → Type 0
  IsKept cluster sql st stmt later =
      (res : ConsoleResult) × (rec : AuditRecord) × (s.execute stmt ≡ ok res)
      × IsLogged req.actor (codes "console.query.execute") st.server_id rec later.log w.log.rows
      × (later.sessions ≡ append w.sessions req.actor cluster (run_of req cluster sql res rec))

  -- It is withheld, as the execution or the audit failed.
  abbrev pub IsWithheld :
      Bytes → Bytes → ServerStream → Statement → Result Bool × ConsoleState → Type 0
  IsWithheld cluster sql st stmt p =
      (x : Error) × (p.0 ≡ err x)
      × (p.1.sessions ≡ w.sessions)
      × ((s.execute stmt ≡ err x)
          ⊎ ((res : ConsoleResult) × (s.execute stmt ≡ ok res)
              × ((append_audit_returning c f w.log (run_entry s c req sql st res) now).0 ≡ err x)))

  -- Why nothing runs.
  pub data NoTarget (cluster sql : Bytes) : Type 0 where
    target_failed :
        (x : Error)
        → resolve_console_target s cluster req.node req.db ≡ err x
        → NoTarget cluster sql
    no_target : resolve_console_target s cluster req.node req.db ≡ ok none → NoTarget cluster sql
    no_statement : sql ≡ [] → NoTarget cluster sql
    tier_off :
        (st : ServerStream)
        → resolve_console_target s cluster req.node req.db ≡ ok (some st)
        → st.t2_enabled ≡ false
        → NoTarget cluster sql

  -- One statement ran, on a stream that the tier is on for, and its result is kept or withheld.
  abbrev pub HasRun : Bytes → Bytes → Bytes → Result Bool × ConsoleState → Type 0
  HasRun cluster name sql p =
      (st : ServerStream) × (resolve_console_target s cluster req.node req.db ≡ ok (some st))
      × (st.t2_enabled ≡ true)
      × (p.1.executed ≡ statement_of req cluster name sql st ∷ w.executed)
      × (((p.0 ≡ ok true) × IsKept cluster sql st (statement_of req cluster name sql st) p.1)
          ⊎ IsWithheld cluster sql st (statement_of req cluster name sql st) p)

  -- Nothing ran, and nothing is reported to have run.
  abbrev pub IsIdle : Bytes → Bytes → Result Bool × ConsoleState → Type 0
  IsIdle cluster sql p =
      (p.1 ≡ w) × ((p.0 ≡ ok false) ⊎ ((x : Error) × (p.0 ≡ err x))) × NoTarget cluster sql

  audited :
      (cluster sql : Bytes) (st : ServerStream) (stmt : Statement) (res : ConsoleResult)
      (p : Result AuditRecord × AuditLog)
      → s.execute stmt ≡ ok res
      → append_audit_returning c f w.log (run_entry s c req sql st res) now ≡ p
      → let q = after_audit s c f now req w cluster sql stmt res p in
        ((q.0 ≡ ok true) × IsKept cluster sql st stmt q.1) ⊎ IsWithheld cluster sql st stmt q
  audited cluster sql st stmt res (err x, log) e h =
      inr (x, refl, refl, inr (res, e, ap (λ p. p.0) h))
  audited cluster sql st stmt res (ok rec, log) e h =
      let a = append_ok c f w.log (run_entry s c req sql st res) now rec (ap (λ p. p.0) h) in
      inl (
        refl,
        (
          res,
          rec,
          e,
          (ap (λ (p : Result AuditRecord × AuditLog). p.1.rows) (sym h) ∙ a.0, a.1, a.2, a.3, a.4),
          refl,
        ),
      )

  executed_once :
      (cluster sql : Bytes) (stmt : Statement) (res : ConsoleResult)
      (p : Result AuditRecord × AuditLog)
      → (after_audit s c f now req w cluster sql stmt res p).1.executed ≡ stmt ∷ w.executed
  executed_once cluster sql stmt res (err x, log) = refl
  executed_once cluster sql stmt res (ok rec, log) = refl

  executed :
      (cluster name sql : Bytes) (st : ServerStream) (a : Result ConsoleResult)
      → resolve_console_target s cluster req.node req.db ≡ ok (some st)
      → st.t2_enabled ≡ true
      → s.execute (statement_of req cluster name sql st) ≡ a
      → HasRun cluster name sql
          (after_execute s c f now req w cluster sql st (statement_of req cluster name sql st) a)
  executed cluster name sql st (err x) t on e = (st, t, on, refl, inr (x, refl, refl, inl e))
  executed cluster name sql st (ok res) t on e =
      let stmt = statement_of req cluster name sql st in
      let p = append_audit_returning c f w.log (run_entry s c req sql st res) now in
      (st, t, on, executed_once cluster sql stmt res p, audited cluster sql st stmt res p e refl)

  pub targeted :
      (cluster name sql : Bytes) (t : Result (Option ServerStream))
      → resolve_console_target s cluster req.node req.db ≡ t
      → IsIdle cluster sql (after_target s c f now req w cluster name sql t)
        ⊎ HasRun cluster name sql (after_target s c f now req w cluster name sql t)
  targeted cluster name sql (err x) h = inl (refl, inr (x, refl), target_failed x h)
  targeted cluster name sql (ok none) h = inl (refl, inl refl, no_target h)
  targeted cluster name sql (ok (some st)) h = elim (Bool-cases (sql == [])) [
    | inl q ↦ rw q (inl (refl, inl refl, no_statement ((bytes_eq.beq_iff sql []).0 q)))
    | inr q ↦ elim (Bool-cases st.t2_enabled) [
      | inr off ↦ rw (q, off) (inl (refl, inl refl, tier_off st h off))
      | inl on ↦
          rw (q, on)
            (inr (
              executed cluster name sql st (s.execute (statement_of req cluster name sql st)) h on
                refl))
    ]
  ]
