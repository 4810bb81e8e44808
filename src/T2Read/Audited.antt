-- ===== src/T2Read/Audited.antt =====
-- internal/store/t2_read.go: no raw query text is read without authority and an audit row.
use lynceus.Prelude.{
  ℕ, Bool, true, false, ◌≡◌, refl, sym, ap, ◌∙◌, Option, none, some, List, ◌∷◌, arith,
}
use lynceus.Prelude.Result.{Result, ok, err}
use lynceus.Policy.{PolicySource}
use lynceus.Policy.Snapshot.{PolicyReader}
use lynceus.Ingest.Rows.{QueryStatRow}
use lynceus.Audit.Canonical.{Codec}
use lynceus.Audit.Log.{
  AuditEntry, AuditRecord, AuditRow, AuditLog, Faults, stored_row, append_audit_tx,
  append_audit_returning,
}
use lynceus.T2Read.{
  T2ReadRequest, Render, read_entry, read_audited, after_authz, after_gate, read_t2_query_stats,
}

-- A successful append has put its record on the log.
pub append_ok :
    (c : Codec) (f : Faults) (log : AuditLog) (e : AuditEntry) (now : ℕ) (rec : AuditRecord)
    → (append_audit_returning c f log e now).0 ≡ ok rec
    → ((append_audit_returning c f log e now).1.rows ≡ stored_row rec ∷ log.rows)
      × (rec.actor ≡ e.actor)
      × (rec.action ≡ e.action)
      × (rec.server_id ≡ e.server_id)
      × (rec.data_tier ≡ e.data_tier)
unfolding append_audit_returning append_audit_tx
append_ok c f log e now rec h = ground arith

-- The log's latest row records the read.
abbrev pub IsRecorded : Render → T2ReadRequest → AuditLog → List AuditRow → Type 0
IsRecorded r req log old =
    (rec : AuditRecord) × (log.rows ≡ stored_row rec ∷ old)
    × (rec.actor ≡ r.utf8 req.actor)
    × (rec.action ≡ r.utf8 "read")
    × (rec.server_id ≡ r.utf8 req.server_id)
    × (rec.data_tier ≡ 2)

module _ (conf : PolicyReader) (c : Codec) (f : Faults) (r : Render) (now : ℕ)
    (stats : Result (List QueryStatRow)) (req : T2ReadRequest) (log : AuditLog)
    (rows : List QueryStatRow) where
  audit_passed :
      (p : Result AuditRecord × AuditLog)
      → append_audit_returning c f log (read_entry r req) now ≡ p
      → (read_audited stats p).0 ≡ ok rows
      → (stats ≡ ok rows) × IsRecorded r req (read_audited stats p).1 log.rows
  unfolding read_entry
  audit_passed (err x, later) q h = cc
  audit_passed (ok rec, later) q h =
      let a = append_ok c f log (read_entry r req) now rec (ap (λ p. p.0) q) in
      (
        h,
        (
          rec,
          ap (λ (p : Result AuditRecord × AuditLog). p.1.rows) (sym q) ∙ a.0,
          a.1,
          a.2,
          a.3,
          a.4,
        ),
      )

  authz_passed :
      (a : Result (Option (Bool × PolicySource)))
      → (after_authz conf c f r now stats req log a).0 ≡ ok rows
      → ((source : PolicySource) × (a ≡ ok (some (true, source))))
        × (stats ≡ ok rows)
        × IsRecorded r req (after_authz conf c f r now stats req log a).1 log.rows
  authz_passed (err x) h = cc
  authz_passed (ok none) h = cc
  authz_passed (ok (some (false, s))) h = cc
  authz_passed (ok (some (true, s))) h =
      let p = audit_passed (append_audit_returning c f log (read_entry r req) now) refl h in
      ((s, refl), p.0, p.1)

  gate_passed :
      (g : Result (Bool × Bool))
      → (after_gate conf c f r now stats req log g).0 ≡ ok rows
      → (g ≡ ok (true, true))
        × ((source : PolicySource) × (conf.effective_capability req.server_id req.database_name
                req.capability
              ≡ ok (some (true, source))))
        × (stats ≡ ok rows)
        × IsRecorded r req (after_gate conf c f r now stats req log g).1 log.rows
  gate_passed (err x) h = cc
  gate_passed (ok (false, false)) h = cc
  gate_passed (ok (false, true)) h = cc
  gate_passed (ok (true, false)) h = cc
  gate_passed (ok (true, true)) h =
      let p =
        authz_passed (conf.effective_capability req.server_id req.database_name req.capability) h in
      (refl, p.0, p.1, p.2)

-- Where the gateway returns rows, the server's switch was found on, the capability was authorised,
-- the stats store returned these rows, and the log's latest row records this read: its actor, its
-- server, tier 2.
pub read_t2_query_stats_audited :
    (conf : PolicyReader) (c : Codec) (f : Faults) (r : Render) (now : ℕ)
    (stats : Result (List QueryStatRow)) (req : T2ReadRequest) (log : AuditLog)
    (rows : List QueryStatRow)
    → (read_t2_query_stats conf c f r now stats req log).0 ≡ ok rows
    → (conf.server_t2_enabled req.server_id ≡ ok (true, true))
      × ((source : PolicySource) × (conf.effective_capability req.server_id req.database_name
              req.capability
            ≡ ok (some (true, source))))
      × (stats ≡ ok rows)
      × IsRecorded r req (read_t2_query_stats conf c f r now stats req log).1 log.rows
unfolding read_t2_query_stats
read_t2_query_stats_audited conf c f r now stats req log rows h =
    gate_passed conf c f r now stats req log rows (conf.server_t2_enabled req.server_id) h
