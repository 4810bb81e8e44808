-- ===== src/T2Read.antt =====
-- internal/store/t2_read.go: the gateway that reads raw query text. The stats store's answer, and
-- how text, times and numbers are written out, are arguments.
pub mod Audited
pub mod Tests
use lynceus.Prelude.{
  ℕ, String, Bool, true, not, ◌||◌, Option, none, some, List, ◌==◌, string_eq, if◌then◌else◌,
}
use lynceus.Prelude.Int.{ℤ}
use lynceus.Prelude.Result.{Error, Result, ok, err, msg, wrap}
use lynceus.Policy.{PolicySource}
use lynceus.Policy.Snapshot.{PolicyReader}
use lynceus.Ingest.Rows.{QueryStatRow}
use lynceus.Audit.Canonical.{Bytes, Json, null, text, number, object, no_members, member, Codec}
use lynceus.Audit.Log.{AuditEntry, AuditRecord, AuditLog, Faults, append_audit_returning}

-- `since` and `until` are in nanoseconds.
pub record T2ReadRequest : Type 0 where
  pub server_id : String
  pub database_name : String
  pub capability : String
  pub actor : String
  pub since : ℕ
  pub until : ℕ
  pub limit : ℤ

-- Text as bytes, a time in RFC 3339, an integer in decimal.
pub record Render : Type 0 where
  pub utf8 : String → Bytes
  pub rfc3339 : ℕ → Bytes
  pub decimal : ℤ → Bytes

unfoldable pub db_name_detail : Render → String → Json
db_name_detail r name = if name == "" then null else text (r.utf8 name)

unfoldable pub read_entry : Render → T2ReadRequest → AuditEntry
unfolding db_name_detail
read_entry r req = record {
  actor = r.utf8 req.actor;
  action = r.utf8 "read";
  server_id = r.utf8 req.server_id;
  data_tier = 2;
  detail = some (
      object (
        member (r.utf8 "database_name") (db_name_detail r req.database_name) (
          member (r.utf8 "capability") (text (r.utf8 req.capability)) (
            member (r.utf8 "since") (text (r.rfc3339 req.since)) (
              member (r.utf8 "until") (text (r.rfc3339 req.until))
                (member (r.utf8 "limit") (number (r.decimal req.limit)) no_members))))));
}

-- (enabled, found): denied unless both hold.
abbrev pub t2_denied : Bool × Bool → Bool
t2_denied p = not p.1 || not p.0

abbrev pub is_denied : Option (Bool × PolicySource) → Bool
is_denied none = true
is_denied (some p) = not p.0

-- The last two steps: the audit row, and only then the rows.
abbrev pub read_audited :
    Result (List QueryStatRow)
    → Result AuditRecord × AuditLog
    → Result (List QueryStatRow) × AuditLog
read_audited stats (err x, log) = (err (wrap "t2 audit" x), log)
read_audited stats (ok rec, log) = (stats, log)

module _ (conf : PolicyReader) (c : Codec) (f : Faults) (r : Render) (now : ℕ)
    (stats : Result (List QueryStatRow)) (req : T2ReadRequest) (log : AuditLog) where
  -- After the capability is looked up.
  abbrev pub after_authz :
      Result (Option (Bool × PolicySource)) → Result (List QueryStatRow) × AuditLog
  after_authz (err x) = (err (wrap "t2 authz" x), log)
  after_authz (ok cap) =
      if is_denied cap
      then (err (msg "t2 read denied: capability not authorized"), log)
      else read_audited stats (append_audit_returning c f log (read_entry r req) now)

  -- After the server's switch is looked up.
  abbrev pub after_gate : Result (Bool × Bool) → Result (List QueryStatRow) × AuditLog
  after_gate (err x) = (err (wrap "t2 gate" x), log)
  after_gate (ok enabled) =
      if t2_denied enabled
      then (err (msg "t2 read denied: t2_enabled is false"), log)
      else after_authz (conf.effective_capability req.server_id req.database_name req.capability)

  unfoldable pub read_t2_query_stats : Result (List QueryStatRow) × AuditLog
  read_t2_query_stats = after_gate (conf.server_t2_enabled req.server_id)
