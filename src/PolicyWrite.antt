-- ===== src/PolicyWrite.antt =====
-- internal/store/capability_policy.go (`SetCapabilityPolicy`): a change of policy, which is recorded
-- in the audit log first.
pub mod Upsert
pub mod Set
pub mod Batch
pub mod Atomic
pub mod Tests
use lynceus.Prelude.{
  ℕ, String, Bool, true, false, ◌&&◌, Option, none, some, List, [], ◌∷◌, ◌++◌, map, any, find, ◌==◌,
  string_eq, if◌then◌else◌,
}
use lynceus.Prelude.Result.{Error, Result, ok, err, msg, wrap}
use lynceus.Policy.{PolicyRow, CapabilityPolicy, scan_row}
use lynceus.Audit.Canonical.{Json, yes, no, text, object, member, no_members, Codec}
use lynceus.Audit.Log.{AuditEntry, AuditRecord, AuditLog, Faults, append_audit_returning}
use lynceus.T2Read.{Render, db_name_detail}

pub record SetCapabilityPolicyInput : Type 0 where
  pub server_id : String
  pub database_name : String
  pub capability : String
  pub enabled : Bool
  pub set_by : String
  pub reason : String

-- The tables that a change touches.
pub record ConfigState : Type 0 where
  pub policies : List PolicyRow
  pub log : AuditLog

-- "" is stored as NULL.
abbrev pub db_arg : String → Option String
db_arg name = if name == "" then none else some name

-- IS NOT DISTINCT FROM
abbrev pub not_distinct : Option String → Option String → Bool
not_distinct none none = true
not_distinct none (some t) = false
not_distinct (some s) none = false
not_distinct (some s) (some t) = s == t

-- The columns of the unique constraint.
abbrev pub same_key : PolicyRow → PolicyRow → Bool
same_key new r =
    (r.server_id == new.server_id)
    && (not_distinct r.database_name new.database_name && (r.capability == new.capability))

-- DO UPDATE SET
abbrev pub updated : PolicyRow → PolicyRow → PolicyRow
updated new r = record {
  server_id = r.server_id;
  database_name = r.database_name;
  capability = r.capability;
  enabled = new.enabled;
  set_by = new.set_by;
  set_at = new.set_at;
  reason = new.reason;
  audit_chain_id = new.audit_chain_id;
}

abbrev pub touched : PolicyRow → PolicyRow → PolicyRow
touched new r = if same_key new r then updated new r else r

-- INSERT ... ON CONFLICT
unfoldable pub upsert : PolicyRow → List PolicyRow → List PolicyRow
upsert new rows = if any (same_key new) rows then map (touched new) rows else rows ++ new ∷ []

-- RETURNING
abbrev pub returned : PolicyRow → Option PolicyRow → PolicyRow
returned new none = new
returned new (some r) = updated new r

abbrev pub upserted : PolicyRow → List PolicyRow → PolicyRow
upserted new rows = returned new (find (same_key new) rows)

abbrev pub bool_json : Bool → Json
bool_json true = yes
bool_json false = no

unfoldable pub set_entry : Render → SetCapabilityPolicyInput → AuditEntry
unfolding db_name_detail
set_entry r x = record {
  actor = r.utf8 x.set_by;
  action = r.utf8 "capability_policy.set";
  server_id = r.utf8 x.server_id;
  data_tier = 0;
  detail = some (
      object (
        member (r.utf8 "database_name") (db_name_detail r x.database_name) (
          member (r.utf8 "capability") (text (r.utf8 x.capability)) (
            member (r.utf8 "enabled") (bool_json x.enabled)
              (member (r.utf8 "reason") (text (r.utf8 x.reason)) no_members)))));
}

-- `now` is the database's clock at the INSERT.
abbrev pub new_row : SetCapabilityPolicyInput → ℕ → ℕ → PolicyRow
new_row x now id = record {
  server_id = x.server_id;
  database_name = db_arg x.database_name;
  capability = x.capability;
  enabled = x.enabled;
  set_by = x.set_by;
  set_at = now;
  reason = x.reason;
  audit_chain_id = id;
}

-- The second statement: the audit row stands, whatever becomes of the upsert.
abbrev pub upsert_policy :
    Option Error
    → SetCapabilityPolicyInput
    → ℕ
    → List PolicyRow
    → Result AuditRecord × AuditLog
    → Result CapabilityPolicy × ConfigState
upsert_policy fault x now rows (err e, log) =
    (err (wrap "audit" e), record { policies = rows; log = log })
upsert_policy fault x now rows (ok rec, log) = elim fault [
  | some e ↦ (err (wrap "upsert" e), record { policies = rows; log = log })
  | none ↦ (
    ok (scan_row (upserted (new_row x now rec.id) rows)),
    record { policies = upsert (new_row x now rec.id) rows; log = log },
  )
]

unfoldable pub set_capability_policy :
    Codec
    → Faults
    → Option Error
    → Render
    → ℕ
    → SetCapabilityPolicyInput
    → ConfigState
    → Result CapabilityPolicy × ConfigState
unfolding scan_row upsert
set_capability_policy c f fault r now x s =
    if x.server_id == ""
    then (err (msg "SetCapabilityPolicy: ServerID required"), s)
    else if x.capability == ""
    then (err (msg "SetCapabilityPolicy: Capability required"), s)
    else if x.set_by == ""
    then (err (msg "SetCapabilityPolicy: SetBy required"), s)
    else upsert_policy fault x now s.policies (append_audit_returning c f s.log (set_entry r x) now)
