-- ===== src/PolicyWrite/Batch.antt =====
-- internal/store/capability_policy.go: `DeleteCapabilityPolicy` and `ApplyCapabilityPoliciesBatch`,
-- each one transaction with one row of the audit log.
use lynceus.Prelude.{
  ℕ, ◌+◌, String, Bool, false, not, ◌&&◌, ◌||◌, if◌then◌else◌, Option, none, some, List, [], ◌∷◌,
  any, filter, length, map, string_eq, ◌==◌,
}
use lynceus.Prelude.Result.{Error, Result, ok, err, msg, wrap}
use lynceus.Prelude.Int.{pos}
use lynceus.Policy.{PolicyRow, CapabilityPolicy, scan_row}
use lynceus.Audit.Canonical.{Bytes, number, text, object, member, no_members, Codec}
use lynceus.Audit.Log.{AuditEntry, AuditRecord, AuditLog, Faults, roll_back, append_audit_tx}
use lynceus.T2Read.{Render, db_name_detail}
use lynceus.PolicyWrite.{
  SetCapabilityPolicyInput, ConfigState, db_arg, not_distinct, upsert, new_row,
}

pub record CapabilityPolicyKey : Type 0 where
  pub server_id : String
  pub database_name : String
  pub capability : String

abbrev pub matches_key : CapabilityPolicyKey → PolicyRow → Bool
matches_key k r =
    (r.server_id == k.server_id)
    && (not_distinct r.database_name (db_arg k.database_name) && (r.capability == k.capability))

-- What a transaction leaves when it rolls back: the rows as they were, and the sequence moved.
abbrev pub undone : ConfigState → AuditLog → ConfigState
undone s later = record s { log = roll_back s.log later }

abbrev pub commit_with :
    Option Error
    → ConfigState
    → AuditLog
    → Result (List PolicyRow)
    → Result (Unit {0}) × ConfigState
commit_with fault s later (err x) = (err x, undone s later)
commit_with (some x) s later (ok rows) = (err (wrap "commit" x), undone s later)
commit_with none s later (ok rows) = (ok tt, record { policies = rows; log = later })

-- The statements after the append are `body`, which has the audit row's record.
abbrev pub in_tx :
    Faults
    → ConfigState
    → (AuditRecord → Result (List PolicyRow))
    → Result AuditRecord × AuditLog
    → Result (Unit {0}) × ConfigState
in_tx f s body (err x, later) = (err (wrap "audit" x), undone s later)
in_tx f s body (ok rec, later) = commit_with f.commit s later (body rec)

abbrev pub with_lock :
    Option Error
    → Option Error
    → ConfigState
    → Result (Unit {0}) × ConfigState
    → Result (Unit {0}) × ConfigState
with_lock (some x) lock s done = (err (wrap "begin" x), s)
with_lock none (some x) s done = (err (wrap "advisory lock" x), s)
with_lock none none s done = done

unfoldable pub transaction :
    Codec
    → Faults
    → ConfigState
    → AuditEntry
    → ℕ
    → (AuditRecord → Result (List PolicyRow))
    → Result (Unit {0}) × ConfigState
transaction c f s e now body =
    with_lock f.begin f.lock s (in_tx f s body (append_audit_tx c f s.log e now))

unfoldable pub delete_entry : Render → CapabilityPolicyKey → String → String → AuditEntry
unfolding db_name_detail
delete_entry r k actor reason = record {
  actor = r.utf8 actor;
  action = r.utf8 "capability_policy.delete";
  server_id = r.utf8 k.server_id;
  data_tier = 0;
  detail = some (
      object (
        member (r.utf8 "database_name") (db_name_detail r k.database_name) (
          member (r.utf8 "capability") (text (r.utf8 k.capability))
            (member (r.utf8 "reason") (text (r.utf8 reason)) no_members))));
}

abbrev pub delete_row :
    Option Error → CapabilityPolicyKey → List PolicyRow → Result (List PolicyRow)
delete_row (some x) k rows = err (wrap "delete" x)
delete_row none k rows = ok (filter (λ r. not (matches_key k r)) rows)

-- `fault` is the failure of the DELETE.
unfoldable pub delete_capability_policy :
    Codec
    → Faults
    → Option Error
    → Render
    → ℕ
    → CapabilityPolicyKey
    → (actor reason : String) → ConfigState
    → Result (Unit {0}) × ConfigState
delete_capability_policy c f fault r now k actor reason s =
    if k.server_id == ""
    then (err (msg "DeleteCapabilityPolicy: ServerID required"), s)
    else if k.capability == ""
    then (err (msg "DeleteCapabilityPolicy: Capability required"), s)
    else if actor == ""
    then (err (msg "DeleteCapabilityPolicy: actor required"), s)
    else transaction c f s (delete_entry r k actor reason) now
        (λ rec. delete_row fault k s.policies)

-- The two statements of a batch fail with `upsert_fault` and `delete_fault`. PostgreSQL refuses,
-- with `twice`, an INSERT ... ON CONFLICT DO UPDATE that would touch a row twice.
pub record BatchFaults : Type 0 where
  pub upsert_fault : Option Error
  pub delete_fault : Option Error
  pub twice : Error

abbrev pub same_input : SetCapabilityPolicyInput → SetCapabilityPolicyInput → Bool
same_input a b =
    (a.server_id == b.server_id)
    && ((a.database_name == b.database_name) && (a.capability == b.capability))

abbrev pub has_twice : List SetCapabilityPolicyInput → Bool
has_twice [] = false
has_twice (u ∷ us) = any (same_input u) us || has_twice us

abbrev pub upsert_each : ℕ → ℕ → List SetCapabilityPolicyInput → List PolicyRow → List PolicyRow
upsert_each now id [] rows = rows
upsert_each now id (u ∷ us) rows = upsert_each now id us (upsert (new_row u now id) rows)

abbrev pub upsert_batch :
    BatchFaults → ℕ → ℕ → List SetCapabilityPolicyInput → List PolicyRow → Result (List PolicyRow)
upsert_batch b now id [] rows = ok rows
upsert_batch b now id (u ∷ us) rows = elim b.upsert_fault [
  | some x ↦ err (wrap "upsert" x)
  | none ↦
      if has_twice (u ∷ us)
      then err (wrap "upsert" b.twice)
      else ok (upsert_each now id (u ∷ us) rows)
]

abbrev pub delete_batch :
    BatchFaults → List CapabilityPolicyKey → Result (List PolicyRow) → Result (List PolicyRow)
delete_batch b ks (err x) = err x
delete_batch b [] (ok rows) = ok rows
delete_batch b (k ∷ ks) (ok rows) = elim b.delete_fault [
  | some x ↦ err (wrap "delete" x)
  | none ↦ ok (filter (λ r. not (any (λ j. matches_key j r) (k ∷ ks))) rows)
]

-- `content_hash` is the hexadecimal SHA-256 of the batch's JSON.
unfoldable pub batch_entry :
    Render → Bytes → List SetCapabilityPolicyInput → List CapabilityPolicyKey → String → AuditEntry
batch_entry r content_hash us ks actor = record {
  actor = r.utf8 actor;
  action = r.utf8 "capability_policy.bulk_set";
  server_id = [];
  data_tier = 0;
  detail = some (
      object (
        member (r.utf8 "row_count") (number (r.decimal (pos (length us + length ks))))
          (member (r.utf8 "content_hash") (text content_hash) no_members)));
}

unfoldable pub apply_capability_policies_batch :
    Codec
    → Faults
    → BatchFaults
    → Render
    → Bytes
    → ℕ
    → List SetCapabilityPolicyInput
    → List CapabilityPolicyKey
    → (actor : String) → ConfigState
    → Result (Unit {0}) × ConfigState
apply_capability_policies_batch c f b r content_hash now us ks actor s =
    if actor == ""
    then (err (msg "ApplyCapabilityPoliciesBatch: actor required"), s)
    else if any (λ (u : SetCapabilityPolicyInput). (u.server_id == "") || (u.capability == "")) us
    then (err (msg "ApplyCapabilityPoliciesBatch: upsert requires ServerID and Capability"), s)
    else if any (λ (k : CapabilityPolicyKey). (k.server_id == "") || (k.capability == "")) ks
    then (err (msg "ApplyCapabilityPoliciesBatch: delete requires ServerID and Capability"), s)
    else transaction c f s (batch_entry r content_hash us ks actor) now
        (λ rec. delete_batch b ks (upsert_batch b now rec.id us s.policies))

-- WHERE server_id = ANY($1), in the order of `order_by`.
unfoldable pub list_capability_policies_for_servers :
    (List PolicyRow → List PolicyRow) → List PolicyRow → List String → List CapabilityPolicy
unfolding scan_row
list_capability_policies_for_servers order_by rows [] = []
list_capability_policies_for_servers order_by rows (s ∷ ss) =
    map scan_row (order_by (filter (λ r. any (λ t. r.server_id == t) (s ∷ ss)) rows))
