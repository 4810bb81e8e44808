-- ===== src/Audit/Log.antt =====
-- internal/store/config.go (`AppendAudit`, `AppendAuditReturning`, `appendAuditTx`): the table
-- audit_log, latest row first, with its id sequence. The advisory lock makes an append one step.
use lynceus.Prelude.{ℕ, suc, ◌/◌, ◌*◌, Option, none, some, List, [], ◌∷◌, eqb, if◌then◌else◌}
use lynceus.Prelude.Result.{Error, Result, ok, err, wrap, label, ◌>>=◌}
use lynceus.Audit.Canonical.{Bytes, Json, Codec, canonical_json}
use lynceus.Audit.Hash.{hash_audit_row}

-- `detail` is absent for a nil `Detail`.
pub record AuditEntry : Type 0 where
  pub actor : Bytes
  pub action : Bytes
  pub server_id : Bytes
  pub data_tier : ℕ
  pub detail : Option Json

pub record AuditRecord : Type 0 where
  pub id : ℕ
  pub actor : Bytes
  pub action : Bytes
  pub server_id : Bytes
  pub data_tier : ℕ
  pub detail : Bytes
  pub at : ℕ
  pub prev_hash : Bytes
  pub row_hash : Bytes

-- A stored row: NULL is `none`.
pub record AuditRow : Type 0 where
  pub id : ℕ
  pub actor : Bytes
  pub action : Bytes
  pub server_id : Option Bytes
  pub data_tier : Option ℕ
  pub detail : Option Bytes
  pub at : ℕ
  pub prev_hash : Bytes
  pub row_hash : Bytes

-- `last_value` is the last id that the sequence gave out.
pub record AuditLog : Type 0 where
  pub rows : List AuditRow
  pub last_value : ℕ

-- Which statements of an append fail.
pub record Faults : Type 0 where
  pub begin : Option Error
  pub lock : Option Error
  pub tail : Option Error
  pub nextval : Option Error
  pub insert : Option Error
  pub commit : Option Error

abbrev pub no_faults : Faults
no_faults = record {
  begin = none;
  lock = none;
  tail = none;
  nextval = none;
  insert = none;
  commit = none;
}

-- 32 zero bytes.
abbrev pub genesis : Bytes
genesis =
    0 ∷ 0 ∷ 0 ∷ 0 ∷ 0 ∷ 0 ∷ 0 ∷ 0 ∷ 0 ∷ 0 ∷ 0 ∷ 0 ∷ 0 ∷ 0 ∷ 0 ∷ 0 ∷ 0 ∷ 0 ∷ 0 ∷ 0 ∷ 0 ∷ 0 ∷ 0 ∷ 0
    ∷ 0 ∷ 0 ∷ 0 ∷ 0 ∷ 0 ∷ 0 ∷ 0 ∷ 0 ∷ []

-- ORDER BY id DESC LIMIT 1
abbrev pub tail_hash : List AuditRow → Bytes
tail_hash [] = genesis
tail_hash (r ∷ rs) = r.row_hash

abbrev pub truncate_microsecond : ℕ → ℕ
truncate_microsecond t = t / 1000 * 1000

-- NULLIF($4, '')
abbrev pub null_if_empty : Bytes → Option Bytes
null_if_empty [] = none
null_if_empty (b ∷ bs) = some (b ∷ bs)

-- NULLIF($5, 0)
abbrev pub null_if_zero : ℕ → Option ℕ
null_if_zero n = if eqb n 0 then none else some n

-- A nil slice is stored as NULL.
unfoldable pub canonical_detail : Codec → Option Json → Result Bytes
unfolding canonical_json
canonical_detail c none = ok []
canonical_detail c (some v) = do raw ← label "marshal detail" (c.marshal v); canonical_json c raw

abbrev pub stored_row : AuditRecord → AuditRow
stored_row r = record {
  id = r.id;
  actor = r.actor;
  action = r.action;
  server_id = null_if_empty r.server_id;
  data_tier = null_if_zero r.data_tier;
  detail = null_if_empty r.detail;
  at = r.at;
  prev_hash = r.prev_hash;
  row_hash = r.row_hash;
}

abbrev pub new_record : Codec → AuditLog → AuditEntry → ℕ → Bytes → AuditRecord
new_record c log e now detail =
    let at : ℕ = truncate_microsecond now in
    let prev : Bytes = tail_hash log.rows in
    record {
      id = suc log.last_value;
      actor = e.actor;
      action = e.action;
      server_id = e.server_id;
      data_tier = e.data_tier;
      detail = detail;
      at = at;
      prev_hash = prev;
      row_hash = hash_audit_row c (record {
        id = suc log.last_value;
        prev = prev;
        actor = e.actor;
        action = e.action;
        server_id = e.server_id;
        tier = e.data_tier;
        detail = detail;
        at = at;
      });
    }

-- What is left of the log when the transaction rolls back: the sequence does not.
abbrev pub roll_back : AuditLog → AuditLog → AuditLog
roll_back log later = record { rows = log.rows; last_value = later.last_value }

-- `now` is in nanoseconds. The log that comes back is what the open transaction sees.
unfoldable pub append_audit_tx :
    Codec → Faults → AuditLog → AuditEntry → ℕ → Result AuditRecord × AuditLog
unfolding canonical_detail
append_audit_tx c f log e now = elim (canonical_detail c e.detail) [
  | err x ↦ (err x, log)
  | ok detail ↦ elim f.tail [
    | some x ↦ (err (wrap "read tail" x), log)
    | none ↦ elim f.nextval [
      | some x ↦ (err (wrap "nextval" x), log)
      | none ↦
          let rec : AuditRecord = new_record c log e now detail in
          elim f.insert [
            | some x ↦
                (err (wrap "insert" x), record { rows = log.rows; last_value = suc log.last_value })
            | none ↦ (
              ok rec,
              record { rows = stored_row rec ∷ log.rows; last_value = suc log.last_value },
            )
          ]
    ]
  ]
]

-- The end of the transaction: a commit, or on an error the deferred rollback.
abbrev pub finish :
    Faults → AuditLog → Result AuditRecord × AuditLog → Result AuditRecord × AuditLog
finish f log (err x, later) = (err x, roll_back log later)
finish f log (ok rec, later) = elim f.commit [
  | some x ↦ (err (wrap "commit" x), roll_back log later)
  | none ↦ (ok rec, later)
]

unfoldable pub append_audit_returning :
    Codec → Faults → AuditLog → AuditEntry → ℕ → Result AuditRecord × AuditLog
unfolding append_audit_tx
append_audit_returning c f log e now = elim f.begin [
  | some x ↦ (err (wrap "begin" x), log)
  | none ↦ elim f.lock [
    | some x ↦ (err (wrap "advisory lock" x), log)
    | none ↦ finish f log (append_audit_tx c f log e now)
  ]
]

unfoldable pub append_audit :
    Codec → Faults → AuditLog → AuditEntry → ℕ → Result (Unit {0}) × AuditLog
unfolding append_audit_returning
append_audit c f log e now =
    let done = append_audit_returning c f log e now in
    (elim done.0 [ ok rec ↦ ok tt | err x ↦ err x ], done.1)
