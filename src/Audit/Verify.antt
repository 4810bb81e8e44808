-- ===== src/Audit/Verify.antt =====
-- internal/store/config.go (`VerifyChain`): the walk over audit_log in order of id.
pub mod Chain
use lynceus.Prelude.{
  ℕ, suc, ◌+◌, Bool, true, false, not, ◌&&◌, Option, none, some, List, [], ◌∷◌, ◌++◌, filter, leb,
  eqb, bytes_eq, ◌==◌, if◌then◌else◌,
}
use lynceus.Prelude.Result.{Error, Result, ok, err}
use lynceus.Audit.Canonical.{Bytes, Codec, canonical_json}
use lynceus.Audit.Hash.{HashedRow, hash_audit_row}
use lynceus.Audit.Log.{AuditRow, AuditLog, genesis, truncate_microsecond}

pub data Fault : Type 0 where
  id_gap : ℕ → ℕ → Fault
  prev_hash_mismatch row_hash_mismatch : ℕ → Fault

-- An inconsistent row at its ordinal, or an error there.
pub data Problem : Type 0 where
  broken : ℕ → Fault → Problem
  detail_not_canonicalizable : ℕ → Error → Problem

-- The ordinal -1 is `intact`.
pub data Verdict : Type 0 where
  intact : Verdict
  found : Problem → Verdict

-- The variables of the loop.
pub record Walk : Type 0 where
  pub expected_prev : Bytes
  pub idx : ℕ
  pub last_id : ℕ
  pub walk_started : Bool

pub data Progress : Type 0 where
  going : Walk → Progress
  stopped : Problem → Progress

-- COALESCE(detail::text, '')
abbrev pub detail_text : Codec → Option Bytes → Bytes
detail_text c none = []
detail_text c (some d) = c.jsonb_text d

abbrev pub bytes_or_empty : Option Bytes → Bytes
bytes_or_empty none = []
bytes_or_empty (some b) = b

abbrev pub tier_or_zero : Option ℕ → ℕ
tier_or_zero none = 0
tier_or_zero (some n) = n

abbrev pub hashed : AuditRow → Bytes → HashedRow
hashed r detail = record {
  id = r.id;
  prev = r.prev_hash;
  actor = r.actor;
  action = r.action;
  server_id = bytes_or_empty r.server_id;
  tier = tier_or_zero r.data_tier;
  detail = detail;
  at = truncate_microsecond r.at;
}

-- The hash a row must follow: the one before it, or at the first row of a walk that does not begin
-- at id 1 the row's own.
abbrev pub expected_prev : Walk → AuditRow → Bytes
expected_prev w r = if not w.walk_started && not (eqb r.id 1) then r.prev_hash else w.expected_prev

-- The part of a turn of the loop after the detail is read.
unfoldable pub verify_hashes : Codec → Walk → AuditRow → Bytes → Progress
verify_hashes c w r detail =
    if not (r.prev_hash == expected_prev w r)
    then stopped (broken w.idx (prev_hash_mismatch r.id))
    else if not (hash_audit_row c (hashed r detail) == r.row_hash)
    then stopped (broken w.idx (row_hash_mismatch r.id))
    else going (record {
      expected_prev = r.row_hash;
      idx = suc w.idx;
      last_id = r.id;
      walk_started = true;
    })

unfoldable pub verify_row : Codec → Walk → AuditRow → Progress
verify_row c w r =
    if w.walk_started && not (eqb r.id (suc w.last_id))
    then stopped (broken w.idx (id_gap (suc w.last_id) r.id))
    else elim (canonical_json c (detail_text c r.detail)) [
      | err x ↦ stopped (detail_not_canonicalizable w.idx x)
      | ok detail ↦ verify_hashes c w r detail
    ]

-- `return` ends the loop.
abbrev pub and_then : Progress → (Walk → Progress) → Progress
and_then (stopped v) f = stopped v
and_then (going w) f = f w

unfoldable pub verify_rows : Codec → Walk → List AuditRow → Progress
verify_rows c w [] = going w
verify_rows c w (r ∷ rs) = and_then (verify_row c w r) (λ next. verify_rows c next rs)

abbrev pub start : Walk
start = record { expected_prev = genesis; idx = 0; last_id = 0; walk_started = false }

-- ORDER BY id ASC
abbrev pub oldest_first : List AuditRow → List AuditRow
oldest_first [] = []
oldest_first (r ∷ rs) = oldest_first rs ++ r ∷ []

-- A zero time is `none`; the upper end is then a day ahead of `now`, in nanoseconds.
abbrev pub in_window : Option ℕ → Option ℕ → ℕ → AuditRow → Bool
in_window none none now r = true
in_window none (some u) now r = leb 0 r.at && leb r.at u
in_window (some s) none now r = leb s r.at && leb r.at (now + 86400000000000)
in_window (some s) (some u) now r = leb s r.at && leb r.at u

unfoldable pub verify_chain : Codec → AuditLog → Option ℕ → Option ℕ → ℕ → Verdict
unfolding verify_row verify_rows
verify_chain c log since until now =
    elim (verify_rows c start (oldest_first (filter (in_window since until now) log.rows))) [
      | stopped v ↦ found v
      | going w ↦ intact
    ]
