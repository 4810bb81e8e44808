-- ===== src/Scheduler/Tick.antt =====
-- internal/checks/scheduler.go: `RunOnce` and `isMuted`.
use lynceus.Prelude.{
  String, Bool, true, false, not, ◌&&◌, ◌||◌, if◌then◌else◌, List, [], ◌∷◌, ◌++◌, map, any,
  string_eq, ◌==◌,
}
use lynceus.Prelude.Result.{Result, ok, err}
use lynceus.Ingest.Rows.{Time}
use lynceus.Checks.{Severity, Status, passing, firing, Detail, CheckResult, Check, Input, run}

pub record MuteRow : Type 0 where
  pub server_id : String
  pub check_id : String
  pub object : String
  pub muted_until : Time
  pub reason : String

pub record ChecksResultRow : Type 0 where
  pub server_id : String
  pub evaluated_at : Time
  pub check_id : String
  pub category : String
  pub severity : Severity
  pub status : Status
  pub object : String
  pub detail : Detail
  pub muted : Bool

-- A mute without an object is of the whole check.
abbrev pub silences : CheckResult → MuteRow → Bool
silences r m = (m.check_id == r.check_id) && ((m.object == "") || (m.object == r.object))

unfoldable pub is_muted : List MuteRow → CheckResult → Bool
is_muted mutes r = any (silences r) mutes

abbrev pub to_row : Time → List MuteRow → CheckResult → ChecksResultRow
to_row now mutes r = record {
  server_id = r.server_id;
  evaluated_at = now;
  check_id = r.check_id;
  category = r.category;
  severity = r.severity;
  status = r.status;
  object = r.object;
  detail = r.detail;
  muted = is_muted mutes r;
}

-- What a tick does, in order. A failed notification is only logged.
pub data Event : Type 0 where
  notified : CheckResult → Event
  wrote : List ChecksResultRow → Event

-- `lock` is the connection and the try for the advisory lock; `write` answers for one batch.
pub record World : Type 0 where
  pub lock : Result Bool
  pub server_ids : Result (List String)
  pub input_of : String → Result Input
  pub mutes : String → Result (List MuteRow)
  pub write : List ChecksResultRow → Result (Unit {0})

-- The error of reading the mutes is dropped.
abbrev pub mutes_or_none : Result (List MuteRow) → List MuteRow
mutes_or_none (err e) = []
mutes_or_none (ok ms) = ms

abbrev pub is_firing : Status → Bool
is_firing firing = true
is_firing passing = false

unfoldable pub notify_all : List MuteRow → List CheckResult → List Event
notify_all mutes [] = []
notify_all mutes (r ∷ rs) =
    let rest = notify_all mutes rs in
    if not (is_muted mutes r) && is_firing r.status then notified r ∷ rest else rest

abbrev pub Outcome : Type 0
Outcome = List Event × Result (Unit {0})

-- The batch is written after the notifications, and its failure ends the tick.
abbrev pub and_then : List Event → List ChecksResultRow → Outcome → Result (Unit {0}) → Outcome
and_then sent rows rest (err e) = (sent, err e)
and_then sent rows (later, r) (ok u) = (sent ++ wrote rows ∷ later, r)

module _ (w : World) (checks : List Check) (now : Time) where
  abbrev pub mutes_of : String → List MuteRow
  mutes_of server = mutes_or_none (w.mutes server)

  -- A server whose input cannot be assembled is passed over.
  abbrev pub run_server : String → Result Input → Outcome → Outcome
  run_server server (err e) rest = rest
  run_server server (ok input) rest =
      let results = run input checks in
      let rows = map (to_row now (mutes_of server)) results in
      and_then (notify_all (mutes_of server) results) rows rest (w.write rows)

  unfoldable pub run_servers : List String → Outcome
  run_servers [] = ([], ok tt)
  run_servers (s ∷ ss) = run_server s (w.input_of s) (run_servers ss)

  abbrev pub with_servers : Result (List String) → Outcome
  with_servers (err e) = ([], err e)
  with_servers (ok ss) = run_servers ss

  abbrev pub with_lock : Result Bool → Outcome
  with_lock (err e) = ([], err e)
  with_lock (ok false) = ([], ok tt)
  with_lock (ok true) = with_servers w.server_ids

  unfoldable pub run_once : Outcome
  run_once = with_lock w.lock
