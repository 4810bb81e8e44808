-- ===== src/Checks/Connections.antt =====
-- internal/checks/connections_active.go, connections_idle.go, connections_blocking.go. `pid_text`
-- writes a process id as the object of a result.
use lynceus.Prelude.{
  ℕ, String, ◌||◌, if◌then◌else◌, Option, none, some, List, [], ◌∷◌, flat_map, string_eq, ◌==◌,
}
use lynceus.Prelude.Int.{ℤ, pos, lez}
use lynceus.Checks.{
  Severity, warning, critical, ConnInfo, BlockEdge, active_for, idle_for, blocked_by, CheckResult,
  Check, fires,
}

-- The ladder of two thresholds that the checks share.
abbrev pub ladder : ℕ → ℕ → ℤ → Option Severity
ladder warn crit n =
    if lez (pos crit) n then some critical else if lez (pos warn) n then some warning else none

abbrev pub at_severity : Option Severity → (Severity → CheckResult) → List CheckResult
at_severity none make = []
at_severity (some sev) make = make sev ∷ []

module _ (pid_text : ℤ → String) where
  abbrev pub eval_active : ConnInfo → List CheckResult
  eval_active c =
      if c.state == "active"
      then at_severity (ladder 300 900 c.active_seconds) (λ sev.
        fires "connections.long_running_active" "connections" sev (pid_text c.pid)
          (active_for c.active_seconds c.wait_event_type))
      else []

  abbrev pub active_long_running_check : Check
  active_long_running_check = record {
    id = "connections.long_running_active";
    category = "connections";
    eval = λ input. flat_map eval_active input.connections;
  }

  abbrev pub eval_idle : ConnInfo → List CheckResult
  eval_idle c =
      if (c.state == "idle in transaction") || (c.state == "idle in transaction (aborted)")
      then at_severity (ladder 300 900 c.state_seconds) (λ sev.
        fires "connections.idle_in_transaction" "connections" sev (pid_text c.pid)
          (idle_for c.state c.state_seconds c.xact_seconds))
      else []

  abbrev pub idle_in_transaction_check : Check
  idle_in_transaction_check = record {
    id = "connections.idle_in_transaction";
    category = "connections";
    eval = λ input. flat_map eval_idle input.connections;
  }

  abbrev pub eval_blocking : BlockEdge → List CheckResult
  eval_blocking e =
      let sev = if lez (pos 60) e.blocked_wait_seconds then critical else warning in
      fires "connections.blocking" "connections" sev (pid_text e.blocked_pid)
        (blocked_by e.blocked_pid e.blocker_pid e.blocked_wait_seconds)
      ∷ []

  abbrev pub blocking_check : Check
  blocking_check = record {
    id = "connections.blocking";
    category = "connections";
    eval = λ input. flat_map eval_blocking input.blocking;
  }
