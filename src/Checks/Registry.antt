-- ===== src/Checks/Registry.antt =====
-- internal/checks: the checks in the order in which their files register them.
pub mod Stamped
use lynceus.Prelude.{
  ℕ, ◌≡◌, refl, sym, ap, String, Bool, true, false, inl, inr, Bool-cases, Option, none, some, List,
  [], ◌∷◌, ◌++◌, map, flat_map, Memᴰ, All, All-mem, if◌then◌else◌, mem-flat_map, ◌||◌, not,
  string_eq, ◌==◌,
}
use lynceus.Prelude.Int.{ℤ, pos, lez, ltz}
use lynceus.Prelude.Numerals.{trim_space, parse_int}
use lynceus.Prelude.Text.{codes}
use mathlib.Core.List.Memᴰ
use lynceus.Checks.{
  XminInfo, Severity, Status, firing, Input, SettingInfo, CheckResult, Check, Detail, fires, stamp,
  run,
}
use lynceus.Checks.Settings.{
  disabled_features_check, fsync_check, shared_buffers_check, stats_check, work_mem_check,
  BoolFlagRule, flag, eval_flags, feature_rules, fsync_rules, check_size, check_target,
  bytes_of_setting, small_size, coarse, by_name, io_timing_rule,
}
use lynceus.Checks.Connections.{
  active_long_running_check, blocking_check, idle_in_transaction_check, at_severity, eval_active,
  eval_idle, eval_blocking,
}
use lynceus.Checks.Indexes.{
  index_advisor_check, invalid_index_check, unused_index_check, eval_missing, eval_invalid,
  eval_unused,
}
use lynceus.Checks.Vacuum.{
  Float64, insufficient_vacuum_frequency_check, wraparound_check, xmin_horizon_check, trigger,
  eval_freeze, eval_xmin, eval_table,
}

abbrev pub default_checks : Float64 → (ℤ → String) → List Check
default_checks f64 pid_text =
    active_long_running_check pid_text
    ∷ blocking_check pid_text
    ∷ idle_in_transaction_check pid_text
    ∷ index_advisor_check
    ∷ invalid_index_check
    ∷ unused_index_check
    ∷ disabled_features_check
    ∷ fsync_check
    ∷ shared_buffers_check
    ∷ stats_check
    ∷ work_mem_check
    ∷ insufficient_vacuum_frequency_check f64
    ∷ wraparound_check
    ∷ xmin_horizon_check
    ∷ []
