-- ===== src/Checks/Settings.antt =====
-- internal/checks/settings.go: the checks of server settings.
use lynceus.Prelude.{
  ℕ, String, Bool, not, ◌||◌, if◌then◌else◌, Option, none, some, List, [], ◌∷◌, ◌++◌, find,
  string_eq, bytes_eq, ◌==◌, flat_map,
}
use lynceus.Prelude.Int.{ℤ, pos, ltz, lez, scale, int64}
use lynceus.Prelude.Numerals.{trim_space, parse_int}
use lynceus.Prelude.Text.{codes}
use lynceus.Checks.{
  Severity, info, warning, critical, SettingInfo, Input, text, setting_bytes, statistics_target,
  CheckResult, Check, fires,
}

abbrev pub by_name : Input → String → Option SettingInfo
by_name input name = find (λ s. s.name == name) input.settings

abbrev pub on_text : List ℕ
on_text = b'o' ∷ b'n' ∷ []

abbrev pub off_text : List ℕ
off_text = b'o' ∷ b'f' ∷ b'f' ∷ []

unfoldable pub setting_bool : String → Bool
setting_bool value = trim_space (codes value) == on_text

abbrev pub off : String → Bool
off v = not (setting_bool v)

unfoldable pub async_commit : String → Bool
async_commit v = trim_space (codes v) == off_text

abbrev pub unit_bytes : String → Option ℕ
unit_bytes unit =
    if (unit == "") || (unit == "B")
    then some 1
    else if unit == "kB"
    then some 1024
    else if unit == "8kB"
    then some 8192
    else if unit == "16kB"
    then some 16384
    else if unit == "MB"
    then some 1048576
    else if unit == "GB"
    then some 1073741824
    else none

abbrev pub in_bytes : Option ℤ → Option ℕ → Option ℤ
in_bytes none mult = none
in_bytes (some v) none = none
in_bytes (some v) (some mult) = some (int64 (scale v mult))

-- The product wraps around in 64 bits.
unfoldable pub bytes_of_setting : String → String → Option ℤ
bytes_of_setting value unit = in_bytes (parse_int (trim_space (codes value))) (unit_bytes unit)

pub record BoolFlagRule : Type 0 where
  pub name : String
  pub bad : String → Bool
  pub sev : Severity
  pub detail : String

abbrev pub flag : String → BoolFlagRule → Option SettingInfo → List CheckResult
flag id r none = []
flag id r (some s) =
    if r.bad s.value then fires id "settings" r.sev r.name (text r.detail) ∷ [] else []

abbrev pub eval_flags : Input → String → List BoolFlagRule → List CheckResult
eval_flags input id rules = flat_map (λ r. flag id r (by_name input r.name)) rules

abbrev pub feature_rules : List BoolFlagRule
feature_rules =
    record {
      name = "autovacuum";
      bad = off;
      sev = critical;
      detail =
          "autovacuum is off — dead tuples and transaction-id wraparound are no longer contained; re-enable immediately";
    }
    ∷ record {
      name = "track_counts";
      bad = off;
      sev = critical;
      detail =
          "track_counts is off — autovacuum cannot trigger and the planner loses row-count statistics; re-enable";
    }
    ∷ record {
      name = "track_activities";
      bad = off;
      sev = warning;
      detail =
          "track_activities is off — pg_stat_activity shows no live query state, blinding monitoring";
    }
    ∷ []

abbrev pub disabled_features_check : Check
disabled_features_check = record {
  id = "settings.disabled_features";
  category = "settings";
  eval = λ input. eval_flags input "settings.disabled_features" feature_rules;
}

abbrev pub fsync_rules : List BoolFlagRule
fsync_rules =
    record {
      name = "fsync";
      bad = off;
      sev = critical;
      detail =
          "fsync is off — an OS crash can silently corrupt the entire cluster; only ever acceptable on disposable data";
    }
    ∷ record {
      name = "full_page_writes";
      bad = off;
      sev = critical;
      detail =
          "full_page_writes is off — a crash mid-write can leave torn pages that recovery cannot repair";
    }
    ∷ record {
      name = "synchronous_commit";
      bad = async_commit;
      sev = warning;
      detail =
          "synchronous_commit is off — committed transactions can be lost in a crash within the flush window";
    }
    ∷ []

abbrev pub fsync_check : Check
fsync_check = record {
  id = "settings.fsync";
  category = "settings";
  eval = λ input. eval_flags input "settings.fsync" fsync_rules;
}

-- A size at most the default is flagged.
abbrev pub small_size : String → String → Severity → ℕ → Option ℤ → List CheckResult
small_size id name sev default none = []
small_size id name sev default (some b) =
    if lez b (pos default) then fires id "settings" sev name (setting_bytes name b) ∷ [] else []

abbrev pub check_size : String → String → Severity → ℕ → Option SettingInfo → List CheckResult
check_size id name sev default none = []
check_size id name sev default (some s) =
    small_size id name sev default (bytes_of_setting s.value s.unit)

abbrev pub shared_buffers_default : ℕ
shared_buffers_default = 134217728

abbrev pub shared_buffers_check : Check
shared_buffers_check = record {
  id = "settings.shared_buffers";
  category = "settings";
  eval = λ input.
      check_size "settings.shared_buffers" "shared_buffers" warning shared_buffers_default
        (by_name input "shared_buffers");
}

abbrev pub work_mem_default : ℕ
work_mem_default = 4194304

abbrev pub work_mem_check : Check
work_mem_check = record {
  id = "settings.work_mem";
  category = "settings";
  eval = λ input.
      check_size "settings.work_mem" "work_mem" info work_mem_default (by_name input "work_mem");
}

abbrev pub coarse : Option ℤ → List CheckResult
coarse none = []
coarse (some n) =
    if ltz n (pos 100)
    then fires "settings.stats" "settings" info "default_statistics_target" (statistics_target n)
      ∷ []
    else []

abbrev pub check_target : Option SettingInfo → List CheckResult
check_target none = []
check_target (some s) = coarse (parse_int (trim_space (codes s.value)))

abbrev pub io_timing_rule : BoolFlagRule
io_timing_rule = record {
  name = "track_io_timing";
  bad = off;
  sev = info;
  detail =
      "track_io_timing is off — plans carry no per-node I/O timing, limiting slow-scan analysis";
}

abbrev pub stats_check : Check
stats_check = record {
  id = "settings.stats";
  category = "settings";
  eval = λ input.
      check_target (by_name input "default_statistics_target")
      ++ flag "settings.stats" io_timing_rule (by_name input "track_io_timing");
}
