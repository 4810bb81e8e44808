-- ===== src/Advisor/Config.antt =====
-- internal/advisor/config.go: `ConfigAdvice`. The reading of a float64 is an argument, `none` at an
-- error; the texts of a recommendation are the source's.
use lynceus.Prelude.{
  ℕ, String, Bool, false, if◌then◌else◌, Option, none, some, List, [], ◌∷◌, flat_map, string_eq,
  ◌==◌,
}
use lynceus.Prelude.Text.{codes}
use lynceus.Prelude.Order.{nat_order, list_order}
use lynceus.Prelude.Sort.{sort}
use lynceus.Prelude.Dict.{Dict, get, put}
use lynceus.Checks.Vacuum.{Float64}

pub data ConfigCategory : Type 0 where
  memory durability autovacuum planner : ConfigCategory

pub data ConfigSeverity : Type 0 where
  low medium high : ConfigSeverity

pub record ConfigSettingInput : Type 0 where
  pub name : String
  pub value : String
  pub unit : String
  pub source : String

pub record ConfigRecommendation : Type 0 where
  pub setting : String
  pub category : ConfigCategory
  pub severity : ConfigSeverity
  pub current : String
  pub suggested : String
  pub detail : String

abbrev pub Settings : Type 0
Settings = Dict String ConfigSettingInput

-- Of two settings of one name the later counts.
abbrev pub index_settings : Settings → List ConfigSettingInput → Settings
index_settings by [] = by
index_settings by (s ∷ ss) = index_settings (put s.name s by) ss

-- One of the source's conditions, with what it recommends.
pub record ConfigRule : Type 0 where
  pub setting : String
  pub is_flagged : ConfigSettingInput → Bool
  pub category : ConfigCategory
  pub severity : ConfigSeverity
  pub current : ConfigSettingInput → String
  pub suggested : String
  pub detail : String

abbrev pub recommended : ConfigRule → Option ConfigSettingInput → List ConfigRecommendation
recommended r none = []
recommended r (some s) =
    if r.is_flagged s
    then record {
      setting = r.setting;
      category = r.category;
      severity = r.severity;
      current = r.current s;
      suggested = r.suggested;
      detail = r.detail;
    }
      ∷ []
    else []

abbrev pub switched_off : String → ConfigSeverity → String → ConfigRule
switched_off name sev detail = record {
  setting = name;
  is_flagged = λ s. s.value == "off";
  category = durability;
  severity = sev;
  current = λ s. "off";
  suggested = "on";
  detail = detail;
}

abbrev pub untuned : String → ConfigCategory → ConfigSeverity → String → String → ConfigRule
untuned name category sev suggested detail = record {
  setting = name;
  is_flagged = λ s. s.source == "default";
  category = category;
  severity = sev;
  current = λ s. s.value;
  suggested = suggested;
  detail = detail;
}

abbrev pub config_rank : ConfigSeverity → ℕ
config_rank high = 0
config_rank medium = 1
config_rank low = 2

-- Severity, then setting.
abbrev pub config_key : ConfigRecommendation → List (List ℕ)
config_key r = (config_rank r.severity ∷ []) ∷ codes r.setting ∷ []

module _ (f64 : Float64) (parse_float : String → Option f64.F) where
  abbrev pub reaches : String → Option f64.F → Bool
  reaches limit none = false
  reaches limit (some f) = f64.leq (f64.literal limit) f

  abbrev pub at_limit :
      String → String → ConfigCategory → ConfigSeverity → String → String → ConfigRule
  at_limit name limit category sev suggested detail = record {
    setting = name;
    is_flagged = λ s. reaches limit (parse_float s.value);
    category = category;
    severity = sev;
    current = λ s. s.value;
    suggested = suggested;
    detail = detail;
  }

  abbrev pub config_rules : List ConfigRule
  config_rules =
      switched_off "fsync" high
        "fsync is off — a crash can corrupt the cluster with unrecoverable data loss; re-enable."
      ∷ switched_off "full_page_writes" high
          "full_page_writes is off — a crash mid-write can leave torn pages; re-enable."
      ∷ switched_off "synchronous_commit" medium
          "synchronous_commit is off — recently committed transactions can be lost within the async window."
      ∷ untuned "shared_buffers" memory medium "~25% of dedicated-host RAM"
          "shared_buffers is at its default; raise toward ~25% of dedicated-host memory."
      ∷ untuned "work_mem" memory low "raise per-operation sort/hash memory"
          "work_mem is at its default; large sorts and hash joins will spill to disk."
      ∷ untuned "maintenance_work_mem" memory low "raise for faster VACUUM / CREATE INDEX"
          "maintenance_work_mem is at its default; maintenance operations are memory-starved."
      ∷ at_limit "autovacuum_vacuum_scale_factor" "0.2" autovacuum medium
          "lower (e.g. 0.05) so autovacuum triggers sooner"
          "autovacuum_vacuum_scale_factor is at or above the 0.2 default; large tables accumulate bloat before autovacuum fires."
      ∷ untuned "autovacuum_vacuum_cost_limit" autovacuum low
          "raise so autovacuum keeps up under write load"
          "autovacuum_vacuum_cost_limit is at its default; autovacuum may fall behind on busy servers."
      ∷ at_limit "random_page_cost" "4.0" planner low "lower toward 1.1 on SSD/managed storage"
          "random_page_cost is at or above the 4.0 default; the planner over-penalizes index scans on SSD-backed storage."
      ∷ []

  unfoldable pub config_advice : List ConfigSettingInput → List ConfigRecommendation
  config_advice settings =
      let by = index_settings [] settings in
      sort config_key (flat_map (λ r. recommended r (get r.setting by)) config_rules)
