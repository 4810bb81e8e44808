-- ===== src/Advisor/Tests.antt =====
-- internal/advisor: two tables, of which one is old.
use lynceus.Prelude.{ℕ, String, none, [], ◌∷◌, map, flat_map, Permᴰ, ◌≡◌, refl}
use lynceus.Prelude.Int.{pos}
use lynceus.Prelude.Order.{nat_order, list_order}
use lynceus.Prelude.Sort.{IsSorted, sort}
use lynceus.Prelude.Dict.{get, put}
use lynceus.Checks.{Input, FreezeInfo}
use lynceus.Checks.Vacuum.{wraparound_check}
use lynceus.Checks.Tests.{whole}
use lynceus.Advisor.Config.{ConfigSettingInput, ConfigRecommendation, config_advice}
use lynceus.Advisor.Vacuum.{freeze_key, freeze_advice}
use lynceus.Advisor.Agreement.{as_table, advice_of, freeze_advice-agrees}

abbrev freeze : String → ℕ → FreezeInfo
freeze name age = record {
  scope = "table";
  relation = name;
  xid_age = pos 7;
  mxid_age = pos age;
  autovacuum_freeze_max_age = pos 0;
}

abbrev input : Input
input = record {
  server_id = "s1";
  table_stats = [];
  freeze_ages =
      freeze "public.a" 600000000 ∷ freeze "public.b" 3 ∷ freeze "public.c" 1500000000 ∷ [];
  index_recs = [];
  connections = [];
  blocking = [];
  indexes = [];
  xmin_horizon = none;
  settings = [];
}

freeze_advice-agrees_example :
    Permᴰ
      (freeze_advice whole (map as_table input.freeze_ages))
      (flat_map (advice_of whole) (wraparound_check.eval input))
    × IsSorted (freeze_key whole) (freeze_advice whole (map as_table input.freeze_ages))
freeze_advice-agrees_example = freeze_advice-agrees whole input

abbrev setting : String → String → String → ConfigSettingInput
setting name value source = record { name = name; value = value; unit = ""; source = source }

abbrev shown : ConfigRecommendation → String × String
shown r = (r.setting, r.current)

-- The later value of a name counts, and the more severe recommendation is first.
config_first :
    map shown (
      config_advice whole
        (λ v. none)
        (setting "work_mem" "4096" "default"
          ∷ setting "fsync" "on" "default"
          ∷ setting "random_page_cost" "x" "user"
          ∷ setting "fsync" "off" "user"
          ∷ []))
    ≡ ("fsync", "off") ∷ ("work_mem", "4096") ∷ []
unfolding config_advice sort get put
config_first = refl
