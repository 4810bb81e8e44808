-- ===== src/Advisor/Shown.antt =====
-- internal/advisor/config.go: the recommendations are about the settings that were given.
use lynceus.Prelude.{
  ◌≡◌, refl, sym, String, string_eq, ◌==◌, Bool, true, Option, none, some, List, [], ◌∷◌, flat_map,
  All, append-All, Bool-cases, inl, inr,
}
use lynceus.Prelude.Dict.{get}
use lynceus.Prelude.Order.{nat_order, list_order}
use lynceus.Prelude.Sort.{sort-perm, perm_sym, All-perm, IsSorted, sort-IsSorted}
use lynceus.Checks.Vacuum.{Float64}
use lynceus.Advisor.Config.{
  ConfigSettingInput, ConfigRecommendation, ConfigRule, Settings, index_settings, recommended,
  config_key, config_rules, config_advice,
}

-- The recommendation names a setting and shows the value that it has.
abbrev pub IsShown : Settings → ConfigRecommendation → Type 0
IsShown by r = (s : ConfigSettingInput) × (get r.setting by ≡ some s) × (r.current ≡ s.value)

-- What the rule shows as current is the setting's value, where it flags the setting.
abbrev IsFair : ConfigRule → Type 0
IsFair r = (s : ConfigSettingInput) → r.is_flagged s ≡ true → r.current s ≡ s.value

recommended-AreShown :
    (by : Settings) (r : ConfigRule) (o : Option ConfigSettingInput)
    → IsFair r
    → get r.setting by ≡ o
    → All (IsShown by) (recommended r o)
recommended-AreShown by r none fair h = tt
recommended-AreShown by r (some s) fair h = elim (Bool-cases (r.is_flagged s)) [
  | inl q ↦ rw q ((s, h, fair s q), tt)
  | inr q ↦ rw q tt
]

all-AreShown :
    (by : Settings) (rs : List ConfigRule)
    → All IsFair rs
    → All (IsShown by) (flat_map (λ r. recommended r (get r.setting by)) rs)
all-AreShown by [] h = tt
all-AreShown by (r ∷ rs) h =
    append-All (IsShown by) (recommended r (get r.setting by)) _
      (recommended-AreShown by r (get r.setting by) h.0 refl) (all-AreShown by rs h.1)

off : (s : ConfigSettingInput) → (s.value == "off") ≡ true → "off" ≡ s.value
off s q = sym ((string_eq.beq_iff s.value "off").0 q)

module _ (f64 : Float64) (parse_float : String → Option f64.F) where
  config_rules-AreFair : All IsFair (config_rules f64 parse_float)
  config_rules-AreFair =
      (off, (off, (off, (same _, (same _, (same _, (same _, (same _, (same _, tt)))))))))
    where
      same :
          (test : ConfigSettingInput → Bool) (s : ConfigSettingInput)
          → test s ≡ true
          → s.value ≡ s.value
      same test s q = refl

  -- Every recommendation is about a setting of the snapshot and shows its value, that of the later
  -- one where a name occurs twice. They are sorted by severity and then by name.
  pub config_advice-AreShown :
      (settings : List ConfigSettingInput)
      → All (IsShown (index_settings [] settings)) (config_advice f64 parse_float settings)
        × IsSorted config_key (config_advice f64 parse_float settings)
  unfolding config_advice
  config_advice-AreShown settings =
      let by = index_settings [] settings in
      (
        All-perm (IsShown by) (perm_sym (sort-perm config_key _))
            (all-AreShown by (config_rules f64 parse_float) config_rules-AreFair),
        sort-IsSorted config_key _,
      )
