-- ===== src/Advisor/Agreement.antt =====
-- internal/advisor/vacuum.go and internal/checks/wraparound.go: two codes for one danger.
use lynceus.Prelude.{
  ◌≡◌, refl, sym, subst, ap₂, ◌∙◌, String, Bool, true, false, none, some, List, [], ◌∷◌, ◌++◌, map,
  flat_map, flat_map-append, Permᴰ, if◌then◌else◌,
}
use lynceus.Prelude.Int.{ℤ, pos, lez}
use lynceus.Prelude.Order.{nat_order, list_order}
use lynceus.Prelude.Sort.{sort, sort-perm, IsSorted, sort-IsSorted}
use lynceus.Checks.{
  Severity, info, warning, critical, FreezeInfo, Input, freeze_age, CheckResult, fires,
}
use lynceus.Checks.Connections.{ladder, at_severity}
use lynceus.Checks.Vacuum.{
  Float64, worse_age, eval_freeze, wrap_warning, wrap_critical, wraparound_check,
}
use lynceus.Advisor.Vacuum.{
  TableFreezeInfo, VacuumRecommendation, VacuumSeverity, low, medium, high, freezing, is_old,
  freeze_key, freeze_severity, freeze_found, freeze_one, freeze_advice,
}

abbrev pub as_table : FreezeInfo → TableFreezeInfo
as_table f = record { relation = f.relation; xid_age = f.xid_age; mxid_age = f.mxid_age }

abbrev pub same_severity : Severity → VacuumSeverity
same_severity critical = high
same_severity warning = medium
same_severity info = low

module _ (f64 : Float64) where
  -- The recommendation that says what a result of the check says.
  abbrev pub as_advice : CheckResult → String → ℤ → VacuumRecommendation f64.F
  as_advice r kind age = record {
    relation = r.object;
    category = freezing;
    severity = same_severity r.severity;
    dead_ratio = f64.of_int (pos 0);
    detail = is_old r.object kind age;
  }

  abbrev pub advice_of : CheckResult → List (VacuumRecommendation f64.F)
  advice_of r = elim r.detail [ freeze_age kind age max_age ↦ as_advice r kind age ∷ [] | _ ↦ [] ]

  laddered :
      (f : FreezeInfo) (kind : String) (age : ℤ)
      → freeze_found f64 f.relation kind age (freeze_severity f64 age)
        ≡ flat_map advice_of (
            at_severity (ladder wrap_warning wrap_critical age) (λ sev.
              fires "vacuum.wraparound" "vacuum" sev f.relation
                (freeze_age kind age f.autovacuum_freeze_max_age)))
  laddered f kind age = by_tests (lez (pos 1500000000) age) (lez (pos 500000000) age)
    where
      by_tests :
          (c w : Bool)
          → freeze_found f64 f.relation kind age
              (if c then some high else if w then some medium else none)
            ≡ flat_map advice_of (
                at_severity (if c then some critical else if w then some warning else none) (λ sev.
                  fires "vacuum.wraparound" "vacuum" sev f.relation
                    (freeze_age kind age f.autovacuum_freeze_max_age)))
      by_tests true w = refl
      by_tests false true = refl
      by_tests false false = refl

  same_one : (f : FreezeInfo) → freeze_one f64 (as_table f) ≡ flat_map advice_of (eval_freeze f)
  same_one f = let p = worse_age f.xid_age f.mxid_age in laddered f p.1 p.0

  all_same :
      (fs : List FreezeInfo)
      → flat_map (freeze_one f64) (map as_table fs) ≡ flat_map advice_of (flat_map eval_freeze fs)
  all_same [] = refl
  all_same (f ∷ fs) =
      ap₂ ◌++◌ (same_one f) (all_same fs)
      ∙ sym (flat_map-append advice_of (eval_freeze f) (flat_map eval_freeze fs))

  -- On the same freeze ages, the advisor's recommendations are those that say what the wraparound
  -- check's results say, critical as high and warning as medium, in order of severity and relation.
  pub freeze_advice-agrees :
      (input : Input)
      → Permᴰ
          (freeze_advice f64 (map as_table input.freeze_ages))
          (flat_map advice_of (wraparound_check.eval input))
        × IsSorted (freeze_key f64) (freeze_advice f64 (map as_table input.freeze_ages))
  unfolding freeze_advice
  freeze_advice-agrees input =
      let same = all_same input.freeze_ages in
      (
        subst
            (λ rs.
              Permᴰ
                (sort (freeze_key f64) (flat_map (freeze_one f64) (map as_table input.freeze_ages)))
                rs)
            same
            (sort-perm (freeze_key f64)
              (flat_map (freeze_one f64) (map as_table input.freeze_ages))),
        sort-IsSorted (freeze_key f64) (flat_map (freeze_one f64) (map as_table input.freeze_ages)),
      )
