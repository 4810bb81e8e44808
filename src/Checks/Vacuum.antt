-- ===== src/Checks/Vacuum.antt =====
-- internal/checks/wraparound.go, xmin_horizon.go, vacuum_frequency.go. The arithmetic of float64 is
-- an argument.
use lynceus.Prelude.{
  ℕ, String, Bool, ◌||◌, not, if◌then◌else◌, Option, none, some, List, [], ◌∷◌, flat_map,
}
use lynceus.Prelude.Int.{ℤ, pos, ltz}
use lynceus.Checks.{
  warning, critical, FreezeInfo, XminInfo, TableInfo, freeze_age, xmin_age, dead_tuples_of,
  CheckResult, Check, fires,
}
use lynceus.Checks.Connections.{ladder, at_severity}

-- The worse of the two ages.
abbrev pub worse_age : ℤ → ℤ → ℤ × String
worse_age xid mxid = if ltz xid mxid then (mxid, "MultiXact") else (xid, "transaction-id")

abbrev pub wrap_warning : ℕ
wrap_warning = 500000000

abbrev pub wrap_critical : ℕ
wrap_critical = 1500000000

abbrev pub eval_freeze : FreezeInfo → List CheckResult
eval_freeze f =
    let (age, kind) = worse_age f.xid_age f.mxid_age in
    at_severity (ladder wrap_warning wrap_critical age) (λ sev.
      fires "vacuum.wraparound" "vacuum" sev f.relation
        (freeze_age kind age f.autovacuum_freeze_max_age))

abbrev pub wraparound_check : Check
wraparound_check = record {
  id = "vacuum.wraparound";
  category = "vacuum";
  eval = λ input. flat_map eval_freeze input.freeze_ages;
}

abbrev pub eval_xmin : Option XminInfo → List CheckResult
eval_xmin none = []
eval_xmin (some x) = at_severity (ladder 50000000 500000000 x.oldest_xmin_age) (λ sev.
    fires "vacuum.xmin_horizon" "vacuum" sev x.holder_kind
      (xmin_age x.holder_kind x.oldest_xmin_age))

abbrev pub xmin_horizon_check : Check
xmin_horizon_check = record {
  id = "vacuum.xmin_horizon";
  category = "vacuum";
  eval = λ input. eval_xmin input.xmin_horizon;
}

-- `literal` gives a constant of the source by its text.
pub record Float64 : Type 1 where
  pub F : Type 0
  pub literal : String → F
  pub of_int : ℤ → F
  pub add : F → F → F
  pub mul : F → F → F
  pub less : F → F → Bool
  pub leq : F → F → Bool
  pub div : F → F → F
  pub to_int : F → ℤ

module _ (f64 : Float64) where
  abbrev pub trigger : ℤ → f64.F
  trigger live = f64.add (f64.literal "50.0") (f64.mul (f64.literal "0.2") (f64.of_int live))

  abbrev pub eval_table : TableInfo → List CheckResult
  eval_table t =
      let dead = f64.of_int t.dead_tuples in
      if ltz t.dead_tuples (pos 1000) || not (f64.less (trigger t.live_tuples) dead)
      then []
      else fires "vacuum.insufficient_frequency" "vacuum"
          (if f64.less (f64.mul (trigger t.live_tuples) (f64.literal "2.0")) dead
            then critical
            else warning)
          t.relation (dead_tuples_of t.dead_tuples t.live_tuples)
        ∷ []

  abbrev pub insufficient_vacuum_frequency_check : Check
  insufficient_vacuum_frequency_check = record {
    id = "vacuum.insufficient_frequency";
    category = "vacuum";
    eval = λ input. flat_map eval_table input.table_stats;
  }
