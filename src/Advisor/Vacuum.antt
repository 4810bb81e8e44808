-- ===== src/Advisor/Vacuum.antt =====
-- internal/advisor/vacuum.go: `VacuumAdvice` and `FreezeAdvice`. The arithmetic of float64 is an
-- argument, and `to_int` is its conversion to int64.
use lynceus.Prelude.{
  ℕ, String, Bool, true, false, ◌&&◌, ◌||◌, if◌then◌else◌, Option, none, some, List, [], ◌∷◌, ◌++◌,
  flat_map,
}
use lynceus.Prelude.Int.{ℤ, pos, ltz, lez, ◌+ℤ◌, int64}
use lynceus.Prelude.Text.{codes}
use lynceus.Prelude.Order.{nat_order, list_order}
use lynceus.Prelude.Sort.{sort}
use lynceus.Checks.Vacuum.{Float64, worse_age}
use lynceus.Ingest.Rows.{Time, zero_time, unix}

pub data VacuumCategory : Type 0 where
  bloat performance activity freezing : VacuumCategory

pub data VacuumSeverity : Type 0 where
  low medium high : VacuumSeverity

-- The texts that `fmt.Sprintf` makes, by their arguments.
pub data VacuumDetail (F : Type 0) : Type 0 where
  is_dead : (relation : String) (ratio : F) (dead live : ℤ) → VacuumDetail F
  is_stale : (relation : String) (modified : ℤ) → VacuumDetail F
  is_lagging : (relation : String) (dead : ℤ) → VacuumDetail F
  is_old : (relation kind : String) (age : ℤ) → VacuumDetail F

pub record TableVacuumInfo : Type 0 where
  pub relation : String
  pub live_tuples : ℤ
  pub dead_tuples : ℤ
  pub n_mod_since_analyze : ℤ
  pub last_vacuum : Time
  pub last_autovacuum : Time

pub record TableFreezeInfo : Type 0 where
  pub relation : String
  pub xid_age : ℤ
  pub mxid_age : ℤ

pub record VacuumRecommendation (F : Type 0) : Type 0 where
  pub relation : String
  pub category : VacuumCategory
  pub severity : VacuumSeverity
  pub dead_ratio : F
  pub detail : VacuumDetail F

abbrev pub severity_rank : VacuumSeverity → ℕ
severity_rank high = 0
severity_rank medium = 1
severity_rank low = 2

-- The categories' texts, which are compared.
abbrev pub category_text : VacuumCategory → String
category_text bloat = "bloat"
category_text performance = "performance"
category_text activity = "activity"
category_text freezing = "freezing"

module _ (f64 : Float64) where
  abbrev pub Recommendation : Type 0
  Recommendation = VacuumRecommendation f64.F

  -- Severity, then relation.
  abbrev pub freeze_key : Recommendation → List (List ℕ)
  freeze_key r = (severity_rank r.severity ∷ []) ∷ codes r.relation ∷ []

  abbrev pub freeze_severity : ℤ → Option VacuumSeverity
  freeze_severity age =
      if lez (pos 1500000000) age
      then some high
      else if lez (pos 500000000) age
      then some medium
      else none

  abbrev pub freeze_found : String → String → ℤ → Option VacuumSeverity → List Recommendation
  freeze_found relation kind age none = []
  freeze_found relation kind age (some sev) =
      record {
        relation = relation;
        category = freezing;
        severity = sev;
        dead_ratio = f64.of_int (pos 0);
        detail = is_old relation kind age;
      }
      ∷ []

  abbrev pub freeze_one : TableFreezeInfo → List Recommendation
  freeze_one f =
      let (age, kind) = worse_age f.xid_age f.mxid_age in
      freeze_found f.relation kind age (freeze_severity age)

  unfoldable pub freeze_advice : List TableFreezeInfo → List Recommendation
  freeze_advice fs = sort freeze_key (flat_map freeze_one fs)

  -- The rest is `VacuumAdvice`: severity, then relation, then category.
  abbrev pub vacuum_key : Recommendation → List (List ℕ)
  vacuum_key r =
      (severity_rank r.severity ∷ []) ∷ codes r.relation ∷ codes (category_text r.category) ∷ []

  abbrev pub dead_ratio_of : ℤ → ℤ → f64.F
  dead_ratio_of dead total =
      if ltz (pos 0) total then f64.div (f64.of_int dead) (f64.of_int total) else f64.of_int (pos 0)

  abbrev pub advise :
      TableVacuumInfo
      → f64.F
      → VacuumCategory
      → VacuumSeverity
      → VacuumDetail f64.F
      → List Recommendation
  advise t ratio category sev detail =
      record {
        relation = t.relation;
        category = category;
        severity = sev;
        dead_ratio = ratio;
        detail = detail;
      }
      ∷ []

  abbrev pub bloat_one : TableVacuumInfo → f64.F → List Recommendation
  bloat_one t ratio =
      if lez (pos 1000) t.dead_tuples && f64.leq (f64.literal "0.20") ratio
      then advise t ratio bloat (if f64.leq (f64.literal "0.40") ratio then high else medium)
          (is_dead t.relation ratio t.dead_tuples t.live_tuples)
      else []

  abbrev pub at_least_thousand : ℤ → ℤ
  at_least_thousand n = if ltz n (pos 1000) then pos 1000 else n

  abbrev pub share : String → ℤ → ℤ
  share part n = f64.to_int (f64.mul (f64.of_int n) (f64.literal part))

  abbrev pub performance_one : TableVacuumInfo → f64.F → List Recommendation
  performance_one t ratio =
      if lez (at_least_thousand (share "0.10" t.live_tuples)) t.n_mod_since_analyze
      then advise t ratio performance
          (if ltz (pos 0) t.live_tuples && lez (share "0.50" t.live_tuples) t.n_mod_since_analyze
            then high
            else medium)
          (is_stale t.relation t.n_mod_since_analyze)
      else []

  abbrev pub never : Time → Bool
  never zero_time = true
  never (unix n) = false

  -- `now.Sub(t) > 24*time.Hour`, where times have whole seconds
  abbrev pub long_ago : ℤ → Time → Bool
  long_ago now zero_time = true
  long_ago now (unix n) = ltz (n +ℤ pos 86400) now

  abbrev pub activity_one : ℤ → TableVacuumInfo → f64.F → List Recommendation
  activity_one now t ratio =
      if lez (pos 10000) t.dead_tuples
        && (never t.last_autovacuum || long_ago now t.last_autovacuum)
      then advise t ratio activity (if never t.last_autovacuum then high else medium)
          (is_lagging t.relation t.dead_tuples)
      else []

  abbrev pub vacuum_one : ℤ → TableVacuumInfo → List Recommendation
  vacuum_one now t =
      let ratio = dead_ratio_of t.dead_tuples (int64 (t.live_tuples +ℤ t.dead_tuples)) in
      bloat_one t ratio ++ performance_one t ratio ++ activity_one now t ratio

  unfoldable pub vacuum_advice : List TableVacuumInfo → ℤ → List Recommendation
  vacuum_advice tables now = sort vacuum_key (flat_map (vacuum_one now) tables)
