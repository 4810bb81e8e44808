-- ===== src/Insight/Estimates.antt =====
-- internal/insight/misestimate.go
use lynceus.Prelude.{
  Bool, true, false, not, ◌&&◌, if◌then◌else◌, Option, none, some, List, [], ◌∷◌, string_eq, ◌==◌,
}
use lynceus.Prelude.Int.{ℤ, pos, ltz, lez}
use lynceus.Checks.Vacuum.{Float64}
use lynceus.PlanExtract.{Text, PlanFields, PlanNode, QueryPlan}
use lynceus.Insight.{
  Insight, Severity, low, medium, high, mis_estimate, stale_stats, estimated_scan, estimated_node,
  detect_nodes, found_if,
}

abbrev pub has_children : List PlanNode → Bool
has_children [] = false
has_children (n ∷ ns) = true

-- The larger and the smaller of estimate and actual, the smaller at least 1.
abbrev pub higher : PlanFields → ℤ
higher f = if ltz f.plan_rows f.actual_rows then f.actual_rows else f.plan_rows

abbrev pub at_least_one : ℤ → ℤ
at_least_one n = if ltz n (pos 1) then pos 1 else n

abbrev pub lower : PlanFields → ℤ
lower f = at_least_one (if ltz f.plan_rows f.actual_rows then f.plan_rows else f.actual_rows)

pub record EstimateDetector (F : Type 0) : Type 0 where
  pub min_ratio : F
  pub min_rows : ℤ

module _ (f64 : Float64) where
  abbrev pub estimate_ratio : PlanFields → Option f64.F
  estimate_ratio f =
      if lez f.actual_loops (pos 0)
      then none
      else some (f64.div (f64.of_int (higher f)) (f64.of_int (lower f)))

  abbrev pub estimate_severity : f64.F → Severity
  estimate_severity ratio =
      if f64.leq (f64.literal "1000") ratio
      then high
      else if f64.leq (f64.literal "100") ratio
      then medium
      else low

  abbrev pub default_estimate : EstimateDetector f64.F
  default_estimate = record { min_ratio = f64.literal "100"; min_rows = pos 1000 }

  -- `fits` is whether the detector looks at the node at all.
  abbrev pub worth :
      EstimateDetector f64.F
      → PlanFields
      → (fits : Bool) → (f64.F → Insight f64.F)
      → Option f64.F
      → List (Insight f64.F)
  worth d f fits found none = []
  worth d f fits found (some ratio) =
      found_if
        (fits
          && not (f64.less ratio d.min_ratio)
          && not (ltz f.plan_rows d.min_rows && ltz f.actual_rows d.min_rows))
        (found ratio)

  abbrev pub look_stale_stats :
      EstimateDetector f64.F → QueryPlan → PlanFields → List PlanNode → Text → List (Insight f64.F)
  look_stale_stats d qp f ns path =
      worth d f (not (has_children ns) && not (f.relation_name == ""))
        (λ ratio. record {
          kind = stale_stats;
          severity = estimate_severity ratio;
          fingerprint = qp.fingerprint;
          relation = f.relation_name;
          node_path = path;
          rows_returned = f.actual_rows;
          rows_scanned = f.plan_rows;
          selectivity = f64.literal "0";
          detail = estimated_scan f.relation_name f.plan_rows f.actual_rows ratio;
        })
        (estimate_ratio f)

  abbrev pub look_mis_estimate :
      EstimateDetector f64.F → QueryPlan → PlanFields → List PlanNode → Text → List (Insight f64.F)
  look_mis_estimate d qp f ns path =
      worth d f (has_children ns)
        (λ ratio. record {
          kind = mis_estimate;
          severity = estimate_severity ratio;
          fingerprint = qp.fingerprint;
          relation = f.relation_name;
          node_path = path;
          rows_returned = f.actual_rows;
          rows_scanned = f.plan_rows;
          selectivity = f64.literal "0";
          detail = estimated_node f.node_type f.plan_rows f.actual_rows ratio;
        })
        (estimate_ratio f)

  unfoldable pub detect_stale_stats : QueryPlan → List (Insight f64.F)
  detect_stale_stats qp = detect_nodes (look_stale_stats default_estimate qp) qp

  unfoldable pub detect_mis_estimate : QueryPlan → List (Insight f64.F)
  detect_mis_estimate qp = detect_nodes (look_mis_estimate default_estimate qp) qp
