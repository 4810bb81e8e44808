-- ===== src/Insight/Registry.antt =====
-- internal/insight/insight.go: `DetectAll` and `DetectPlans`.
pub mod Origin
use lynceus.Prelude.{Option, none, some, List, [], ◌∷◌, ◌++◌}
use lynceus.Checks.Vacuum.{Float64}
use lynceus.PlanExtract.{QueryPlan}
use lynceus.Insight.{Insight}
use lynceus.Insight.Scans.{
  detect_slow_scan, detect_inefficient_index, detect_lossy_bitmap, detect_wrong_index,
}
use lynceus.Insight.Estimates.{detect_stale_stats, detect_mis_estimate}
use lynceus.Insight.Memory.{detect_disk_sort, detect_hash_batches, detect_disk_spill}
use lynceus.Insight.Joins.{detect_nested_loop, detect_large_offset}

module _ (f64 : Float64) where
  -- The detectors of `registry` that look at each node by itself, in its order.
  unfoldable pub detect_by_node : QueryPlan → List (Insight f64.F)
  detect_by_node qp =
      detect_slow_scan f64 qp
      ++ (detect_disk_sort f64 qp
          ++ (detect_hash_batches f64 qp
              ++ (detect_inefficient_index f64 qp
                  ++ (detect_stale_stats f64 qp
                      ++ (detect_mis_estimate f64 qp
                          ++ (detect_large_offset f64 qp
                              ++ (detect_lossy_bitmap f64 qp
                                  ++ (detect_nested_loop f64 qp ++ detect_wrong_index f64 qp))))))))

  abbrev pub after_nodes :
      List (Insight f64.F) → Option (List (Insight f64.F)) → Option (List (Insight f64.F))
  after_nodes found none = none
  after_nodes found (some last) = some (found ++ last)

  unfoldable pub detect_all : QueryPlan → Option (List (Insight f64.F))
  detect_all qp = after_nodes (detect_by_node qp) (detect_disk_spill f64 qp)

  abbrev pub and_rest :
      Option (List (Insight f64.F)) → Option (List (Insight f64.F)) → Option (List (Insight f64.F))
  and_rest none rest = none
  and_rest (some found) rest = after_nodes found rest

  unfoldable pub detect_plans : List QueryPlan → Option (List (Insight f64.F))
  detect_plans [] = some []
  detect_plans (qp ∷ qps) = and_rest (detect_all qp) (detect_plans qps)
