-- ===== src/Insight/Tests.antt =====
-- internal/insight: a limit over a sort that spilled to disk.
use lynceus.Prelude.{ℕ, ◌≡◌, All, refl, String, some, none, List, [], ◌∷◌, arith, ◌^◌}
use lynceus.Prelude.Int.{ℤ, pos}
use lynceus.Prelude.Text.{codes}
use lynceus.Checks.Tests.{whole}
use lynceus.PlanExtract.{PlanFields, plan_node, no_plans, and_plan, QueryPlan, of_root}
use lynceus.Insight.{Insight, disk_sort, low, sort_spilled, disk_spill, spilled, found_if}
use lynceus.Insight.Nodes.{IsFrom}
use lynceus.Insight.Scans.{
  detect_slow_scan, detect_inefficient_index, detect_lossy_bitmap, detect_wrong_index,
}
use lynceus.Insight.Estimates.{detect_stale_stats, detect_mis_estimate}
use lynceus.Insight.Memory.{
  next_pow2_from, next_pow2_mb, detect_disk_sort, detect_hash_batches, detect_disk_spill,
}
use lynceus.Insight.Memory.Power.{IsLeast, next_pow2_mb-IsLeast, next_pow2_mb-runs}
use lynceus.Insight.Joins.{detect_nested_loop, detect_large_offset}
use lynceus.Insight.Registry.{detect_by_node, detect_all}
use lynceus.Insight.Registry.Origin.{detect_all-IsFrom}

abbrev fields : String → String → ℤ → PlanFields
fields node_type space kb = record {
  node_type = node_type;
  relation_name = "orders";
  index_name = "";
  alias = "";
  join_type = "";
  scan_direction = "";
  startup_cost = 0;
  total_cost = 0;
  plan_rows = pos 8;
  plan_width = pos 4;
  actual_startup_time_ms = 0;
  actual_total_time_ms = 0;
  actual_rows = pos 1;
  actual_loops = pos 0;
  rows_removed_by_filter = pos 0;
  sort_method = "external merge";
  sort_space_type = space;
  sort_space_used_kb = kb;
  hash_batches = pos 0;
  original_hash_batches = pos 0;
  peak_memory_usage_kb = pos 0;
  normalized_condition = [];
}

abbrev plan : QueryPlan
plan = of_root "f1" (pos 9) (
    plan_node (fields "Limit" "" (pos 0))
      (and_plan (plan_node (fields "Sort" "Disk" (pos 3000)) no_plans) no_plans))

abbrev found : List (Insight whole.F)
found =
    record {
      kind = disk_sort;
      severity = low;
      fingerprint = "f1";
      relation = "";
      node_path = codes "Limit(orders) > Sort(orders)";
      rows_returned = pos 0;
      rows_scanned = pos 0;
      selectivity = 0;
      detail = sort_spilled "external merge" (pos 3000);
    }
    ∷ record {
      kind = disk_spill;
      severity = low;
      fingerprint = "f1";
      relation = "";
      node_path = codes "plan";
      rows_returned = pos 0;
      rows_scanned = pos 0;
      selectivity = 0;
      detail = spilled (pos 1) (pos 3000) (pos 4);
    }
    ∷ []

plan-found : detect_all whole plan ≡ some found
unfolding detect_all detect_by_node detect_slow_scan detect_inefficient_index detect_lossy_bitmap
    detect_wrong_index detect_stale_stats detect_mis_estimate detect_disk_sort detect_hash_batches
    detect_disk_spill detect_nested_loop detect_large_offset next_pow2_from found_if
plan-found = refl

detect_all-IsFrom_example : All (IsFrom plan) found
detect_all-IsFrom_example = detect_all-IsFrom whole plan found plan-found

next_pow2_mb-IsLeast_example :
    (j : ℕ) × (next_pow2_mb (pos 3000) ≡ some (pos (2 ^ j))) × IsLeast 3000 j
next_pow2_mb-IsLeast_example = next_pow2_mb-IsLeast 3000 (omega arith)

next_pow2_mb-runs_example : next_pow2_from 1000 (pos 1) (pos 4611686018427387904) ≡ none
next_pow2_mb-runs_example = next_pow2_mb-runs 1000 4611686018427387904 (omega arith)
