-- ===== src/Insight/Scans.antt =====
-- internal/insight/slowscan.go, inefficientindex.go, lossybitmap.go and wrongindexorderby.go.
use lynceus.Prelude.{String, Bool, not, ◌&&◌, ◌||◌, if◌then◌else◌, List, string_eq, ◌==◌}
use lynceus.Prelude.Int.{ℤ, pos, ltz, lez}
use lynceus.Checks.Vacuum.{Float64}
use lynceus.PlanExtract.{Text, PlanFields, PlanNode, QueryPlan}
use lynceus.Insight.{
  Insight, Severity, low, medium, high, slow_scan, inefficient_index, lossy_bitmap,
  wrong_index_order_by, discarded_by_scan, discarded_by_index, rechecked, walked_in_order, mul64,
  add64, sub64, detect_nodes, graded, found_if,
}

pub record ScanDetector (F : Type 0) : Type 0 where
  pub min_rows_scanned : ℤ
  pub max_selectivity : F

pub record RemovalDetector : Type 0 where
  pub high_removed : ℤ
  pub medium_removed : ℤ
  pub min_removed : ℤ

module _ (f64 : Float64) where
  abbrev pub default_scan : ScanDetector f64.F
  default_scan = record { min_rows_scanned = pos 1000; max_selectivity = f64.literal "0.10" }

  abbrev pub slow_scan_severity : f64.F → Severity
  slow_scan_severity sel =
      if f64.leq sel (f64.literal "0.01")
      then high
      else if f64.leq sel (f64.literal "0.05")
      then medium
      else low

  -- What the early returns let through.
  abbrev pub is_discarding : ScanDetector f64.F → PlanFields → Bool
  is_discarding d f =
      let per_loop = add64 f.actual_rows f.rows_removed_by_filter in
      ltz (pos 0) f.actual_loops
      && ltz (pos 0) f.rows_removed_by_filter
      && ltz (pos 0) per_loop
      && lez d.min_rows_scanned (mul64 per_loop f.actual_loops)
      && not (f64.less d.max_selectivity (f64.div (f64.of_int f.actual_rows) (f64.of_int per_loop)))

  abbrev pub selectivity_of : PlanFields → f64.F
  selectivity_of f =
      f64.div (f64.of_int f.actual_rows) (f64.of_int (add64 f.actual_rows f.rows_removed_by_filter))

  abbrev pub total_scanned : PlanFields → ℤ
  total_scanned f = mul64 (add64 f.actual_rows f.rows_removed_by_filter) f.actual_loops

  abbrev pub total_returned : PlanFields → ℤ
  total_returned f = mul64 f.actual_rows f.actual_loops

  abbrev pub look_slow_scan :
      ScanDetector f64.F → QueryPlan → PlanFields → List PlanNode → Text → List (Insight f64.F)
  look_slow_scan d qp f ns path =
      found_if ((f.node_type == "Seq Scan") && is_discarding d f) (record {
        kind = slow_scan;
        severity = slow_scan_severity (selectivity_of f);
        fingerprint = qp.fingerprint;
        relation = f.relation_name;
        node_path = path;
        rows_returned = total_returned f;
        rows_scanned = total_scanned f;
        selectivity = selectivity_of f;
        detail =
            discarded_by_scan f.relation_name (total_scanned f)
              (sub64 (total_scanned f) (total_returned f))
              (f64.mul (selectivity_of f) (f64.literal "100"));
      })

  abbrev pub is_index_node : String → Bool
  is_index_node t = (t == "Index Scan") || (t == "Index Only Scan") || (t == "Bitmap Heap Scan")

  abbrev pub look_inefficient_index :
      ScanDetector f64.F → QueryPlan → PlanFields → List PlanNode → Text → List (Insight f64.F)
  look_inefficient_index d qp f ns path =
      found_if ((is_index_node f.node_type) && is_discarding d f) (record {
        kind = inefficient_index;
        severity = slow_scan_severity (selectivity_of f);
        fingerprint = qp.fingerprint;
        relation = f.relation_name;
        node_path = path;
        rows_returned = total_returned f;
        rows_scanned = total_scanned f;
        selectivity = selectivity_of f;
        detail =
            discarded_by_index f.index_name f.relation_name (total_scanned f)
              (sub64 (total_scanned f) (total_returned f))
              (f64.mul (selectivity_of f) (f64.literal "100"));
      })

  abbrev pub default_removal : RemovalDetector
  default_removal = record {
    high_removed = pos 1000000;
    medium_removed = pos 100000;
    min_removed = pos 1000;
  }

  abbrev pub removed_rows : PlanFields → ℤ
  removed_rows f = mul64 f.rows_removed_by_filter f.actual_loops

  abbrev pub is_removing : RemovalDetector → PlanFields → Bool
  is_removing d f =
      ltz (pos 0) f.actual_loops
      && lez d.min_removed (removed_rows f)
      && ltz (total_returned f) (removed_rows f)

  abbrev pub look_lossy_bitmap :
      RemovalDetector → QueryPlan → PlanFields → List PlanNode → Text → List (Insight f64.F)
  look_lossy_bitmap d qp f ns path =
      found_if ((f.node_type == "Bitmap Heap Scan") && is_removing d f) (record {
        kind = lossy_bitmap;
        severity = graded d.high_removed d.medium_removed (removed_rows f);
        fingerprint = qp.fingerprint;
        relation = f.relation_name;
        node_path = path;
        rows_returned = total_returned f;
        rows_scanned = add64 (total_returned f) (removed_rows f);
        selectivity = f64.literal "0";
        detail = rechecked (total_returned f) (removed_rows f);
      })

  abbrev pub is_order_by_node : String → Bool
  is_order_by_node t = (t == "Index Scan") || (t == "Index Scan Backward")

  abbrev pub look_wrong_index :
      RemovalDetector → QueryPlan → PlanFields → List PlanNode → Text → List (Insight f64.F)
  look_wrong_index d qp f ns path =
      found_if ((is_order_by_node f.node_type && not (f.scan_direction == "")) && is_removing d f)
        (record {
          kind = wrong_index_order_by;
          severity = graded d.high_removed d.medium_removed (removed_rows f);
          fingerprint = qp.fingerprint;
          relation = f.relation_name;
          node_path = path;
          rows_returned = total_returned f;
          rows_scanned = add64 (total_returned f) (removed_rows f);
          selectivity = f64.literal "0";
          detail =
              walked_in_order f.index_name f.scan_direction (removed_rows f)
                (add64 (removed_rows f) (total_returned f));
        })

  unfoldable pub detect_slow_scan : QueryPlan → List (Insight f64.F)
  detect_slow_scan qp = detect_nodes (look_slow_scan default_scan qp) qp

  unfoldable pub detect_inefficient_index : QueryPlan → List (Insight f64.F)
  detect_inefficient_index qp = detect_nodes (look_inefficient_index default_scan qp) qp

  unfoldable pub detect_lossy_bitmap : QueryPlan → List (Insight f64.F)
  detect_lossy_bitmap qp = detect_nodes (look_lossy_bitmap default_removal qp) qp

  unfoldable pub detect_wrong_index : QueryPlan → List (Insight f64.F)
  detect_wrong_index qp = detect_nodes (look_wrong_index default_removal qp) qp
