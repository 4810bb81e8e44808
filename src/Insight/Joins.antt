-- ===== src/Insight/Joins.antt =====
-- internal/insight/nestedloop.go and largeoffset.go.
use lynceus.Prelude.{String, flat_map, ◌&&◌, if◌then◌else◌, List, [], ◌∷◌, string_eq, ◌==◌}
use lynceus.Prelude.Int.{ℤ, pos, ltz, lez}
use lynceus.Checks.Vacuum.{Float64}
use lynceus.PlanExtract.{Text, PlanFields, PlanNode, QueryPlan, fields_of}
use lynceus.Insight.{
  Insight, nested_loop, large_offset, looped, offset_discarded, mul64, add64, sub64, walk_path,
  detect_nodes, children_of, graded, found_if,
}

pub record Thresholds : Type 0 where
  pub high_from : ℤ
  pub medium_from : ℤ
  pub min_from : ℤ

abbrev pub default_nested_loop : Thresholds
default_nested_loop = record {
  high_from = pos 1000000;
  medium_from = pos 100000;
  min_from = pos 1000;
}

abbrev pub default_large_offset : Thresholds
default_large_offset = record {
  high_from = pos 100000;
  medium_from = pos 10000;
  min_from = pos 1000;
}

-- The first child with the most loops, where that is above the start.
abbrev pub inner_side : List PlanNode → (loops : ℤ) → (relation : String) → ℤ × String
inner_side [] loops relation = (loops, relation)
inner_side (c ∷ cs) loops relation =
    let f = fields_of c in
    let taken = inner_side cs f.actual_loops f.relation_name in
    let kept = inner_side cs loops relation in if ltz loops f.actual_loops then taken else kept

abbrev pub child_rows : List PlanNode → ℤ → ℤ
child_rows [] sum = sum
child_rows (c ∷ cs) sum =
    child_rows cs (add64 sum (mul64 (fields_of c).actual_rows (fields_of c).actual_loops))

abbrev pub first_relation : List (PlanNode × Text) → String
first_relation [] = ""
first_relation (v ∷ vs) =
    let rest = first_relation vs in
    if (fields_of v.0).relation_name == "" then rest else (fields_of v.0).relation_name

module _ (f64 : Float64) where
  abbrev pub look_nested_loop :
      Thresholds → QueryPlan → PlanFields → List PlanNode → Text → List (Insight f64.F)
  look_nested_loop d qp f ns path =
      let inner = inner_side ns (pos 0) "" in
      found_if
        ((f.node_type == "Nested Loop")
          && lez d.min_from inner.0
          && lez (pos 1) (mul64 f.actual_rows f.actual_loops))
        (record {
          kind = nested_loop;
          severity = graded d.high_from d.medium_from inner.0;
          fingerprint = qp.fingerprint;
          relation = inner.1;
          node_path = path;
          rows_returned = pos 0;
          rows_scanned = pos 0;
          selectivity = f64.literal "0";
          detail = looped inner.0;
        })

  -- The relation is the first that a node from this one down scans.
  abbrev pub look_large_offset :
      Thresholds
      → QueryPlan
      → PlanFields
      → List PlanNode
      → (relation : String) → Text
      → List (Insight f64.F)
  look_large_offset d qp f ns relation path =
      let returned = mul64 f.actual_rows f.actual_loops in
      let produced = child_rows ns (pos 0) in
      found_if
        ((f.node_type == "Limit")
          && lez (pos 1) returned
          && lez d.min_from (sub64 produced returned))
        (record {
          kind = large_offset;
          severity = graded d.high_from d.medium_from (sub64 produced returned);
          fingerprint = qp.fingerprint;
          relation = relation;
          node_path = path;
          rows_returned = returned;
          rows_scanned = produced;
          selectivity = f64.literal "0";
          detail = offset_discarded returned produced (sub64 produced returned);
        })

  unfoldable pub detect_nested_loop : QueryPlan → List (Insight f64.F)
  detect_nested_loop qp = detect_nodes (look_nested_loop default_nested_loop qp) qp

  unfoldable pub detect_large_offset : QueryPlan → List (Insight f64.F)
  detect_large_offset qp =
      flat_map
        (λ v.
          look_large_offset default_large_offset qp (fields_of v.0) (children_of v.0)
            (first_relation (walk_path v.0 [])) v.1)
        (walk_path qp.root [])
