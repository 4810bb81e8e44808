-- ===== src/Insight.antt =====
-- internal/insight/insight.go: what an insight is, and the walk that the detectors share. Details
-- are the arguments of their texts; float64 arithmetic is an argument.
pub mod Scans
pub mod Estimates
pub mod Memory
pub mod Joins
pub mod Nodes
pub mod Registry
mod Tests
use lynceus.Prelude.{
  ℕ, String, Bool, if◌then◌else◌, List, [], ◌∷◌, ◌++◌, ◌+◌, flat_map, string_eq, bytes_eq, ◌==◌,
}
use lynceus.Prelude.Int.{ℤ, pos_part, neg_part, minus, ◌*ℤ◌, ◌+ℤ◌, int64, lez}
use lynceus.Prelude.Text.{codes}
use lynceus.Checks.Vacuum.{Float64}
use lynceus.PlanExtract.{
  Text, PlanFields, PlanNode, plan_node, PlanNodes, no_plans, and_plan, QueryPlan, fields_of,
}

pub data Kind : Type 0 where
  slow_scan disk_sort hash_batches inefficient_index mis_estimate stale_stats : Kind
  large_offset lossy_bitmap nested_loop wrong_index_order_by disk_spill : Kind

pub data Severity : Type 0 where
  low medium high : Severity

-- The arguments of `fmt.Sprintf` for each kind.
pub data Detail (F : Type 0) : Type 0 where
  discarded_by_scan : (relation : String) (read discarded : ℤ) (sel : F) → Detail F
  discarded_by_index : (index relation : String) (read discarded : ℤ) (sel : F) → Detail F
  sort_spilled : (sort_method : String) (kb : ℤ) → Detail F
  batched : (batches peak_kb : ℤ) → Detail F
  rebatched : (batches peak_kb original : ℤ) → Detail F
  estimated_scan : (relation : String) (est act : ℤ) (ratio : F) → Detail F
  estimated_node : (node_type : String) (est act : ℤ) (ratio : F) → Detail F
  offset_discarded : (returned child_rows discarded : ℤ) → Detail F
  rechecked : (kept removed : ℤ) → Detail F
  looped : (inner_loops : ℤ) → Detail F
  walked_in_order : (index scan_direction : String) (removed all : ℤ) → Detail F
  spilled : (ops kb rec_mb : ℤ) → Detail F

pub record Insight (F : Type 0) : Type 0 where
  pub kind : Kind
  pub severity : Severity
  pub fingerprint : String
  pub relation : String
  pub node_path : Text
  pub rows_returned : ℤ
  pub rows_scanned : ℤ
  pub selectivity : F
  pub detail : Detail F

-- int64 arithmetic, which wraps.
abbrev pub mul64 : ℤ → ℤ → ℤ
mul64 a b = int64 (a *ℤ b)

abbrev pub add64 : ℤ → ℤ → ℤ
add64 a b = int64 (a +ℤ b)

abbrev pub sub64 : ℤ → ℤ → ℤ
sub64 a b = int64 (minus (pos_part a + neg_part b) (neg_part a + pos_part b))

abbrev pub segment : PlanFields → Text
segment f =
    if f.relation_name == ""
    then codes f.node_type
    else codes f.node_type ++ b'(' ∷ codes f.relation_name ++ b')' ∷ []

abbrev pub path_from : (prefix : Text) → PlanFields → Text
path_from prefix f = if prefix == [] then segment f else prefix ++ codes " > " ++ segment f

abbrev pub plans_of : PlanNodes → List PlanNode
plans_of no_plans = []
plans_of (and_plan n ns) = n ∷ plans_of ns

abbrev pub children_of : PlanNode → List PlanNode
children_of (plan_node f ns) = plans_of ns

-- The nodes that `walkPath` visits, in turn, each with its path.
abbrev mutual
  pub walk_path : PlanNode → (prefix : Text) → List (PlanNode × Text)
  walk_path (plan_node f ns) prefix =
      (plan_node f ns, path_from prefix f) ∷ walk_children ns (path_from prefix f)

  pub walk_children : PlanNodes → (path : Text) → List (PlanNode × Text)
  walk_children no_plans path = []
  walk_children (and_plan n ns) path = walk_path n path ++ walk_children ns path

-- A detector that looks at each node by itself.
abbrev pub detect_nodes {ℓ} :
    {A : Type ℓ} → (PlanFields → List PlanNode → Text → List A) → QueryPlan → List A
detect_nodes look qp =
    flat_map (λ v. look (fields_of v.0) (children_of v.0) v.1) (walk_path qp.root [])

-- What a detector appends for a node where `b` holds.
unfoldable pub found_if {ℓ} : {A : Type ℓ} → (b : Bool) → A → List A
found_if b x = if b then x ∷ [] else []

-- The larger threshold is `high_from`.
abbrev pub graded : (high_from medium_from value : ℤ) → Severity
graded high_from medium_from value =
    if lez high_from value then high else if lez medium_from value then medium else low
