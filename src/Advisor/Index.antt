-- ===== src/Advisor/Index.antt =====
-- internal/advisor/index.go: `RecommendIndexes`. `comparisons` gives the matches of the pattern
-- `colCmp` in a condition, each with its column and its operator.
use lynceus.Prelude.{
  ℕ, ◌+◌, ◌-◌, ◌^◌, String, Bool, not, ◌||◌, if◌then◌else◌, Option, none, some, List, [], ◌∷◌, ◌++◌,
  map, any, length, string_eq, ◌==◌, bytes_eq,
}
use lynceus.Prelude.Int.{ℤ, pos, pos_part, ◌+ℤ◌, ◌*ℤ◌, int64, neg_part}
use lynceus.Prelude.Text.{codes, string_order}
use lynceus.Prelude.Order.{nat_order, list_order}
use lynceus.Prelude.Sort.{sort}
use lynceus.Prelude.Dict.{Dict, get, put}

mutual
  -- The fields of a plan node that the advisor reads, and the node's children.
  pub data PlanNode : Type 0 where
    node : (node_type relation_name normalized_condition : String) → PlanNodes → PlanNode

  pub data PlanNodes : Type 0 where
    no_nodes : PlanNodes
    and_node : PlanNode → PlanNodes → PlanNodes

pub record AdvisedPlan : Type 0 where
  pub fingerprint : String
  pub root : Option PlanNode

pub record TableInfo : Type 0 where
  pub total_bytes : ℤ
  pub seq_scans : ℤ

pub record IndexRecommendation : Type 0 where
  pub relation : String
  pub columns : List String
  pub query_count : ℕ
  pub total_bytes : ℤ
  pub seq_scans : ℤ
  pub fingerprints : List String

abbrev pub is_in : String → List String → Bool
is_in x xs = any (λ y. y == x) xs

abbrev pub is_range : String → Bool
is_range op =
    (op == "<")
    || (op == ">")
    || (op == "<=")
    || (op == ">=")
    || (op == "between")
    || (op == "BETWEEN")

abbrev pub placed : String → String → List String × List String → List String × List String
placed op col (eqs, rngs) = if is_range op then (eqs, col ∷ rngs) else (col ∷ eqs, rngs)

-- Columns once each: those of equalities, then those of ranges.
abbrev pub split_columns : List String → List (String × String) → List String × List String
split_columns seen [] = ([], [])
split_columns seen ((col, op) ∷ ms) =
    let rest = split_columns (if is_in col seen then seen else col ∷ seen) ms in
    if is_in col seen then rest else placed op col rest

-- What one candidate has gathered, with the relation that its key begins with.
pub record Gathered : Type 0 where
  pub relation : String
  pub cols : List String
  pub fps : List String

abbrev pub join_columns : List String → List ℕ
join_columns [] = []
join_columns (c ∷ []) = codes c
join_columns (c ∷ d ∷ cs) = codes c ++ b',' ∷ join_columns (d ∷ cs)

-- `relation + "\x00" + strings.Join(cols, ",")`
abbrev pub candidate_key : String → List String → List ℕ
candidate_key relation cols = codes relation ++ 0 ∷ join_columns cols

abbrev pub Candidates : Type 0
Candidates = Dict (List ℕ) Gathered

abbrev pub add_fp : String → List String → List String
add_fp fp fps = if (fp == "") || is_in fp fps then fps else fps ++ fp ∷ []

abbrev pub gathered_or_new : String → List String → Option Gathered → Gathered
gathered_or_new relation cols none = record { relation = relation; cols = cols; fps = [] }
gathered_or_new relation cols (some g) = g

abbrev pub seq_scan_type : String
seq_scan_type = "Seq Scan"

module _ (comparisons : String → List (String × String)) where
  unfoldable pub filter_columns : String → List String
  filter_columns cond = let (eqs, rngs) = split_columns [] (comparisons cond) in eqs ++ rngs

  abbrev pub add_columns : String → String → List String → Candidates → Candidates
  add_columns fp relation [] m = m
  add_columns fp relation (c ∷ cs) m =
      let k = candidate_key relation (c ∷ cs) in
      let g = gathered_or_new relation (c ∷ cs) (get k m) in
      put k (record g { fps = add_fp fp g.fps }) m

  abbrev pub visit : String → String → String → String → Candidates → Candidates
  visit fp node_type relation cond m =
      if not (node_type == seq_scan_type) || (relation == "")
      then m
      else add_columns fp relation (filter_columns cond) m

  unfoldable mutual
    -- `walk`: the node, then its children in order.
    pub walk : String → PlanNode → Candidates → Candidates
    walk fp (node t r c children) m = walk_all fp children (visit fp t r c m)

    pub walk_all : String → PlanNodes → Candidates → Candidates
    walk_all fp no_nodes m = m
    walk_all fp (and_node n ns) m = walk_all fp ns (walk fp n m)

  abbrev pub walk_root : String → Option PlanNode → Candidates → Candidates
  walk_root fp none m = m
  walk_root fp (some n) m = walk fp n m

  unfoldable pub gather : List AdvisedPlan → Candidates → Candidates
  gather [] m = m
  gather (p ∷ ps) m = gather ps (walk_root p.fingerprint p.root m)

abbrev pub table_or_zero : Option TableInfo → TableInfo
table_or_zero none = record { total_bytes = pos 0; seq_scans = pos 0 }
table_or_zero (some t) = t

abbrev pub same_text : String → String
same_text s = s

abbrev pub recommendation : Dict String TableInfo → List ℕ × Gathered → IndexRecommendation
recommendation tables (k, g) =
    let t = table_or_zero (get g.relation tables) in
    record {
      relation = g.relation;
      columns = g.cols;
      query_count = length g.fps;
      total_bytes = t.total_bytes;
      seq_scans = t.seq_scans;
      fingerprints = sort same_text g.fps;
    }

-- The products wrap around in 64 bits.
abbrev pub score : IndexRecommendation → ℤ
score r = int64 (r.total_bytes *ℤ int64 (r.seq_scans +ℤ pos 1))

-- How far a score is below the greatest int64: a descending order.
abbrev pub below_greatest : ℤ → ℕ
below_greatest z = 2 ^ 63 - 1 + neg_part z - pos_part z

abbrev pub advice_key : IndexRecommendation → List (List ℕ)
advice_key r = (below_greatest (score r) ∷ []) ∷ codes r.relation ∷ []

-- `visited` is the order in which `range` visits the map; `sort.Slice` leaves ties in any order,
-- and so does this for all orders of the visit.
unfoldable pub recommend_indexes :
    (String → List (String × String))
    → (Candidates → Candidates)
    → List AdvisedPlan
    → Dict String TableInfo
    → List IndexRecommendation
recommend_indexes comparisons visited plans tables =
    sort advice_key (map (recommendation tables) (visited (gather comparisons plans [])))
