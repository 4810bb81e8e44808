-- ===== src/PlanExtract.antt =====
-- internal/planextract: a plan that auto_explain logged, as a tree without literals. Conditions are
-- their code points; pg_query's normalisation and the JSON decoder are arguments.
pub mod QuoteFree
pub mod Tests
use lynceus.Prelude.{
  ℕ, String, Bool, true, false, ◌&&◌, eqb, if◌then◌else◌, Option, none, some, List, [], ◌∷◌, ◌++◌,
  any, bytes_eq, ◌==◌,
}
use lynceus.Prelude.Int.{ℤ, pos}
use lynceus.Prelude.Text.{codes}
use lynceus.Prelude.Numerals.{trim_space}
use lynceus.Prelude.Result.{Error, msg, Result, ok, err}
use lynceus.Ingest.Wire.{Double}
use lynceus.Collector.Reader.{Tier, normalized, blocked, is_normalized}

abbrev pub Text : Type 0
Text = List ℕ

-- A node's fields as auto_explain writes them, its children apart.
pub record RawFields : Type 0 where
  pub node_type : String
  pub relation_name : String
  pub index_name : String
  pub alias : String
  pub join_type : String
  pub scan_direction : String
  pub startup_cost : Double
  pub total_cost : Double
  pub plan_rows : ℤ
  pub plan_width : ℤ
  pub actual_startup_time : Double
  pub actual_total_time : Double
  pub actual_rows : ℤ
  pub actual_loops : ℤ
  pub rows_removed_by_filter : ℤ
  pub sort_method : String
  pub sort_space_type : String
  pub sort_space_used : ℤ
  pub hash_batches : ℤ
  pub original_hash_batches : ℤ
  pub peak_memory_usage : ℤ
  pub filter : Text
  pub index_cond : Text
  pub hash_cond : Text
  pub join_filter : Text
  pub recheck_cond : Text

mutual
  pub data RawNode : Type 0 where
    raw_node : RawFields → RawNodes → RawNode

  pub data RawNodes : Type 0 where
    no_raw : RawNodes
    and_raw : RawNode → RawNodes → RawNodes

-- The fields of a PlanNode that leaves the collector.
pub record PlanFields : Type 0 where
  pub node_type : String
  pub relation_name : String
  pub index_name : String
  pub alias : String
  pub join_type : String
  pub scan_direction : String
  pub startup_cost : Double
  pub total_cost : Double
  pub plan_rows : ℤ
  pub plan_width : ℤ
  pub actual_startup_time_ms : Double
  pub actual_total_time_ms : Double
  pub actual_rows : ℤ
  pub actual_loops : ℤ
  pub rows_removed_by_filter : ℤ
  pub sort_method : String
  pub sort_space_type : String
  pub sort_space_used_kb : ℤ
  pub hash_batches : ℤ
  pub original_hash_batches : ℤ
  pub peak_memory_usage_kb : ℤ
  pub normalized_condition : Text

mutual
  pub data PlanNode : Type 0 where
    plan_node : PlanFields → PlanNodes → PlanNode

  pub data PlanNodes : Type 0 where
    no_plans : PlanNodes
    and_plan : PlanNode → PlanNodes → PlanNodes

pub record QueryPlan : Type 0 where
  pub fingerprint : String
  pub captured_at_unix : ℤ
  pub format_version : ℤ
  pub total_cost : Double
  pub actual_total_time_ms : Double
  pub root : PlanNode

abbrev pub cond_wrap_prefix : Text
cond_wrap_prefix = codes "SELECT * FROM __ly_cond WHERE "

-- `strings.CutPrefix`
abbrev pub cut_prefix : Text → Text → Option Text
cut_prefix [] s = some s
cut_prefix (p ∷ ps) [] = none
cut_prefix (p ∷ ps) (c ∷ cs) = let rest = cut_prefix ps cs in if eqb p c then rest else none

abbrev pub quote : ℕ
quote = 39

abbrev pub has_quote : Text → Bool
has_quote s = any (λ c. eqb c quote) s

abbrev pub checked : Text → Text
checked pred = if has_quote pred then [] else pred

abbrev pub unwrapped : Option Text → Text
unwrapped none = []
unwrapped (some pred) = checked (trim_space pred)

abbrev pub of_normalized : Text × Tier → Text
of_normalized (out, tier) =
    if is_normalized tier then unwrapped (cut_prefix cond_wrap_prefix out) else []

abbrev pub and_text : Text
and_text = 32 ∷ 65 ∷ 78 ∷ 68 ∷ 32 ∷ []

abbrev pub join_and : List Text → Text
join_and [] = []
join_and (p ∷ []) = p
join_and (p ∷ q ∷ ps) = p ++ (and_text ++ join_and (q ∷ ps))

abbrev pub unsupported : Error
unsupported = msg "planextract: unsupported plan format (require auto_explain.log_format=json)"

abbrev pub fields_of : PlanNode → PlanFields
fields_of (plan_node f children) = f

abbrev pub of_root : String → ℤ → PlanNode → QueryPlan
of_root fp at root = record {
  fingerprint = fp;
  captured_at_unix = at;
  format_version = pos 1;
  total_cost = (fields_of root).total_cost;
  actual_total_time_ms = (fields_of root).actual_total_time_ms;
  root = root;
}

abbrev pub in_array : List (Option RawNode) → Option (Option RawNode)
in_array [] = none
in_array (p ∷ ps) = some p

-- `as_array` and `as_object` are the two tries of json.Unmarshal.
abbrev pub decode_envelope :
    (Text → Option (List (Option RawNode)))
    → (Text → Option (Option RawNode))
    → Text
    → Option (Option RawNode)
decode_envelope as_array as_object body = elim (as_array body) [
  | some ps ↦ in_array ps
  | none ↦ as_object body
]

abbrev pub tier_of : Result Text → Text × Tier
tier_of (err e) = ([], blocked)
tier_of (ok t) = (t, normalized)

-- `pg` is pg_query's normalisation.
module _ (pg : Text → Result Text) where
  -- internal/normalize/normalize.go, on code points.
  abbrev pub normalize : Text → Text × Tier
  normalize query = if query == [] then ([], blocked) else tier_of (pg query)

  -- Where anything is amiss the condition is empty.
  unfoldable pub normalize_condition : Text → Text
  normalize_condition cond =
      let c = trim_space cond in
      if c == [] then [] else of_normalized (normalize (cond_wrap_prefix ++ c))

  abbrev pub parts_of : List Text → List Text
  parts_of [] = []
  parts_of (raw ∷ rest) =
      let norm = normalize_condition raw in
      let more = parts_of rest in if norm == [] then more else norm ∷ more

  unfoldable pub normalize_conds : RawFields → Text
  normalize_conds r =
      join_and
        (parts_of (r.filter ∷ r.index_cond ∷ r.hash_cond ∷ r.join_filter ∷ r.recheck_cond ∷ []))

  abbrev pub convert_fields : RawFields → PlanFields
  convert_fields r = record {
    node_type = r.node_type;
    relation_name = r.relation_name;
    index_name = r.index_name;
    alias = r.alias;
    join_type = r.join_type;
    scan_direction = r.scan_direction;
    startup_cost = r.startup_cost;
    total_cost = r.total_cost;
    plan_rows = r.plan_rows;
    plan_width = r.plan_width;
    actual_startup_time_ms = r.actual_startup_time;
    actual_total_time_ms = r.actual_total_time;
    actual_rows = r.actual_rows;
    actual_loops = r.actual_loops;
    rows_removed_by_filter = r.rows_removed_by_filter;
    sort_method = r.sort_method;
    sort_space_type = r.sort_space_type;
    sort_space_used_kb = r.sort_space_used;
    hash_batches = r.hash_batches;
    original_hash_batches = r.original_hash_batches;
    peak_memory_usage_kb = r.peak_memory_usage;
    normalized_condition = normalize_conds r;
  }

  abbrev mutual
    pub convert : RawNode → PlanNode
    convert (raw_node r children) = plan_node (convert_fields r) (convert_all children)

    pub convert_all : RawNodes → PlanNodes
    convert_all no_raw = no_plans
    convert_all (and_raw n ns) = and_plan (convert n) (convert_all ns)

  -- What the decoder made of the body: an array's first element, or an object, with the plan that
  -- it holds, if any.
  abbrev pub of_decoded : String → ℤ → Option (Option RawNode) → Result QueryPlan
  of_decoded fp at (some (some n)) = ok (of_root fp at (convert n))
  of_decoded fp at _ = err unsupported

  unfoldable pub extract :
      (Text → Option (List (Option RawNode)))
      → (Text → Option (Option RawNode))
      → Text
      → String
      → ℤ
      → Result QueryPlan
  extract as_array as_object body fp at =
      if trim_space body == []
      then err unsupported
      else of_decoded fp at (decode_envelope as_array as_object body)
