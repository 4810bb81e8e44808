-- ===== src/PlanExtract/Tests.antt =====
-- internal/planextract: a scan whose filter pg_query normalises, and one whose answer has a quote.
use lynceus.Prelude.{◌≡◌, refl, [], ◌∷◌, bytes_eq}
use lynceus.Prelude.Int.{pos}
use lynceus.Prelude.Numerals.{trim_space}
use lynceus.Prelude.Result.{Result, ok}
use lynceus.PlanExtract.{
  Text, quote, RawFields, RawNode, raw_node, no_raw, and_raw, QueryPlan, convert, of_root,
  normalize_condition,
}

-- A pg_query that leaves everything as it is.
abbrev pub pg : Text → Result Text
pg t = ok t

abbrev pub scan : Text → RawFields
scan filter = record {
  node_type = "Seq Scan";
  relation_name = "orders";
  index_name = "";
  alias = "orders";
  join_type = "";
  scan_direction = "";
  startup_cost = 0;
  total_cost = 0;
  plan_rows = pos 8;
  plan_width = pos 4;
  actual_startup_time = 0;
  actual_total_time = 0;
  actual_rows = pos 0;
  actual_loops = pos 0;
  rows_removed_by_filter = pos 0;
  sort_method = "";
  sort_space_type = "";
  sort_space_used = pos 0;
  hash_batches = pos 0;
  original_hash_batches = pos 0;
  peak_memory_usage = pos 0;
  filter = filter;
  index_cond = [];
  hash_cond = [];
  join_filter = b'a' ∷ [];
  recheck_cond = [];
}

abbrev pub raw : RawNode
raw =
    raw_node (scan (b'x' ∷ []))
      (and_raw (raw_node (scan (quote ∷ b'x' ∷ quote ∷ [])) no_raw) no_raw)

abbrev extracted : QueryPlan
extracted = of_root "f1" (pos 9) (convert pg raw)

kept : normalize_condition pg (b'x' ∷ []) ≡ b'x' ∷ []
unfolding normalize_condition trim_space
kept = refl

dropped : normalize_condition pg (quote ∷ b'x' ∷ quote ∷ []) ≡ []
unfolding normalize_condition trim_space
dropped = refl
