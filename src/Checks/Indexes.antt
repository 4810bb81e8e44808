-- ===== src/Checks/Indexes.antt =====
-- internal/checks/schema_indexes.go and indexadvisor.go.
use lynceus.Prelude.{not, ◌&&◌, ◌||◌, if◌then◌else◌, List, [], ◌∷◌, flat_map}
use lynceus.Prelude.Int.{pos, lez, ltz}
use lynceus.Checks.{
  info, warning, IndexInfo, IndexRec, invalid_on, unused_on, missing_on, CheckResult, Check, fires,
}

abbrev pub eval_invalid : IndexInfo → List CheckResult
eval_invalid ix =
    if ix.is_valid
    then []
    else fires "schema.invalid_index" "schema" warning ix.fqn (invalid_on ix.table_fqn ix.is_ready)
      ∷ []

abbrev pub invalid_index_check : Check
invalid_index_check = record {
  id = "schema.invalid_index";
  category = "schema";
  eval = λ input. flat_map eval_invalid input.indexes;
}

-- Scans at or below 50, at least 1 MiB; from 100 MB it is a warning.
abbrev pub eval_unused : IndexInfo → List CheckResult
eval_unused ix =
    if not ix.is_valid || ix.is_primary || ix.is_unique
    then []
    else if ltz (pos 50) ix.idx_scan || ltz ix.size_bytes (pos 1048576)
    then []
    else fires "schema.unused_index" "schema"
        (if lez (pos 100000000) ix.size_bytes then warning else info) ix.fqn
        (unused_on ix.table_fqn ix.idx_scan ix.size_bytes)
      ∷ []

abbrev pub unused_index_check : Check
unused_index_check = record {
  id = "schema.unused_index";
  category = "schema";
  eval = λ input. flat_map eval_unused input.indexes;
}

abbrev pub eval_missing : IndexRec → List CheckResult
eval_missing r =
    let hot = lez (pos 100000) r.seq_scans && lez (pos 100000000) r.total_bytes in
    fires "queries.missing_index" "queries" (if hot then warning else info) r.relation
      (missing_on r.columns r.query_count r.total_bytes r.seq_scans)
    ∷ []

abbrev pub index_advisor_check : Check
index_advisor_check = record {
  id = "queries.missing_index";
  category = "queries";
  eval = λ input. flat_map eval_missing input.index_recs;
}
