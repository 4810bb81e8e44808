-- ===== src/Insight/Memory.antt =====
-- internal/insight/disksort.go, hashbatches.go and diskspill.go. `none` stands for a loop that has
-- not ended within its fuel.
pub mod Power
use lynceus.Prelude.{
  ℕ, zero, suc, Bool, ◌&&◌, ◌||◌, not, if◌then◌else◌, Option, none, some, List, [], ◌∷◌, string_eq,
  ◌==◌,
}
use lynceus.Prelude.Int.{ℤ, pos, ltz, lez}
use lynceus.Checks.Vacuum.{Float64}
use lynceus.PlanExtract.{Text, PlanFields, PlanNode, QueryPlan, fields_of}
use lynceus.Prelude.Text.{codes}
use lynceus.Insight.{
  Insight, disk_sort, hash_batches, disk_spill, Detail, sort_spilled, batched, rebatched, spilled,
  mul64, add64, walk_path, detect_nodes, graded, found_if,
}

pub record KbThresholds : Type 0 where
  pub high_kb : ℤ
  pub medium_kb : ℤ
  pub min_kb : ℤ

-- Disk Sort has the same thresholds and no floor.
abbrev pub default_spill : KbThresholds
default_spill = record { high_kb = pos 262144; medium_kb = pos 32768; min_kb = pos 1024 }

pub record BatchThresholds : Type 0 where
  pub high_batches : ℤ
  pub medium_batches : ℤ

abbrev pub default_batches : BatchThresholds
default_batches = record { high_batches = pos 64; medium_batches = pos 8 }

abbrev pub is_disk_sort : PlanFields → Bool
is_disk_sort f = (f.node_type == "Sort") && (f.sort_space_type == "Disk")

abbrev pub is_batched_hash : PlanFields → Bool
is_batched_hash f = (f.node_type == "Hash") && ltz (pos 1) f.hash_batches

-- `mb` doubles while its size in kB is not above `kb`.
unfoldable pub next_pow2_from : (fuel : ℕ) → (mb kb : ℤ) → Option ℤ
next_pow2_from zero mb kb = none
next_pow2_from (suc n) mb kb =
    let more = next_pow2_from n (mul64 mb (pos 2)) kb in
    if lez (mul64 mb (pos 1024)) kb then more else some mb

abbrev pub next_pow2_mb : ℤ → Option ℤ
next_pow2_mb kb = next_pow2_from 64 (pos 1) kb

pub record Spill : Type 0 where
  pub spill_kb : ℤ
  pub largest_kb : ℤ
  pub spill_ops : ℤ

abbrev pub no_spill : Spill
no_spill = record { spill_kb = pos 0; largest_kb = pos 0; spill_ops = pos 0 }

abbrev pub node_kb : PlanFields → ℤ
node_kb f =
    if is_disk_sort f
    then f.sort_space_used_kb
    else if is_batched_hash f
    then f.peak_memory_usage_kb
    else pos 0

abbrev pub add_spill : Spill → ℤ → Spill
add_spill s kb = if lez kb (pos 0) then s else record {
  spill_kb = add64 s.spill_kb kb;
  largest_kb = if ltz s.largest_kb kb then kb else s.largest_kb;
  spill_ops = add64 s.spill_ops (pos 1);
}

abbrev pub sum_spills : List (PlanNode × Text) → Spill → Spill
sum_spills [] s = s
sum_spills (v ∷ vs) s = sum_spills vs (add_spill s (node_kb (fields_of v.0)))

module _ (f64 : Float64) where
  abbrev pub look_disk_sort :
      KbThresholds → QueryPlan → PlanFields → List PlanNode → Text → List (Insight f64.F)
  look_disk_sort d qp f ns path = found_if (is_disk_sort f) (record {
    kind = disk_sort;
    severity = graded d.high_kb d.medium_kb f.sort_space_used_kb;
    fingerprint = qp.fingerprint;
    relation = "";
    node_path = path;
    rows_returned = pos 0;
    rows_scanned = pos 0;
    selectivity = f64.literal "0";
    detail = sort_spilled f.sort_method f.sort_space_used_kb;
  })

  abbrev pub batch_detail : PlanFields → Detail f64.F
  batch_detail f =
      if ltz (pos 0) f.original_hash_batches && ltz f.original_hash_batches f.hash_batches
      then rebatched f.hash_batches f.peak_memory_usage_kb f.original_hash_batches
      else batched f.hash_batches f.peak_memory_usage_kb

  abbrev pub look_hash_batches :
      BatchThresholds → QueryPlan → PlanFields → List PlanNode → Text → List (Insight f64.F)
  look_hash_batches d qp f ns path = found_if (is_batched_hash f) (record {
    kind = hash_batches;
    severity = graded d.high_batches d.medium_batches f.hash_batches;
    fingerprint = qp.fingerprint;
    relation = "";
    node_path = path;
    rows_returned = pos 0;
    rows_scanned = pos 0;
    selectivity = f64.literal "0";
    detail = batch_detail f;
  })

  abbrev pub spill_insight :
      KbThresholds → QueryPlan → Spill → Option ℤ → Option (List (Insight f64.F))
  spill_insight d qp s none = none
  spill_insight d qp s (some rec_mb) = some (
      record {
        kind = disk_spill;
        severity = graded d.high_kb d.medium_kb s.spill_kb;
        fingerprint = qp.fingerprint;
        relation = "";
        node_path = codes "plan";
        rows_returned = pos 0;
        rows_scanned = pos 0;
        selectivity = f64.literal "0";
        detail = spilled s.spill_ops s.spill_kb rec_mb;
      }
      ∷ [])

  abbrev pub report_spill : KbThresholds → QueryPlan → Spill → Option (List (Insight f64.F))
  report_spill d qp s =
      if ltz s.spill_kb d.min_kb then some [] else spill_insight d qp s (next_pow2_mb s.largest_kb)

  unfoldable pub detect_disk_sort : QueryPlan → List (Insight f64.F)
  detect_disk_sort qp = detect_nodes (look_disk_sort default_spill qp) qp

  unfoldable pub detect_hash_batches : QueryPlan → List (Insight f64.F)
  detect_hash_batches qp = detect_nodes (look_hash_batches default_batches qp) qp

  unfoldable pub detect_disk_spill : QueryPlan → Option (List (Insight f64.F))
  detect_disk_spill qp = report_spill default_spill qp (sum_spills (walk_path qp.root []) no_spill)
