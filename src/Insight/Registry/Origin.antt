-- ===== src/Insight/Registry/Origin.antt =====
-- internal/insight: an insight names its plan's fingerprint and a relation of the plan.
use lynceus.Prelude.{
  ◌≡◌, refl, subst, inl, inr, Bool, true, false, if◌then◌else◌, Option, none, some, List, [], All,
  append-All, string_eq,
}
use lynceus.Prelude.Int.{ℤ, pos, ltz}
use lynceus.Checks.Vacuum.{Float64}
use lynceus.PlanExtract.{Text, PlanFields, PlanNode, QueryPlan, fields_of}
use lynceus.Insight.{Insight, walk_path, children_of, detect_nodes}
use lynceus.Insight.Scans.{
  look_slow_scan, look_inefficient_index, look_lossy_bitmap, look_wrong_index, default_scan,
  default_removal, detect_slow_scan, detect_inefficient_index, detect_lossy_bitmap,
  detect_wrong_index,
}
use lynceus.Insight.Estimates.{
  worth, look_stale_stats, look_mis_estimate, estimate_ratio, default_estimate, detect_stale_stats,
  detect_mis_estimate,
}
use lynceus.Insight.Memory.{
  look_disk_sort, look_hash_batches, default_spill, default_batches, spill_insight, report_spill,
  no_spill, sum_spills, next_pow2_mb, detect_disk_sort, detect_hash_batches, detect_disk_spill,
}
use lynceus.Insight.Joins.{
  first_relation, look_nested_loop, look_large_offset, default_nested_loop, default_large_offset,
  detect_nested_loop, detect_large_offset,
}
use lynceus.Insight.Nodes.{
  IsNode, IsNamed, IsFrom, IsVisit, IsNode-trans, All-map, flat_map-All, walk_path-IsNode,
  found_if-All, children_of-IsNode, first_relation-IsNamed, inner_side-IsNamed,
}
use lynceus.Insight.Registry.{detect_by_node, detect_all, after_nodes}

-- A detector that finds at each node only what belongs to the plan does so on the whole plan.
detect_nodes-IsFrom :
    {F : Type 0} (qp : QueryPlan) (look : PlanFields → List PlanNode → Text → List (Insight F))
    → ((n : PlanNode) (path : Text)
        → IsNode qp.root n
        → All (IsFrom qp) (look (fields_of n) (children_of n) path))
    → All (IsFrom qp) (detect_nodes look qp)
detect_nodes-IsFrom qp look h =
    flat_map-All (IsFrom qp) (λ v. look (fields_of v.0) (children_of v.0) v.1)
      (walk_path qp.root [])
      (All-map (IsVisit qp.root) (λ v. All (IsFrom qp) (look (fields_of v.0) (children_of v.0) v.1))
        (walk_path qp.root []) (λ v k. h v.0 v.1 k) (walk_path-IsNode qp.root []))

module _ (f64 : Float64) (qp : QueryPlan) where
  own : (n : PlanNode) → IsNode qp.root n → IsNamed qp.root (fields_of n).relation_name
  own n h = inr (n, h, refl)

  worth-IsFrom :
      (f : PlanFields) (fits : Bool) (found : f64.F → Insight f64.F) (r : Option f64.F)
      → ((ratio : f64.F) → IsFrom qp (found ratio))
      → All (IsFrom qp) (worth f64 (default_estimate f64) f fits found r)
  worth-IsFrom f fits found none h = tt
  worth-IsFrom f fits found (some ratio) h = found_if-All (IsFrom qp) _ (found ratio) (h ratio)

  scans-IsFrom :
      All (IsFrom qp) (detect_slow_scan f64 qp)
      × All (IsFrom qp) (detect_inefficient_index f64 qp)
      × All (IsFrom qp) (detect_lossy_bitmap f64 qp)
      × All (IsFrom qp) (detect_wrong_index f64 qp)
  unfolding detect_slow_scan detect_inefficient_index detect_lossy_bitmap detect_wrong_index
  scans-IsFrom = (
    detect_nodes-IsFrom qp (look_slow_scan f64 (default_scan f64) qp)
        (λ n path h. found_if-All (IsFrom qp) _ _ (refl, own n h)),
    detect_nodes-IsFrom qp (look_inefficient_index f64 (default_scan f64) qp)
        (λ n path h. found_if-All (IsFrom qp) _ _ (refl, own n h)),
    detect_nodes-IsFrom qp (look_lossy_bitmap f64 (default_removal f64) qp)
        (λ n path h. found_if-All (IsFrom qp) _ _ (refl, own n h)),
    detect_nodes-IsFrom qp (look_wrong_index f64 (default_removal f64) qp)
        (λ n path h. found_if-All (IsFrom qp) _ _ (refl, own n h)),
  )

  estimates-IsFrom :
      All (IsFrom qp) (detect_stale_stats f64 qp) × All (IsFrom qp) (detect_mis_estimate f64 qp)
  unfolding detect_stale_stats detect_mis_estimate
  estimates-IsFrom = (
    detect_nodes-IsFrom qp (look_stale_stats f64 (default_estimate f64) qp) (λ n path h.
        worth-IsFrom (fields_of n) _ _ (estimate_ratio f64 (fields_of n)) (λ r. (refl, own n h))),
    detect_nodes-IsFrom qp (look_mis_estimate f64 (default_estimate f64) qp) (λ n path h.
        worth-IsFrom (fields_of n) _ _ (estimate_ratio f64 (fields_of n)) (λ r. (refl, own n h))),
  )

  memory-IsFrom :
      All (IsFrom qp) (detect_disk_sort f64 qp) × All (IsFrom qp) (detect_hash_batches f64 qp)
  unfolding detect_disk_sort detect_hash_batches
  memory-IsFrom = (
    detect_nodes-IsFrom qp (look_disk_sort f64 default_spill qp)
        (λ n path h. found_if-All (IsFrom qp) _ _ (refl, inl refl)),
    detect_nodes-IsFrom qp (look_hash_batches f64 default_batches qp)
        (λ n path h. found_if-All (IsFrom qp) _ _ (refl, inl refl)),
  )

  joins-IsFrom :
      All (IsFrom qp) (detect_large_offset f64 qp) × All (IsFrom qp) (detect_nested_loop f64 qp)
  unfolding detect_large_offset detect_nested_loop
  joins-IsFrom = (
    flat_map-All (IsFrom qp) _ (walk_path qp.root [])
        (All-map (IsVisit qp.root) _ (walk_path qp.root []) offset (walk_path-IsNode qp.root [])),
    detect_nodes-IsFrom qp (look_nested_loop f64 default_nested_loop qp) (λ n path h.
        found_if-All (IsFrom qp) _ _ (
          refl,
          inner_side-IsNamed qp.root (children_of n) (pos 0) ""
              (All-map (IsNode n) (IsNode qp.root) (children_of n) (λ c k. IsNode-trans h k)
                (children_of-IsNode n))
              (inl refl),
        )),
  )
    where
      offset :
          (v : PlanNode × Text)
          → IsNode qp.root v.0
          → All (IsFrom qp) (
              look_large_offset f64 default_large_offset qp
                (fields_of v.0)
                (children_of v.0)
                (first_relation (walk_path v.0 []))
                v.1)
      offset v h = found_if-All (IsFrom qp) _ _ (
        refl,
        first_relation-IsNamed qp.root (walk_path v.0 []) (
            All-map (IsVisit v.0) (IsVisit qp.root) (walk_path v.0 []) (λ w k. IsNode-trans h k)
              (walk_path-IsNode v.0 [])),
      )

  detect_by_node-IsFrom : All (IsFrom qp) (detect_by_node f64 qp)
  unfolding detect_by_node
  detect_by_node-IsFrom =
      let (slow, index, lossy, wrong) = scans-IsFrom in
      let (stale, mis) = estimates-IsFrom in
      let (sorts, hashes) = memory-IsFrom in
      let (offset, nested) = joins-IsFrom in
      append-All (IsFrom qp) _ _ slow (
        append-All (IsFrom qp) _ _ sorts (
          append-All (IsFrom qp) _ _ hashes (
            append-All (IsFrom qp) _ _ index (
              append-All (IsFrom qp) _ _ stale (
                append-All (IsFrom qp) _ _ mis (
                  append-All (IsFrom qp) _ _ offset (
                    append-All (IsFrom qp) _ _ lossy
                      (append-All (IsFrom qp) _ _ nested wrong))))))))

  -- Where the detectors return on a plan, each insight has the plan's fingerprint, and its
  -- relation is none or one that a node of the plan names.
  pub detect_all-IsFrom :
      (found : List (Insight f64.F)) → detect_all f64 qp ≡ some found → All (IsFrom qp) found
  unfolding detect_all detect_disk_spill
  detect_all-IsFrom found h =
      go (report_spill f64 default_spill qp (sum_spills (walk_path qp.root []) no_spill))
        (report (ltz (sum_spills (walk_path qp.root []) no_spill).spill_kb (pos 1024))
          (next_pow2_mb (sum_spills (walk_path qp.root []) no_spill).largest_kb))
        h
    where
      IsFine : Option (List (Insight f64.F)) → Type 0
      IsFine none = Unit
      IsFine (some xs) = All (IsFrom qp) xs

      report :
          (b : Bool) (r : Option ℤ)
          → IsFine (
              if b
              then some []
              else spill_insight f64 default_spill qp
                  (sum_spills (walk_path qp.root []) no_spill)
                  r)
      report true r = tt
      report false none = tt
      report false (some mb) = ((refl, inl refl), tt)

      go :
          (last : Option (List (Insight f64.F)))
          → IsFine last
          → after_nodes f64 (detect_by_node f64 qp) last ≡ some found
          → All (IsFrom qp) found
      go none k e = cc
      go (some xs) k e =
          subst IsFine e (append-All (IsFrom qp) (detect_by_node f64 qp) xs detect_by_node-IsFrom k)
