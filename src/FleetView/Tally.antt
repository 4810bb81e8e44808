-- ===== src/FleetView/Tally.antt =====
-- internal/fleetview/dashboard.go: the counts of `BuildFleetView` against its list of items.
use lynceus.Prelude.{
  ℕ, suc, ◌+◌, ◌≡◌, ◌↔◌, refl, sym, subst, ◌∙◌, ap, ap₂, String, true, inl, inr, List, [], ◌∷◌,
  ◌++◌, length, length-append, Permᴰ, Bool-cases, arith,
}
use lynceus.Prelude.Sort.{sort, sort-perm, sort-IsSorted, IsSorted}
use lynceus.Prelude.Result.{ok}
use lynceus.Checks.Vacuum.{Float64}
use lynceus.FleetView.Holding.{Holds, bind-Holds, any-Holds, Holds-ok}
use lynceus.FleetView.{
  LatestCheck, TopInsight, Config, StatsStore, Sev, crit, warn, info, is_open_check,
}
use lynceus.FleetView.Summary.{ClusterSummary, OpenCounts, list_cluster_summaries}
use lynceus.FleetView.Items.{AttentionItem, place_order, place_of}
use lynceus.FleetView.Dashboard.{
  FleetCluster, View, Names, Open, bump, with_health, check_item, insight_item, add_item,
  add_checks, add_insights, add_servers, close_cluster, is_empty, empty_view, finish_view,
  read_names, add_clusters, build_fleet_view,
}

abbrev pub counts : (crit warn info : ℕ) → OpenCounts
counts c w i = record { crit = c; warn = w; info = i }

abbrev pub one : Sev → OpenCounts
one crit = counts 1 0 0
one warn = counts 0 1 0
one info = counts 0 0 1

infixl 60 ◌⊕◌
abbrev pub ◌⊕◌ : OpenCounts → OpenCounts → OpenCounts
a ⊕ b = counts (a.crit + b.crit) (a.warn + b.warn) (a.info + b.info)

abbrev pub count_items : List AttentionItem → OpenCounts
count_items [] = counts 0 0 0
count_items (x ∷ xs) = one x.sev ⊕ count_items xs

abbrev pub count_cluster : {F : Type 0} → FleetCluster F → OpenCounts
count_cluster fc = counts fc.crit fc.warn fc.info

abbrev pub count_clusters : {F : Type 0} → List (FleetCluster F) → OpenCounts
count_clusters [] = counts 0 0 0
count_clusters (fc ∷ fcs) = count_cluster fc ⊕ count_clusters fcs

abbrev pub open_counts : {F : Type 0} → View F → OpenCounts
open_counts fv = counts fv.open_crit fv.open_warn fv.open_info

⊕_comm : (a b : OpenCounts) → a ⊕ b ≡ b ⊕ a
⊕_comm a b = ground arith

⊕_assoc : (a b c : OpenCounts) → a ⊕ b ⊕ c ≡ a ⊕ (b ⊕ c)
⊕_assoc a b c = ground arith

swapped : (a b c : OpenCounts) → a ⊕ (b ⊕ c) ≡ b ⊕ (a ⊕ c)
swapped a b c = ground arith

count_items-append :
    (xs ys : List AttentionItem) → count_items (xs ++ ys) ≡ count_items xs ⊕ count_items ys
count_items-append [] ys = ground arith
count_items-append (x ∷ xs) ys =
    ap (λ c. one x.sev ⊕ c) (count_items-append xs ys)
    ∙ sym (⊕_assoc (one x.sev) (count_items xs) (count_items ys))

count_items-perm : {xs ys : List AttentionItem} → Permᴰ xs ys → count_items xs ≡ count_items ys
count_items-perm Permᴰ.nil = refl
count_items-perm (Permᴰ.cons e p) = ap₂ (λ x c. one x.sev ⊕ c) e (count_items-perm p)
count_items-perm (Permᴰ.swap {a = a} {b = b} {l = l} e f) =
    swapped (one a.sev) (one b.sev) (count_items l)
    ∙ ap₂ (λ x y. one x.sev ⊕ (one y.sev ⊕ count_items l)) f e
count_items-perm (Permᴰ.trans p q) = count_items-perm p ∙ count_items-perm q

count_clusters-append :
    {F : Type 0} (xs : List (FleetCluster F)) (fc : FleetCluster F)
    → count_clusters (xs ++ fc ∷ []) ≡ count_clusters xs ⊕ count_cluster fc
count_clusters-append [] fc = ground arith
count_clusters-append (x ∷ xs) fc =
    ap (λ c. count_cluster x ⊕ c) (count_clusters-append xs fc)
    ∙ sym (⊕_assoc (count_cluster x) (count_clusters xs) (count_cluster fc))

count_cluster-bump :
    {F : Type 0} (fc : FleetCluster F) (s : Sev)
    → count_cluster (bump fc s) ≡ count_cluster fc ⊕ one s
count_cluster-bump fc crit = ground arith
count_cluster-bump fc warn = ground arith
count_cluster-bump fc info = ground arith

-- The list has what the clusters before counted, and what this one has.
abbrev Fits : {F : Type 0} → OpenCounts → Open F → Type 0
Fits base o = count_items o.attention ≡ base ⊕ count_cluster o.cluster

add_item-Fits :
    {F : Type 0} (base : OpenCounts) (o : Open F) (x : AttentionItem)
    → Fits base o
    → Fits base (add_item o x)
add_item-Fits base o x h =
    ground (arith, h, count_items-append o.attention (x ∷ []), count_cluster-bump o.cluster x.sev)

module _ {F : Type 0} (base : OpenCounts) (cl : String) (names : Names) where
  add_checks-Fits :
      (sid : String) (checks : List LatestCheck) (o : Open F)
      → Fits base o
      → Fits base (add_checks cl names sid checks o)
  unfolding add_checks
  add_checks-Fits sid [] o h = h
  add_checks-Fits sid (ch ∷ checks) o h = elim (Bool-cases (is_open_check ch)) [
    | inl e ↦
        rw (add_checks, e)
          (add_checks-Fits sid checks (add_item o (check_item cl names sid ch))
            (add_item-Fits base o (check_item cl names sid ch) h))
    | inr e ↦ rw (add_checks, e) (add_checks-Fits sid checks o h)
  ]

  add_insights-Fits :
      (xs : List TopInsight) (o : Open F) → Fits base o → Fits base (add_insights cl names xs o)
  unfolding add_insights
  add_insights-Fits [] o h = h
  add_insights-Fits (x ∷ xs) o h =
      add_insights-Fits xs (add_item o (insight_item cl names x))
        (add_item-Fits base o (insight_item cl names x) h)

  add_servers-Fits :
      (stats : StatsStore F) (sids : List String) (o : Open F)
      → Fits base o
      → Holds (Fits base) (add_servers cl names stats sids o)
  unfolding add_servers
  add_servers-Fits stats [] o h = h
  add_servers-Fits stats (sid ∷ sids) o h =
      any-Holds (Fits base) (stats.latest_checks_results sid) _ (λ checks.
        add_servers-Fits stats sids (add_checks cl names sid checks o)
          (add_checks-Fits sid checks o h))

-- The totals are those of the list and those of the clusters, of which `todo` are to come.
abbrev Tallied : {F : Type 0} → (todo : ℕ) → View F → Type 0
Tallied todo fv =
    (count_items fv.attention ≡ open_counts fv)
    × (count_clusters fv.clusters ≡ open_counts fv)
    × (length fv.clusters + todo ≡ fv.cluster_count)

close_cluster-Tallied :
    {F : Type 0} (todo nodes databases : ℕ) (fv : View F) (o : Open F)
    → Tallied (suc todo) fv
    → Fits (open_counts fv) o
    → Tallied todo (close_cluster nodes databases fv o)
close_cluster-Tallied todo nodes databases fv o h k = (
  k,
  count_clusters-append fv.clusters (with_health o.cluster)
      ∙ ap (λ c. c ⊕ count_cluster o.cluster) h.1,
  ap (λ n. n + todo) (length-append fv.clusters (with_health o.cluster ∷ [])) ∙ ground (arith, h),
)

-- The open issues are counted as they stand in the list, cluster by cluster and in all, the list
-- is in order, and the fleet is healthy exactly where nothing is open.
abbrev pub IsFleet : {F : Type 0} → View F → Type 0
IsFleet fv =
    (count_items fv.attention ≡ open_counts fv)
    × (count_clusters fv.clusters ≡ open_counts fv)
    × (length fv.clusters ≡ fv.cluster_count)
    × IsSorted place_of fv.attention
    × ((fv.healthy ≡ true) ↔ (open_counts fv ≡ counts 0 0 0))

one_count : (s : Sev) → (one s).crit + (one s).warn + (one s).info ≡ 1
one_count crit = refl
one_count warn = refl
one_count info = refl

is_empty-count : (xs : List AttentionItem) → (is_empty xs ≡ true) ↔ (count_items xs ≡ counts 0 0 0)
is_empty-count [] = ground arith
is_empty-count (x ∷ xs) = (λ e. ground (arith, e), λ e. ground (arith, e, one_count x.sev))

finish_view-IsFleet : {F : Type 0} (fv : View F) → Tallied 0 fv → IsFleet (finish_view fv)
finish_view-IsFleet fv h =
    let same = count_items-perm (sort-perm place_of fv.attention) ∙ h.0 in
    (
      same,
      h.1,
      ground (arith, h),
      sort-IsSorted place_of fv.attention,
      subst (λ c. (is_empty (sort place_of fv.attention) ≡ true) ↔ (c ≡ counts 0 0 0)) same
          (is_empty-count (sort place_of fv.attention)),
    )

module _ (version_text : ℕ → ℕ → String) (f64 : Float64) (cfg : Config)
    (stats : StatsStore f64.F) where
  add_clusters-Tallied :
      (sums : List (ClusterSummary f64.F)) (fv : View f64.F)
      → Tallied (length sums) fv
      → Holds (Tallied 0) (add_clusters version_text f64 cfg stats sums fv)
  unfolding add_clusters
  add_clusters-Tallied [] fv h = h
  add_clusters-Tallied (sum ∷ sums) fv h =
      any-Holds (Tallied 0) (cfg.server_ids_for_cluster sum.cluster.id) _ (λ sids.
        any-Holds (Tallied 0) (cfg.list_instances sum.cluster.id) _ (λ instances.
          any-Holds (Tallied 0) (read_names cfg instances _) _ (λ names.
            bind-Holds (Fits (open_counts fv)) (Tallied 0)
              (add_servers sum.cluster.id names stats sids _) _
              (add_servers-Fits (open_counts fv) sum.cluster.id names stats sids _
                (h.0 ∙ ground arith))
              (λ o k. any-Holds (Tallied 0) (stats.top_insights_for_servers sids 50) _ (λ insights.
                add_clusters-Tallied sums _ (
                  close_cluster-Tallied (length sums) sum.instance_count (length names.databases) fv
                    (add_insights sum.cluster.id names insights o) h
                    (add_insights-Fits (open_counts fv) sum.cluster.id names insights o k)))))))

  -- Whatever the stores answer, where a view is built its open counts are those of its items by
  -- severity and the sums over its clusters, its clusters are as many as it says, its items go from
  -- the worst severity to the least and within one from the newest to the oldest, and it is
  -- healthy exactly where nothing is open.
  pub build_fleet_view-IsFleet :
      (fv : View f64.F) → build_fleet_view version_text f64 cfg stats ≡ ok fv → IsFleet fv
  unfolding build_fleet_view
  build_fleet_view-IsFleet fv = Holds-ok IsFleet (build_fleet_view version_text f64 cfg stats) (
      any-Holds IsFleet (list_cluster_summaries version_text f64 cfg stats) _ (λ sums.
        bind-Holds (Tallied 0) IsFleet
          (add_clusters version_text f64 cfg stats sums (empty_view (length sums))) _
          (add_clusters-Tallied sums (empty_view (length sums)) (refl, refl, ground arith))
          finish_view-IsFleet))
