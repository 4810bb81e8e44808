-- ===== src/Ingest/Persist/Tiers.antt =====
-- internal/ingest/server.go: what the rows of a snapshot carry, on whatever path they are written.
use lynceus.Prelude.{
  String, ◌≡◌, ◌⊎◌, refl, sym, subst, inl, inr, List, [], ◌∷◌, ◌++◌, map, flat_map, All, append-All,
}
use lynceus.Ingest.Wire.{Snapshot}
use lynceus.Ingest.Rows.{
  QueryStatRow, ActivityBucketRow, QueryPlanRow, InsightRow, SchemaObjectRow, TableStatRow,
  LogEventRow, FreezeAgeRow, XminHorizonRow, IndexStatRow, SettingRow, ConnectionSampleRow,
  BlockingEdgeRow,
}
use lynceus.Ingest.Convert.{
  snapshot_to_rows, snapshot_to_raw_rows, snapshot_to_query_plans, snapshot_to_insights,
  snapshot_to_schema_objects, snapshot_to_table_stats, snapshot_to_freeze_ages,
}
use lynceus.Ingest.Health.{
  snapshot_to_xmin_horizons, snapshot_to_settings, snapshot_to_index_stats, snapshot_to_log_events,
  snapshot_to_activity_buckets, snapshot_to_connection_samples, snapshot_to_blocking_edges,
}
use lynceus.Ingest.Persist.{
  Write, write_query_stats, write_activity_buckets, write_query_plans, write_insights,
  write_schema_objects, write_table_stats, write_log_events, write_freeze_ages, write_xmin_horizons,
  write_index_stats, write_settings, write_connection_samples, write_blocking_edges, Outside,
  Persisted, persist_snapshot,
}
use lynceus.Ingest.Persist.Order.{
  Plan, planned, planned_rows, writes_of, Followed, all_done, stopped_at, persist_snapshot-Followed,
}

module _ {Body : Type 0} (server : String) where
  -- A row of the server, in tier 1, except that a query row may be in tier 2: only there may it have
  -- a raw text. Schema objects have no tier.
  abbrev pub IsTiered : Write Body → Type 0
  IsTiered (write_query_stats rs) =
      All
        (λ (r : QueryStatRow).
          (r.server_id ≡ server) × (((r.data_tier ≡ 1) × (r.raw_query ≡ "")) ⊎ (r.data_tier ≡ 2)))
        rs
  IsTiered (write_activity_buckets rs) =
      All (λ (r : ActivityBucketRow). (r.server_id ≡ server) × (r.data_tier ≡ 1)) rs
  IsTiered (write_query_plans rs) =
      All (λ (r : QueryPlanRow Body). (r.server_id ≡ server) × (r.data_tier ≡ 1)) rs
  IsTiered (write_insights rs) =
      All (λ (r : InsightRow). (r.server_id ≡ server) × (r.data_tier ≡ 1)) rs
  IsTiered (write_schema_objects rs) = All (λ (r : SchemaObjectRow). r.server_id ≡ server) rs
  IsTiered (write_table_stats rs) =
      All (λ (r : TableStatRow). (r.server_id ≡ server) × (r.data_tier ≡ 1)) rs
  IsTiered (write_log_events rs) =
      All (λ (r : LogEventRow). (r.server_id ≡ server) × (r.data_tier ≡ 1)) rs
  IsTiered (write_freeze_ages rs) =
      All (λ (r : FreezeAgeRow). (r.server_id ≡ server) × (r.data_tier ≡ 1)) rs
  IsTiered (write_xmin_horizons rs) =
      All (λ (r : XminHorizonRow). (r.server_id ≡ server) × (r.data_tier ≡ 1)) rs
  IsTiered (write_index_stats rs) =
      All (λ (r : IndexStatRow). (r.server_id ≡ server) × (r.data_tier ≡ 1)) rs
  IsTiered (write_settings rs) =
      All (λ (r : SettingRow). (r.server_id ≡ server) × (r.data_tier ≡ 1)) rs
  IsTiered (write_connection_samples rs) =
      All (λ (r : ConnectionSampleRow). (r.server_id ≡ server) × (r.data_tier ≡ 1)) rs
  IsTiered (write_blocking_edges rs) =
      All (λ (r : BlockingEdgeRow). (r.server_id ≡ server) × (r.data_tier ≡ 1)) rs

All-map :
    {A B : Type 0} (P : B → Type 0) (f : A → B) (xs : List A)
    → ((a : A) → P (f a))
    → All P (map f xs)
All-map P f [] h = tt
All-map P f (x ∷ xs) h = (h x, All-map P f xs h)

All-flat_map :
    {A B : Type 0} (P : B → Type 0) (f : A → List B) (xs : List A)
    → ((a : A) → All P (f a))
    → All P (flat_map f xs)
All-flat_map P f [] h = tt
All-flat_map P f (x ∷ xs) h = append-All P (f x) (flat_map f xs) (h x) (All-flat_map P f xs h)

writes_of-append :
    {Body : Type 0} (P : Write Body → Type 0) (xs ys : Plan Body)
    → All P (writes_of xs)
    → All P (writes_of ys)
    → All P (writes_of (xs ++ ys))
writes_of-append P [] ys h k = k
writes_of-append P (x ∷ xs) ys h k = (h.0, writes_of-append P xs ys h.1 k)

writes_of-prefix :
    {Body : Type 0} (P : Write Body → Type 0) (xs ys : Plan Body)
    → All P (writes_of (xs ++ ys))
    → All P (writes_of xs)
writes_of-prefix P [] ys h = tt
writes_of-prefix P (x ∷ xs) ys h = (h.0, writes_of-prefix P xs ys h.1)

-- The writes of a plan have a property.
record Every {Body : Type 0} (P : Write Body → Type 0) (plan : Plan Body) : Type 0 where
  writes : All P (writes_of plan)

-- More rows of a kind that has the property.
more :
    {Body R : Type 0} (P : Write Body → Type 0) (l : String) (w : List R → Write Body) (rs : List R)
    (plan : Plan Body)
    → Every P plan
    → P (w rs)
    → Every P (plan ++ planned_rows l w rs)
more P l w [] plan h k = record { writes = writes_of-append P plan [] h.writes tt }
more P l w (r ∷ rs) plan h k = record {
  writes = writes_of-append P plan ((l, w (r ∷ rs)) ∷ []) h.writes (k, tt);
}

planned-IsTiered :
    {Body : Type 0} (out : Outside Body) (snap : Snapshot Body)
    → Every (IsTiered snap.server_id) (planned out snap)
unfolding snapshot_to_activity_buckets snapshot_to_blocking_edges snapshot_to_connection_samples
    snapshot_to_freeze_ages snapshot_to_index_stats snapshot_to_insights snapshot_to_log_events
    snapshot_to_query_plans snapshot_to_raw_rows snapshot_to_rows snapshot_to_schema_objects
    snapshot_to_settings snapshot_to_table_stats snapshot_to_xmin_horizons
planned-IsTiered out snap =
    let t = IsTiered snap.server_id in
    let base : Every t
        (("write", write_query_stats (snapshot_to_rows snap (out.clock "write"))) ∷ []) =
      record { writes = (All-map _ _ snap.query_stats (λ q. (refl, inl (refl, refl))), tt) } in
    let p1 =
      more t "write raw" write_query_stats (snapshot_to_raw_rows snap (out.clock "write raw")) _
        base (All-map _ _ snap.query_stat_raws (λ q. (refl, inr refl))) in
    let p2 =
      more t "write activity" write_activity_buckets (snapshot_to_activity_buckets snap) _ p1
        (All-map _ _ snap.activity_buckets (λ a. (refl, refl))) in
    let p3 =
      more t "write plans" write_query_plans (snapshot_to_query_plans snap) _ p2
        (All-map _ _ snap.query_plans (λ a. (refl, refl))) in
    let p4 =
      more t "write insights" write_insights (snapshot_to_insights out.detect_all snap) _ p3 (
        All-flat_map _ _ snap.query_plans
          (λ p. All-map _ _ (out.detect_all p) (λ i. (refl, refl)))) in
    let p5 =
      more t "write schema_objects" write_schema_objects (snapshot_to_schema_objects snap) _ p4
        (All-map _ _ snap.schema_objects (λ a. refl)) in
    let p6 =
      more t "write table_stats" write_table_stats
        (snapshot_to_table_stats snap (out.clock "write table_stats")) _ p5
        (All-map _ _ snap.table_stats (λ a. (refl, refl))) in
    let p7 =
      more t "write log_events" write_log_events (snapshot_to_log_events snap) _ p6
        (All-map _ _ snap.log_events (λ a. (refl, refl))) in
    let p8 =
      more t "write freeze_ages" write_freeze_ages
        (snapshot_to_freeze_ages snap (out.clock "write freeze_ages")) _ p7
        (All-map _ _ snap.freeze_ages (λ a. (refl, refl))) in
    let p9 =
      more t "write xmin_horizon" write_xmin_horizons
        (snapshot_to_xmin_horizons snap (out.clock "write xmin_horizon")) _ p8
        (All-map _ _ snap.xmin_horizons (λ a. (refl, refl))) in
    let p10 =
      more t "write index_stats" write_index_stats
        (snapshot_to_index_stats snap (out.clock "write index_stats")) _ p9
        (All-map _ _ snap.index_stats (λ a. (refl, refl))) in
    let p11 =
      more t "write settings" write_settings
        (snapshot_to_settings snap (out.clock "write settings")) _ p10
        (All-map _ _ snap.settings (λ a. (refl, refl))) in
    let p12 =
      more t "write connection_samples" write_connection_samples
        (snapshot_to_connection_samples snap) _ p11
        (All-map _ _ snap.connection_samples (λ a. (refl, refl))) in
    more t "write blocking_edges" write_blocking_edges (snapshot_to_blocking_edges snap) _ p12
      (All-map _ _ snap.blocking_edges (λ a. (refl, refl)))

Followed-IsTiered :
    {Body : Type 0} (P : Write Body → Type 0) {answer : _} {plan : Plan Body} {p : Persisted Body}
    → Followed answer plan p
    → All P (writes_of plan)
    → All P p.done
Followed-IsTiered P (all_done e) h = subst (λ (q : Persisted _). All P q.done) (sym e) h
Followed-IsTiered P (stopped_at before after l w x e q k) h =
    subst (λ (q : Persisted _). All P q.done) (sym k)
      (writes_of-prefix P before ((l, w) ∷ after) (subst (λ ps. All P (writes_of ps)) e h))

-- Every row that a snapshot causes to be written, whether all its writes succeed or not, is of the
-- snapshot's server, and a row outside tier 2 has no raw query text.
pub persist_snapshot-IsTiered :
    {Body : Type 0} (out : Outside Body) (snap : Snapshot Body)
    → All (IsTiered snap.server_id) (persist_snapshot out snap).done
persist_snapshot-IsTiered out snap =
    Followed-IsTiered (IsTiered snap.server_id) (persist_snapshot-Followed out snap)
      (planned-IsTiered out snap).writes
