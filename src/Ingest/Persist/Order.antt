-- ===== src/Ingest/Persist/Order.antt =====
-- internal/ingest/server.go (`persistSnapshot`): the writes are made in one order, up to the first
-- that fails.
use lynceus.Prelude.{
  String, ◌≡◌, refl, sym, ap, subst, ◌∙◌, Option, none, some, List, [], ◌∷◌, ◌++◌, map,
  append_assoc, append-nil,
}
use lynceus.Prelude.Result.{Error}
use lynceus.Ingest.Wire.{Snapshot}
use lynceus.Ingest.Convert.{
  snapshot_to_rows, snapshot_to_raw_rows, snapshot_to_query_plans, snapshot_to_insights,
  snapshot_to_schema_objects, snapshot_to_table_stats, snapshot_to_freeze_ages,
}
use lynceus.Ingest.Health.{
  snapshot_to_xmin_horizons, snapshot_to_settings, snapshot_to_index_stats, snapshot_to_log_events,
  snapshot_to_activity_buckets, snapshot_to_connection_samples, snapshot_to_blocking_edges,
}
use lynceus.Ingest.Persist.{
  Write, write_query_stats, write_activity_buckets, write_query_plans, write_insights,
  write_schema_objects, write_table_stats, write_log_events, write_freeze_ages, write_xmin_horizons,
  write_index_stats, write_settings, write_connection_samples, write_blocking_edges, Outside,
  Persisted, accept, send, send_rows, persist_extended_rows, persist_snapshot,
}

abbrev pub Plan : Type 0 → Type 0
Plan Body = List (String × Write Body)

-- A write of rows, if there are any.
abbrev pub planned_rows : {Body R : Type 0} → String → (List R → Write Body) → List R → Plan Body
planned_rows l w [] = []
planned_rows l w (r ∷ rs) = (l, w (r ∷ rs)) ∷ []

-- The writes of a snapshot, with their labels, in order.
abbrev pub planned : {Body : Type 0} → Outside Body → Snapshot Body → Plan Body
planned out snap =
    let p1 =
      (("write", write_query_stats (snapshot_to_rows snap (out.clock "write"))) ∷ [])
      ++ planned_rows "write raw" write_query_stats
          (snapshot_to_raw_rows snap (out.clock "write raw")) in
    let p2 =
      p1
      ++ planned_rows "write activity" write_activity_buckets (snapshot_to_activity_buckets snap) in
    let p3 = p2 ++ planned_rows "write plans" write_query_plans (snapshot_to_query_plans snap) in
    let p4 =
      p3
      ++ planned_rows "write insights" write_insights (snapshot_to_insights out.detect_all snap) in
    let p5 =
      p4
      ++ planned_rows "write schema_objects" write_schema_objects
          (snapshot_to_schema_objects snap) in
    let p6 =
      p5
      ++ planned_rows "write table_stats" write_table_stats
          (snapshot_to_table_stats snap (out.clock "write table_stats")) in
    let p7 = p6 ++ planned_rows "write log_events" write_log_events (snapshot_to_log_events snap) in
    let p8 =
      p7
      ++ planned_rows "write freeze_ages" write_freeze_ages
          (snapshot_to_freeze_ages snap (out.clock "write freeze_ages")) in
    let p9 =
      p8
      ++ planned_rows "write xmin_horizon" write_xmin_horizons
          (snapshot_to_xmin_horizons snap (out.clock "write xmin_horizon")) in
    let p10 =
      p9
      ++ planned_rows "write index_stats" write_index_stats
          (snapshot_to_index_stats snap (out.clock "write index_stats")) in
    let p11 =
      p10
      ++ planned_rows "write settings" write_settings
          (snapshot_to_settings snap (out.clock "write settings")) in
    let p12 =
      p11
      ++ planned_rows "write connection_samples" write_connection_samples
          (snapshot_to_connection_samples snap) in
    p12
    ++ planned_rows "write blocking_edges" write_blocking_edges (snapshot_to_blocking_edges snap)

abbrev pub writes_of : {Body : Type 0} → Plan Body → List (Write Body)
writes_of plan = map (λ p. p.1) plan

-- All writes of a plan were made, or those before the first refused one.
pub data Followed {Body : Type 0} (answer : List (Write Body) → Write Body → Option Error)
    (plan : Plan Body) (p : Persisted Body) : Type 0 where
  all_done : p ≡ record { done = writes_of plan; failed = none } → Followed answer plan p
  stopped_at :
      (before after : Plan Body) (label : String) (w : Write Body) (e : Error)
      → plan ≡ before ++ (label, w) ∷ after
      → answer (writes_of before) w ≡ some e
      → p ≡ record { done = writes_of before; failed = some (label, e) }
      → Followed answer plan p

module _ {Body : Type 0} (answer : List (Write Body) → Write Body → Option Error) where
  map-snoc :
      (xs : Plan Body) (l : String) (w : Write Body)
      → writes_of xs ++ w ∷ [] ≡ writes_of (xs ++ (l, w) ∷ [])
  map-snoc [] l w = refl
  map-snoc (x ∷ xs) l w = ap (◌∷◌ x.1) (map-snoc xs l w)

  accept-Followed :
      (plan : Plan Body) (l : String) (w : Write Body) (a : Option Error)
      → answer (writes_of plan) w ≡ a
      → Followed answer (plan ++ (l, w) ∷ []) (accept l w (writes_of plan) a)
  accept-Followed plan l w none q =
      all_done (λ i. record { done = map-snoc plan l w i; failed = none })
  accept-Followed plan l w (some e) q = stopped_at plan [] l w e refl q refl

  send-Followed :
      (plan : Plan Body) (l : String) (w : Write Body) (p : Persisted Body)
      → Followed answer plan p
      → Followed answer (plan ++ (l, w) ∷ []) (send answer l w p.done p.failed)
  send-Followed plan l w p (all_done e) =
      subst
        (λ (r : Persisted Body).
          Followed answer (plan ++ (l, w) ∷ []) (send answer l w r.done r.failed))
        (sym e) (accept-Followed plan l w (answer (writes_of plan) w) refl)
  send-Followed plan l w p (stopped_at before after m v x e q h) =
      stopped_at before (after ++ (l, w) ∷ []) m v x
        (ap (λ ps. ps ++ (l, w) ∷ []) e ∙ append_assoc before ((m, v) ∷ after) ((l, w) ∷ [])) q
        (ap (λ (r : Persisted Body). send answer l w r.done r.failed) h)

  send_rows-Followed :
      {R : Type 0} (l : String) (w : List R → Write Body) (rs : List R) (plan : Plan Body)
      (p : Persisted Body)
      → Followed answer plan p
      → Followed answer (plan ++ planned_rows l w rs) (send_rows answer l w rs p)
  send_rows-Followed l w [] plan p h = subst (λ ps. Followed answer ps p) (sym (append-nil plan)) h
  send_rows-Followed l w (r ∷ rs) plan p h = send-Followed plan l (w (r ∷ rs)) p h

-- The writes of a snapshot are made in the order of the plan: either all of them are accepted, or
-- those before the first one refused, whose label and error are reported.
pub persist_snapshot-Followed :
    {Body : Type 0} (out : Outside Body) (snap : Snapshot Body)
    → Followed out.answer (planned out snap) (persist_snapshot out snap)
unfolding persist_snapshot persist_extended_rows
persist_snapshot-Followed out snap =
    let p1 =
      send_rows-Followed out.answer "write raw" write_query_stats
        (snapshot_to_raw_rows snap (out.clock "write raw")) _ _
        (accept-Followed out.answer [] "write"
          (write_query_stats (snapshot_to_rows snap (out.clock "write"))) _ refl) in
    let p2 =
      send_rows-Followed out.answer "write activity" write_activity_buckets
        (snapshot_to_activity_buckets snap) _ _ p1 in
    let p3 =
      send_rows-Followed out.answer "write plans" write_query_plans (snapshot_to_query_plans snap) _
        _ p2 in
    let p4 =
      send_rows-Followed out.answer "write insights" write_insights
        (snapshot_to_insights out.detect_all snap) _ _ p3 in
    let p5 =
      send_rows-Followed out.answer "write schema_objects" write_schema_objects
        (snapshot_to_schema_objects snap) _ _ p4 in
    let p6 =
      send_rows-Followed out.answer "write table_stats" write_table_stats
        (snapshot_to_table_stats snap (out.clock "write table_stats")) _ _ p5 in
    let p7 =
      send_rows-Followed out.answer "write log_events" write_log_events
        (snapshot_to_log_events snap) _ _ p6 in
    let p8 =
      send_rows-Followed out.answer "write freeze_ages" write_freeze_ages
        (snapshot_to_freeze_ages snap (out.clock "write freeze_ages")) _ _ p7 in
    let p9 =
      send_rows-Followed out.answer "write xmin_horizon" write_xmin_horizons
        (snapshot_to_xmin_horizons snap (out.clock "write xmin_horizon")) _ _ p8 in
    let p10 =
      send_rows-Followed out.answer "write index_stats" write_index_stats
        (snapshot_to_index_stats snap (out.clock "write index_stats")) _ _ p9 in
    let p11 =
      send_rows-Followed out.answer "write settings" write_settings
        (snapshot_to_settings snap (out.clock "write settings")) _ _ p10 in
    let p12 =
      send_rows-Followed out.answer "write connection_samples" write_connection_samples
        (snapshot_to_connection_samples snap) _ _ p11 in
    send_rows-Followed out.answer "write blocking_edges" write_blocking_edges
      (snapshot_to_blocking_edges snap) _ _ p12
