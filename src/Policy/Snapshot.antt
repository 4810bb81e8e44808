-- ===== src/Policy/Snapshot.antt =====
-- internal/api/capabilities.go (`handlePolicySnapshot`) and internal/collector/policy_refresh.go:
-- policy on its way from the config database to the collector's gate.
use lynceus.Prelude.{
  ℕ, String, Bool, false, ◌&&◌, Option, none, some, List, [], ◌∷◌, ◌++◌, map, filter, not, ◌==◌,
  string_eq, nat_eq, if◌then◌else◌,
}
use lynceus.Prelude.Dict.{put}
use lynceus.Prelude.Result.{Error, Result, ok, err, msg, label, ◌>>=◌}
use lynceus.Caps.{query_text_t2}
use lynceus.Caps.Gate.{GateKey, key_eq}
use lynceus.Caps.Gate
use lynceus.Policy.{CapabilityPolicy, PolicySource}

pub record PolicySnapshotEntry : Type 0 where
  pub capability : String
  pub database_name : String
  pub enabled : Bool

-- What the handler reads of `store.Config`.
pub record PolicyReader : Type 0 where
  pub list_capability_policies : String → Result (List CapabilityPolicy)
  pub server_t2_enabled : String → Result (Bool × Bool)
  pub effective_capability : String → String → String → Result (Option (Bool × PolicySource))

abbrev pub to_entry : CapabilityPolicy → PolicySnapshotEntry
to_entry p = record {
  capability = p.capability;
  database_name = p.database_name;
  enabled = p.enabled;
}

abbrev pub enabled_of : Option (Bool × PolicySource) → Bool
enabled_of none = false
enabled_of (some p) = p.0

abbrev pub stored_entries : List CapabilityPolicy → List PolicySnapshotEntry
stored_entries rows = map to_entry (filter (λ p. not (p.capability == query_text_t2)) rows)

-- An error is answered with status 500.
unfoldable pub handle_policy_snapshot : PolicyReader → String → Result (List PolicySnapshotEntry)
handle_policy_snapshot conf server = do
  rows ← conf.list_capability_policies server
  t2 ← conf.server_t2_enabled server
  pol ← conf.effective_capability server "" query_text_t2
  ok (
      stored_entries rows
      ++ (record {
        capability = query_text_t2;
        database_name = "";
        enabled = t2.0 && enabled_of pol;
      })
        ∷ [])

-- What comes back of the GET: building or sending it failed, or a status with the body as decoded.
pub data Response : Type 0 where
  build_failed : Error → Response
  get_failed : Error → Response
  reply : ℕ → Result (List PolicySnapshotEntry) → Response

-- One pass over the entries that writes those of the wanted database name under the key of `db`.
unfoldable pub overlay : String → String → List PolicySnapshotEntry → Gate.Snapshot → Gate.Snapshot
overlay wanted db [] out = out
overlay wanted db (e ∷ es) out = overlay wanted db es (
    if e.database_name == wanted
    then put (record { db = db; cap = e.capability }) e.enabled out
    else out)

-- The server-wide defaults first, then the overrides of this database.
unfoldable pub resolve_entries : String → List PolicySnapshotEntry → Gate.Snapshot
unfolding overlay
resolve_entries db entries = overlay db db entries (overlay "" db entries [])

unfoldable pub fetch_policy_snapshot : Response → String → Result Gate.Snapshot
unfolding resolve_entries
fetch_policy_snapshot (build_failed e) db = label "build policy-snapshot request" (err e)
fetch_policy_snapshot (get_failed e) db = label "get policy-snapshot" (err e)
fetch_policy_snapshot (reply status body) db =
    if status == 200
    then (do entries ← label "decode policy-snapshot" body; ok (resolve_entries db entries))
    else err (msg "policy-snapshot status")

-- cmd/collector: `refreshPolicy` keeps the gate as it is where no api server is configured and
-- where the fetch fails.
unfoldable pub refresh_policy : String → Result Gate.Snapshot → Gate.Gate → Gate.Gate
unfolding Gate.replace
refresh_policy api_base_url fetched g =
    if api_base_url == ""
    then g
    else elim fetched [ ok snap ↦ Gate.replace g (some snap) | err e ↦ g ]
