-- ===== src/PolicyResolve/Tests.antt =====
-- internal/policyresolve/flatten.go: two servers, a fleet policy, a group policy and a database
-- policy.
use mathlib.Core.List.Permᴰ
use lynceus.Prelude.{
  String, Bool, true, false, ◌≡◌, ◌≢◌, ◌↔◌, refl, List, [], ◌∷◌, Memᴰ, Permᴰ, All-mem, string_eq,
}
use lynceus.Prelude.Int.{pos}
use lynceus.Prelude.Dict.{get, IsMap}
use lynceus.PolicyResolve.{
  Scope, fleet, group, database, Labels, ScopedPolicy, Entity, EntityGraph, DesiredRow, Conflict,
  Reason, disagreement, dead_row, MapOrder, flatten,
}
use lynceus.PolicyResolve.Rows.{IsDesired, flatten-rows}
use lynceus.PolicyResolve.Conflicts.{IsRaised, flatten-conflicts}
use lynceus.PolicyResolve.Determinism.{HasNames, flatten_deterministic}

abbrev graph : EntityGraph
graph =
    ("s1", record { current_database = "app"; labels = ("env", "prod") ∷ [] })
    ∷ ("s2", record { current_database = "crm"; labels = ("env", "dev") ∷ [] })
    ∷ []

abbrev policy : String → Scope → Labels → String → Bool → ScopedPolicy
policy name scope selector db on = record {
  name = name;
  scope = scope;
  priority = pos 0;
  selector = selector;
  database_name = db;
  capabilities = record { capability = "settings"; enabled = on } ∷ [];
}

-- On for the fleet, off in production, on for the database of `s1`, and one for no database.
abbrev all_on : ScopedPolicy
all_on = policy "all-on" fleet [] "" true

abbrev prod_off : ScopedPolicy
prod_off = policy "prod-off" group (("env", "prod") ∷ []) "" false

abbrev app_on : ScopedPolicy
app_on = policy "app-on" database [] "app" true

abbrev gone_on : ScopedPolicy
gone_on = policy "gone-on" database [] "gone" true

abbrev policies : List ScopedPolicy
policies = all_on ∷ prod_off ∷ app_on ∷ gone_on ∷ []

abbrev reordered : List ScopedPolicy
reordered = prod_off ∷ all_on ∷ app_on ∷ gone_on ∷ []

reordered-perm : Permᴰ policies reordered
reordered-perm = Permᴰ.swap refl refl

abbrev as_stored : MapOrder
as_stored = record {
  servers = λ g. g;
  capabilities = λ m. m;
  servers_perm = λ g. Permᴰ.refl g;
  capabilities_perm = λ m. Permᴰ.refl m;
}

abbrev render : Reason → String
render (disagreement s p) = "disagreement"
render (dead_row p d) = "dead row"

graph-IsMap : IsMap graph
unfolding get
graph-IsMap = (refl, (refl, tt))

abbrev no_name : String
no_name = ""

graph-HasNames : HasNames graph
graph-HasNames s =
    All-mem (λ (t : String × Entity). t.1.current_database ≢ no_name) graph
      ((λ h. cc), ((λ h. cc), tt))

abbrev wanted : DesiredRow
wanted = record { server_id = "s1"; database_name = ""; capability = "settings"; enabled = false }

abbrev warning : Conflict
warning = record { capability = "settings"; server_id = ""; reason = "dead row" }

flatten-rows_example :
    Memᴰ wanted (flatten render as_stored policies graph).0 ↔ IsDesired policies graph wanted
flatten-rows_example = flatten-rows render as_stored policies graph wanted

flatten-conflicts_example :
    Memᴰ warning (flatten render as_stored policies graph).1
    ↔ IsRaised render policies graph warning
flatten-conflicts_example = flatten-conflicts render as_stored policies graph warning

flatten_deterministic_example :
    (flatten render as_stored policies graph).0 ≡ (flatten render as_stored reordered graph).0
flatten_deterministic_example =
    flatten_deterministic render as_stored as_stored policies reordered graph reordered-perm
      graph-IsMap graph-HasNames
