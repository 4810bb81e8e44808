-- ===== src/Policy/Tests.antt =====
-- internal/store/capability_policy.go, internal/collector/policy_refresh.go: a stored table, and
-- what the gate makes of it.
use mathlib.Core.List.Memᴰ
use mathlib.Core.List.Permᴰ
use lynceus.Prelude.{
  String, Bool, All-mem, true, false, ◌&&◌, ◌≡◌, ◌≢◌, refl, Option, none, some, List, [], ◌∷◌, Memᴰ,
  string_eq,
}
use lynceus.Prelude.Distinct.{Distinct, Distinct-same}
use lynceus.Caps.{pg_stat_statements, query_text_t2}
use lynceus.Caps.Gate
use lynceus.Policy
use lynceus.Policy.{PolicyRow, IsTable, effective_capability}
use lynceus.Policy.Snapshot.{enabled_of, refresh_policy}
use lynceus.Policy.Resolve.{table_reader, refresh, gate_allowed, gate_allowed_strict}

abbrev row : Option String → String → Bool → PolicyRow
row db cap on = record {
  server_id = "srv";
  database_name = db;
  capability = cap;
  enabled = on;
  set_by = "operator";
  set_at = 7;
  reason = "review";
  audit_chain_id = 1;
}

-- Statistics are off by default, on in one database; raw query text is on.
abbrev stored : List PolicyRow
stored =
    row none pg_stat_statements false
    ∷ row (some "app") pg_stat_statements true
    ∷ row none query_text_t2 true
    ∷ []

abbrev row_key : PolicyRow → String × String × Option String
row_key r = (r.server_id, r.capability, r.database_name)

abbrev unnamed : Option String
unnamed = some ""

abbrev default_off : PolicyRow
default_off = row none pg_stat_statements false

abbrev override_on : PolicyRow
override_on = row (some "app") pg_stat_statements true

abbrev raw_on : PolicyRow
raw_on = row none query_text_t2 true

stored_named : (a : PolicyRow) → Memᴰ a stored → a.database_name ≢ unnamed
stored_named a =
    All-mem (λ (r : PolicyRow). r.database_name ≢ unnamed) stored
      ((λ h. cc), ((λ h. cc), ((λ h. cc), tt)))

stored-Distinct : Distinct row_key stored
stored-Distinct = (
  λ b m q.
      All-mem (λ r. row_key default_off ≢ row_key r) (override_on ∷ raw_on ∷ [])
        ((λ h. cc), ((λ h. cc), tt)) m q,
  (
    λ b m q. All-mem (λ r. row_key override_on ≢ row_key r) (raw_on ∷ []) ((λ h. cc), tt) m q,
    ((λ b m q. Memᴰ.not-nil m), tt),
  ),
)

stored-IsTable : IsTable stored
stored-IsTable = record {
  unique = λ a b m n s d c. Distinct-same row_key stored stored-Distinct m n (λ i. (s i, c i, d i));
  named = stored_named;
}

abbrev same_order : List PolicyRow → List PolicyRow
same_order rows = rows

abbrev no_text : String
no_text = ""

abbrev app_text : String
app_text = "app"

abbrev url_text : String
url_text = "http://api"

app_named : app_text ≢ no_text
app_named h = cc

url_named : url_text ≢ no_text
url_named h = cc

statements_ordinary : pg_stat_statements ≢ query_text_t2
statements_ordinary h = cc

abbrev switch_on : String → Bool × Bool
switch_on s = (true, true)

gate_allowed_example :
    Gate.allowed
      (refresh_policy "http://api"
        (refresh (table_reader same_order stored switch_on) "srv" "app")
        Gate.new_gate)
      "app"
      pg_stat_statements
    ≡ Policy.allowed stored "srv" "app" pg_stat_statements
gate_allowed_example =
    gate_allowed same_order (λ rows. Permᴰ.refl rows) stored stored-IsTable switch_on "srv" "app"
      "http://api" app_named url_named Gate.new_gate pg_stat_statements statements_ordinary

gate_allowed_strict_example :
    Gate.allowed_strict
      (refresh_policy "http://api"
        (refresh (table_reader same_order stored switch_on) "srv" "app")
        Gate.new_gate)
      "app"
      query_text_t2
    ≡ (switch_on "srv").0 && enabled_of (effective_capability stored "srv" "" query_text_t2)
gate_allowed_strict_example =
    gate_allowed_strict same_order (λ rows. Permᴰ.refl rows) stored stored-IsTable switch_on "srv"
      "app" "http://api" app_named url_named Gate.new_gate

-- The override of the database, and the default elsewhere.
override_wins : Policy.allowed stored "srv" "app" pg_stat_statements ≡ true
unfolding Policy.allowed
override_wins = refl

default_elsewhere : Policy.allowed stored "srv" "other" pg_stat_statements ≡ false
unfolding Policy.allowed
default_elsewhere = refl
