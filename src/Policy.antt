-- ===== src/Policy.antt =====
-- internal/store/capability_policy.go, internal/store/t2_read.go (`ServerT2Enabled`): the stored
-- capability policy and its readers. A table is the list of its rows; the database's own order of
-- rows, and what ORDER BY leaves open, is an argument.
pub mod Snapshot
pub mod Resolve
pub mod Tests
use lynceus.Prelude.{
  ℕ, String, Bool, true, false, not, ◌&&◌, ◌||◌, ◌≡◌, ◌≢◌, Option, none, some, List, [], ◌∷◌, ◌++◌,
  map, filter, find, Memᴰ, Eq, ◌==◌, string_eq, if◌then◌else◌,
}

-- `database_name` is NULL (`none`) for the server-wide default.
pub record PolicyRow : Type 0 where
  pub server_id : String
  pub database_name : Option String
  pub capability : String
  pub enabled : Bool
  pub set_by : String
  pub set_at : ℕ
  pub reason : String
  pub audit_chain_id : ℕ

-- What the code returns: NULL is scanned as "".
pub record CapabilityPolicy : Type 0 where
  pub server_id : String
  pub database_name : String
  pub capability : String
  pub enabled : Bool
  pub set_by : String
  pub set_at : ℕ
  pub reason : String
  pub audit_chain_id : ℕ

abbrev pub or_empty : Option String → String
or_empty none = ""
or_empty (some s) = s

abbrev pub is_some {ℓ} : {A : Type ℓ} → Option A → Bool
is_some none = false
is_some (some a) = true

unfoldable pub scan_row : PolicyRow → CapabilityPolicy
scan_row r = record {
  server_id = r.server_id;
  database_name = or_empty r.database_name;
  capability = r.capability;
  enabled = r.enabled;
  set_by = r.set_by;
  set_at = r.set_at;
  reason = r.reason;
  audit_chain_id = r.audit_chain_id;
}

-- SQL equality with a parameter: never true of NULL.
abbrev pub sql_eq : Option String → String → Bool
sql_eq none s = false
sql_eq (some t) s = t == s

abbrev pub is_null : Option String → Bool
is_null none = true
is_null (some t) = false

unfoldable pub get_capability_policy :
    List PolicyRow → String → String → String → Option CapabilityPolicy
unfolding scan_row
get_capability_policy rows server db cap =
    let wanted : Option String → Bool = λ d. if db == "" then is_null d else sql_eq d db in
    elim (find (λ r. (r.server_id == server) && (wanted r.database_name && (r.capability == cap)))
      rows) [ none ↦ none | some r ↦ some (scan_row r) ]

pub data PolicySource : Type 0 where
  server_default database_override : PolicySource

abbrev pub source_of : PolicyRow → PolicySource
source_of r = if is_some r.database_name then database_override else server_default

-- The WHERE clause of `EffectiveCapability`.
abbrev pub is_candidate : String → String → String → PolicyRow → Bool
is_candidate server db cap r =
    (r.server_id == server)
    && ((r.capability == cap) && (sql_eq r.database_name db || is_null r.database_name))

-- ORDER BY (database_name IS NOT NULL) DESC LIMIT 1: an override if there is one.
unfoldable pub effective_row : List PolicyRow → String → String → String → Option PolicyRow
effective_row rows server db cap =
    elim (find (λ r. is_candidate server db cap r && is_some r.database_name) rows) [
      | none ↦ find (is_candidate server db cap) rows
      | some r ↦ some r
    ]

-- (enabled, source), or `none` where no row exists.
unfoldable pub effective_capability :
    List PolicyRow → String → String → String → Option (Bool × PolicySource)
unfolding effective_row
effective_capability rows server db cap = elim (effective_row rows server db cap) [
  | none ↦ none
  | some r ↦ some (r.enabled, source_of r)
]

-- internal/caps/policy.go: absent policy is enabled.
unfoldable pub allowed : List PolicyRow → String → String → String → Bool
unfolding effective_capability
allowed rows server db cap = elim (effective_capability rows server db cap) [
  | none ↦ true
  | some p ↦ p.0
]

-- `order_by` is the server's ORDER BY.
unfoldable pub list_capability_policies :
    (List PolicyRow → List PolicyRow) → List PolicyRow → String → List CapabilityPolicy
unfolding scan_row
list_capability_policies order_by rows server =
    map scan_row (order_by (filter (λ r. r.server_id == server) rows))

-- The constraint UNIQUE NULLS NOT DISTINCT (server_id, database_name, capability).
pub record IsTable (rows : List PolicyRow) : Type 0 where
  pub unique :
      (a b : PolicyRow)
      → Memᴰ a rows
      → Memᴰ b rows
      → a.server_id ≡ b.server_id
      → a.database_name ≡ b.database_name
      → a.capability ≡ b.capability
      → a ≡ b
  -- The writers store "" as NULL.
  pub named : (a : PolicyRow) → Memᴰ a rows → a.database_name ≢ some ""
