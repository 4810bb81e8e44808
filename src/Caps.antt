-- ===== src/Caps.antt =====
-- internal/caps: the capability vocabulary, the discovery result and the collector's policy gate.
pub mod Gate
pub mod Discover
pub mod Laws
pub mod Tests
use lynceus.Prelude.{String, List, [], ◌∷◌, Bool, any, ◌==◌, string_eq}

-- The stable identifier of a capability: its wire and storage form.
abbrev pub Capability : Type 0
Capability = String

abbrev pub pg_stat_statements : Capability
pg_stat_statements = "pg_stat_statements"

abbrev pub query_text_t2 : Capability
query_text_t2 = "query_text_t2"

-- Every capability the package knows how to probe.
unfoldable pub declared : List Capability
declared =
    pg_stat_statements ∷ "auto_explain" ∷ "pg_buffercache" ∷ "pg_wait_sampling" ∷ "pgstattuple"
    ∷ "pg_stat_activity_full_read" ∷ "log_destination" ∷ "server_version" ∷ "role_permissions"
    ∷ "schema_inventory" ∷ "table_size" ∷ "freeze_age" ∷ "index_stats" ∷ "xmin_horizon" ∷ "settings"
    ∷ query_text_t2 ∷ []

-- internal/api: `isDeclaredCapability`.
unfoldable pub is_declared_capability : Capability → Bool
unfolding declared
is_declared_capability capability = any (λ c. c == capability) declared
