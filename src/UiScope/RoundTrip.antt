-- ===== src/UiScope/RoundTrip.antt =====
-- internal/scope/scope.go: what is encoded is parsed back.
use lynceus.Prelude.{Bool, not, some, all, eqb, bytes_eq}
use lynceus.Audit.Canonical.{Bytes}
use lynceus.UiScope.{
  cluster, node, pooler, database, Scope, fleet_scope, cluster_scope, node_scope, pooler_scope,
  database_scope,
}

-- No colon in a text.
abbrev pub has_no_colon : Bytes → Bool
has_no_colon s = all (λ b. not (eqb b b':')) s

-- The fields that a scope of its kind has.
abbrev pub relevant : Scope → Scope
relevant s = elim s.kind [
  | cluster ↦ cluster_scope s.cluster_id
  | node ↦ node_scope (some (s.cluster_id, s.node_id))
  | pooler ↦ pooler_scope s.pooler_id
  | database ↦ database_scope (some (s.cluster_id, s.database))
  | _ ↦ fleet_scope
]
