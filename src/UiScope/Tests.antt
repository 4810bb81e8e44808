-- ===== src/UiScope/Tests.antt =====
-- internal/scope/scope.go: a database of a cluster.
use lynceus.Prelude.{[], ◌∷◌}
use lynceus.UiScope.{Scope, database}

abbrev scope : Scope
scope = record {
  kind = database;
  cluster_id = b'c' ∷ b'1' ∷ [];
  node_id = [];
  pooler_id = [];
  database = b'a' ∷ b':' ∷ b'b' ∷ [];
}
