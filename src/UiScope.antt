-- ===== src/UiScope.antt =====
-- internal/scope/scope.go: the scope of the UI shell as a query parameter. Text is its bytes.
pub mod RoundTrip
pub mod Tests
use lynceus.Prelude.{
  ℕ, Bool, true, false, Option, none, some, List, [], ◌∷◌, ◌++◌, eqb, bytes_eq, ◌==◌, if◌then◌else◌,
}
use lynceus.Audit.Canonical.{Bytes}

-- The zero value of a kind is `unset`.
pub data Kind : Type 0 where
  unset fleet cluster node pooler database : Kind

pub record Scope : Type 0 where
  pub kind : Kind
  pub cluster_id : Bytes
  pub node_id : Bytes
  pub pooler_id : Bytes
  pub database : Bytes

abbrev pub cluster_key : Bytes
cluster_key = b'c' ∷ b'l' ∷ b'u' ∷ b's' ∷ b't' ∷ b'e' ∷ b'r' ∷ []

abbrev pub node_key : Bytes
node_key = b'n' ∷ b'o' ∷ b'd' ∷ b'e' ∷ []

abbrev pub pooler_key : Bytes
pooler_key = b'p' ∷ b'o' ∷ b'o' ∷ b'l' ∷ b'e' ∷ b'r' ∷ []

abbrev pub db_key : Bytes
db_key = b'd' ∷ b'b' ∷ []

unfoldable pub is_fleet : Scope → Bool
is_fleet s = elim s.kind [ unset ↦ true | fleet ↦ true | _ ↦ false ]

unfoldable pub encode : Scope → Bytes
encode s = elim s.kind [
  | cluster ↦ cluster_key ++ b':' ∷ s.cluster_id
  | node ↦ node_key ++ b':' ∷ s.cluster_id ++ b':' ∷ s.node_id
  | pooler ↦ pooler_key ++ b':' ∷ s.pooler_id
  | database ↦ db_key ++ b':' ∷ s.cluster_id ++ b':' ∷ s.database
  | _ ↦ []
]

-- `strings.Cut(s, ":")`
unfoldable pub cut : Bytes → Option (Bytes × Bytes)
cut [] = none
cut (b ∷ bs) =
    let rest = cut bs in
    if eqb b b':' then some ([], bs) else elim rest [ none ↦ none | some p ↦ some (b ∷ p.0, p.1) ]

abbrev pub fleet_scope : Scope
fleet_scope = record { kind = fleet; cluster_id = []; node_id = []; pooler_id = []; database = [] }

abbrev pub cluster_scope : Bytes → Scope
cluster_scope c = record {
  kind = cluster;
  cluster_id = c;
  node_id = [];
  pooler_id = [];
  database = [];
}

abbrev pub node_scope : Option (Bytes × Bytes) → Scope
node_scope none = fleet_scope
node_scope (some (c, n)) = record {
  kind = node;
  cluster_id = c;
  node_id = n;
  pooler_id = [];
  database = [];
}

abbrev pub pooler_scope : Bytes → Scope
pooler_scope p = record {
  kind = pooler;
  cluster_id = [];
  node_id = [];
  pooler_id = p;
  database = [];
}

abbrev pub database_scope : Option (Bytes × Bytes) → Scope
database_scope none = fleet_scope
database_scope (some (c, d)) = record {
  kind = database;
  cluster_id = c;
  node_id = [];
  pooler_id = [];
  database = d;
}

abbrev pub parse_key : Option (Bytes × Bytes) → Scope
parse_key none = fleet_scope
parse_key (some (key, val)) =
    if key == cluster_key
    then cluster_scope val
    else if key == node_key
    then node_scope (cut val)
    else if key == pooler_key
    then pooler_scope val
    else if key == db_key
    then database_scope (cut val)
    else fleet_scope

-- The test for the empty text is that of `cut`.
unfoldable pub parse : Bytes → Scope
unfolding cut
parse [] = fleet_scope
parse (b ∷ bs) = parse_key (cut (b ∷ bs))
