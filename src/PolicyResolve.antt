-- ===== src/PolicyResolve.antt =====
-- internal/policyresolve/flatten.go: four tiers of scoped policies flattened to stored rows.
-- A Go map is the list of its entries, and the order in which `range` visits them is an argument.
-- The texts that `fmt.Sprintf` makes of a reason are an argument, `render`.
pub mod Precedence
pub mod Group
pub mod Selected
pub mod Rows
pub mod Conflicts
pub mod Determinism
pub mod Tests
use lynceus.Prelude.{
  ℕ, String, Bool, true, false, not, ◌&&◌, ◌||◌, Option, none, some, List, [], ◌∷◌, ◌++◌, map, all,
  any, flat_map, ltb, eqb, Permᴰ, Eq, ◌==◌, string_eq, bool_eq, if◌then◌else◌,
}
use lynceus.Prelude.Int.{ℤ, ltz, eqz}
use lynceus.Prelude.Order.{list_order}
use lynceus.Prelude.Text.{string_order}
use lynceus.Prelude.Sort.{sort}
use lynceus.Prelude.Dict.{Dict, get, put}

pub data Scope : Type 0 where
  fleet group instance_tier database : Scope

abbrev pub tier_rank : Scope → ℕ
tier_rank database = 4
tier_rank instance_tier = 3
tier_rank group = 2
tier_rank fleet = 1

pub record CapabilityToggle : Type 0 where
  pub capability : String
  pub enabled : Bool

abbrev pub Labels : Type 0
Labels = Dict String String

pub record ScopedPolicy : Type 0 where
  pub name : String
  pub scope : Scope
  pub priority : ℤ
  pub selector : Labels
  pub database_name : String
  pub capabilities : List CapabilityToggle

pub record Entity : Type 0 where
  pub current_database : String
  pub labels : Labels

abbrev pub EntityGraph : Type 0
EntityGraph = Dict String Entity

pub record DesiredRow : Type 0 where
  pub server_id : String
  pub database_name : String
  pub capability : String
  pub enabled : Bool

pub data Reason : Type 0 where
  disagreement : Scope → ℤ → Reason
  dead_row : String → String → Reason

pub record Conflict : Type 0 where
  pub capability : String
  pub server_id : String
  pub reason : String

abbrev pub is_database : Scope → Bool
is_database database = true
is_database _ = false

-- A missing key reads as "".
abbrev pub label_of : Labels → String → String
label_of have k = elim (get k have) [ none ↦ "" | some v ↦ v ]

unfoldable pub labels_subset : Labels → Labels → Bool
labels_subset want have = all (λ kv. label_of have kv.0 == kv.1) want

unfoldable pub matches : ScopedPolicy → Entity → Bool
matches p e =
    if not (labels_subset p.selector e.labels)
    then false
    else if is_database p.scope
    then p.database_name == e.current_database
    else true

pub record Candidate : Type 0 where
  pub scope : Scope
  pub priority : ℤ
  pub enabled : Bool

-- The test of the first pass.
abbrev pub beats : Candidate → Candidate → Bool
beats c best =
    ltb (tier_rank best.scope) (tier_rank c.scope)
    || (eqb (tier_rank c.scope) (tier_rank best.scope) && ltz best.priority c.priority)

-- The test of the second pass.
abbrev pub disagrees : Candidate → Candidate → Bool
disagrees best c =
    eqb (tier_rank c.scope) (tier_rank best.scope)
    && (eqz c.priority best.priority && not (c.enabled == best.enabled))

unfoldable pub best_of : Candidate → List Candidate → Candidate
best_of best [] = best
best_of best (c ∷ cs) = best_of (if beats c best then c else best) cs

pub data Verdict : Type 0 where
  winner : Candidate → Verdict
  refused : Reason → Verdict

-- `cands` is never empty: its first element is given apart.
unfoldable pub resolve_precedence : Candidate → List Candidate → Verdict
unfolding best_of
resolve_precedence c cs =
    let best = best_of c cs in
    if any (disagrees best) (c ∷ cs)
    then refused (disagreement best.scope best.priority)
    else winner best

-- A slice in a map is appended to before it is stored: it is its first element and the rest.
abbrev pub Cands : Type 0
Cands = Candidate × List Candidate

unfoldable pub add_candidate : String → Candidate → Dict String Cands → Dict String Cands
add_candidate cap c m = elim (get cap m) [
  | none ↦ put cap (c, []) m
  | some (d, ds) ↦ put cap (d, ds ++ c ∷ []) m
]

unfoldable pub add_toggles :
    Scope → ℤ → List CapabilityToggle → Dict String Cands → Dict String Cands
unfolding add_candidate
add_toggles s pr [] m = m
add_toggles s pr (t ∷ ts) m =
    add_toggles s pr ts
      (add_candidate t.capability (record { scope = s; priority = pr; enabled = t.enabled }) m)

-- The two maps of one server: the broad tiers', and the database tier's.
unfoldable pub split_tiers :
    List ScopedPolicy
    → Entity
    → Dict String Cands × Dict String Cands
    → Dict String Cands × Dict String Cands
unfolding add_toggles
split_tiers [] e m = m
split_tiers (p ∷ ps) e m = split_tiers ps e (
    if not (matches p e)
    then m
    else if is_database p.scope
    then (m.0, add_toggles p.scope p.priority p.capabilities m.1)
    else (add_toggles p.scope p.priority p.capabilities m.0, m.1))

abbrev pub row_of : String → String → String × Cands → List DesiredRow
row_of sid db (capability, (c, cs)) = elim (resolve_precedence c cs) [
  | winner w ↦
      record { server_id = sid; database_name = db; capability = capability; enabled = w.enabled }
      ∷ []
  | refused r ↦ []
]

abbrev pub conflict_of : (Reason → String) → String → String × Cands → List Conflict
conflict_of render sid (capability, (c, cs)) = elim (resolve_precedence c cs) [
  | winner w ↦ []
  | refused r ↦ record { capability = capability; server_id = sid; reason = render r } ∷ []
]

-- The order of `range` over the graph, and over a map of candidates.
pub record MapOrder : Type 0 where
  pub servers : EntityGraph → EntityGraph
  pub capabilities : Dict String Cands → Dict String Cands
  pub servers_perm : (g : EntityGraph) → Permᴰ (servers g) g
  pub capabilities_perm : (m : Dict String Cands) → Permᴰ (capabilities m) m

unfoldable pub server_rows : MapOrder → List ScopedPolicy → String × Entity → List DesiredRow
server_rows o ps (sid, e) =
    let m = split_tiers ps e ([], []) in
    flat_map (row_of sid "") (o.capabilities m.0)
    ++ flat_map (row_of sid e.current_database) (o.capabilities m.1)

unfoldable pub server_conflicts :
    (Reason → String) → MapOrder → List ScopedPolicy → String × Entity → List Conflict
server_conflicts render o ps (sid, e) =
    let m = split_tiers ps e ([], []) in
    flat_map (conflict_of render sid) (o.capabilities m.0)
    ++ flat_map (conflict_of render sid) (o.capabilities m.1)

abbrev pub serves : ScopedPolicy → String × Entity → Bool
serves p (sid, e) = labels_subset p.selector e.labels && (p.database_name == e.current_database)

unfoldable pub dead_row_conflicts :
    (Reason → String) → List ScopedPolicy → EntityGraph → List Conflict
dead_row_conflicts render ps graph =
    flat_map
      (λ p.
        if not (is_database p.scope)
        then []
        else if any (serves p) graph
        then []
        else map
            (λ t. record {
              capability = t.capability;
              server_id = "";
              reason = render (dead_row p.name p.database_name);
            })
            p.capabilities)
      ps

abbrev pub row_key : DesiredRow → List String
row_key r = r.server_id ∷ r.database_name ∷ r.capability ∷ []

abbrev pub conflict_key : Conflict → List String
conflict_key c = c.server_id ∷ c.capability ∷ c.reason ∷ []

unfoldable pub flatten :
    (Reason → String) → MapOrder → List ScopedPolicy → EntityGraph → List DesiredRow × List Conflict
flatten render o ps graph = (
  sort row_key (flat_map (server_rows o ps) (o.servers graph)),
  sort conflict_key (
      dead_row_conflicts render ps graph
      ++ flat_map (server_conflicts render o ps) (o.servers graph)),
)
