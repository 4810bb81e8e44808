-- ===== src/PolicyResolve/Determinism.antt =====
-- internal/policyresolve/flatten.go (`Flatten`): the rows are a function of the policies as a set
-- and of the graph as a map.
use mathlib.Core.List.Memᴰ
use lynceus.Prelude.{
  String, Bool, true, false, inl, inr, ◌≡◌, ◌≢◌, sym, ◌∙◌, ap, List, [], ◌∷◌, flat_map,
  mem-flat_map, Memᴰ, Permᴰ, string_eq, bool_eq,
}
use lynceus.Prelude.Order.{list_order}
use lynceus.Prelude.Text.{string_order}
use lynceus.Prelude.Sort.{sort-perm, sort-IsSorted, IsSorted, perm-mem, perm_sym}
use lynceus.Prelude.Dict.{IsMap}
use lynceus.Prelude.Distinct.{
  Distinct, Distinct-append, Distinct-perm, Distinct-flat_map, IsMap-Distinct, IsSorted-unique,
}
use lynceus.PolicyResolve.{
  ScopedPolicy, Entity, EntityGraph, DesiredRow, Reason, Candidate, Cands, Verdict, winner, refused,
  resolve_precedence, row_of, MapOrder, server_rows, row_key, flatten,
}
use lynceus.PolicyResolve.Group.{tier_map, tier_map-IsMap}
use lynceus.PolicyResolve.Selected.{IsCandidate}
use lynceus.PolicyResolve.Rows.{IsDesired, desired, flatten-rows}

-- A row of a map entry bears its server, its database name and its capability.
row_of-fields :
    (sid db : String) (kv : String × Cands) (row : DesiredRow)
    → Memᴰ row (row_of sid db kv)
    → (row.server_id ≡ sid) × (row.database_name ≡ db) × (row.capability ≡ kv.0)
row_of-fields sid db (k, (c, cs)) row m = go (resolve_precedence c cs) m
  where
    go :
        (u : Verdict)
        → Memᴰ row (elim u [
          | winner w ↦
              record { server_id = sid; database_name = db; capability = k; enabled = w.enabled }
              ∷ []
          | refused x ↦ []
        ])
        → (row.server_id ≡ sid) × (row.database_name ≡ db) × (row.capability ≡ k)
    go (refused x) q = absurd (Memᴰ.not-nil q)
    go (winner w) q =
        let p = Memᴰ.eq_of_singleton q in
        (
          ap (λ (r : DesiredRow). r.server_id) p,
          ap (λ (r : DesiredRow). r.database_name) p,
          ap (λ (r : DesiredRow). r.capability) p,
        )

row_of-Distinct : (sid db : String) (kv : String × Cands) → Distinct row_key (row_of sid db kv)
row_of-Distinct sid db (k, (c, cs)) =
    elim (resolve_precedence c cs)
      as (λ u. Distinct row_key (elim u [
        | winner w ↦
            record { server_id = sid; database_name = db; capability = k; enabled = w.enabled } ∷ []
        | refused x ↦ []
      ])) [ winner w ↦ ((λ b m q. Memᴰ.not-nil m), tt) | refused x ↦ tt ]

key_parts :
    (a b : DesiredRow)
    → row_key a ≡ row_key b
    → (a.server_id ≡ b.server_id)
      × (a.database_name ≡ b.database_name)
      × (a.capability ≡ b.capability)
key_parts a b h = (cc, cc, cc)

tier_rows-Distinct :
    (o : MapOrder) (ps : List ScopedPolicy) (sid db : String) (e : Entity) (tier : Bool)
    → Distinct row_key (flat_map (row_of sid db) (o.capabilities (tier_map tier ps e)))
tier_rows-Distinct o ps sid db e tier =
    Distinct-flat_map (λ kv. kv.0) row_key (row_of sid db) (o.capabilities (tier_map tier ps e))
      (Distinct-perm (λ kv. kv.0) (perm_sym (o.capabilities_perm (tier_map tier ps e)))
        (IsMap-Distinct (tier_map tier ps e) (tier_map-IsMap tier ps e)))
      (λ kv m. row_of-Distinct sid db kv)
      (λ kv ju ne b mb c mc q. ne (
        sym (row_of-fields sid db kv b mb).2
        ∙ (key_parts b c q).2
        ∙ (row_of-fields sid db ju c mc).2))

tier_rows-fields :
    (o : MapOrder) (ps : List ScopedPolicy) (sid db : String) (e : Entity) (tier : Bool)
    (row : DesiredRow)
    → Memᴰ row (flat_map (row_of sid db) (o.capabilities (tier_map tier ps e)))
    → (row.server_id ≡ sid) × (row.database_name ≡ db)
tier_rows-fields o ps sid db e tier row m =
    let (kv, hk, hr) = mem-flat_map (row_of sid db) (o.capabilities (tier_map tier ps e)) m in
    let f = row_of-fields sid db kv row hr in (f.0, f.1)

abbrev pub HasNames : EntityGraph → Type 0
HasNames graph = (s : String × Entity) → Memᴰ s graph → s.1.current_database ≢ ""

server_rows-Distinct :
    (o : MapOrder) (ps : List ScopedPolicy) (s : String × Entity)
    → s.1.current_database ≢ ""
    → Distinct row_key (server_rows o ps s)
unfolding server_rows
server_rows-Distinct o ps (sid, e) n =
    Distinct-append row_key _ _ (tier_rows-Distinct o ps sid "" e false)
      (tier_rows-Distinct o ps sid e.current_database e true)
      (λ a ma b mb q. n (
        sym (tier_rows-fields o ps sid e.current_database e true b mb).1
        ∙ sym (key_parts a b q).1
        ∙ (tier_rows-fields o ps sid "" e false a ma).1))

server_rows-server :
    (o : MapOrder) (ps : List ScopedPolicy) (s : String × Entity) (row : DesiredRow)
    → Memᴰ row (server_rows o ps s)
    → row.server_id ≡ s.0
unfolding server_rows
server_rows-server o ps (sid, e) row m =
    elim (Memᴰ.append_cases (flat_map (row_of sid "") (o.capabilities (tier_map false ps e))) m) [
      | inl h ↦ (tier_rows-fields o ps sid "" e false row h).0
      | inr h ↦ (tier_rows-fields o ps sid e.current_database e true row h).0
    ]

-- Where the graph has each server once, and no server's database has the empty name, no two rows
-- share server, database and capability: the key of the stored table.
flatten-Distinct :
    (render : Reason → String) (o : MapOrder) (ps : List ScopedPolicy) (graph : EntityGraph)
    → IsMap graph
    → HasNames graph
    → Distinct row_key (flatten render o ps graph).0
unfolding flatten
flatten-Distinct render o ps graph map names =
    Distinct-perm row_key (perm_sym (sort-perm row_key _)) (
      Distinct-flat_map (λ s. s.0) row_key (server_rows o ps) (o.servers graph)
        (Distinct-perm (λ s. s.0) (perm_sym (o.servers_perm graph)) (IsMap-Distinct graph map))
        (λ s m. server_rows-Distinct o ps s (names s (perm-mem (o.servers_perm graph) m)))
        (λ s t ne b mb c mc q. ne (
          sym (server_rows-server o ps s b mb)
          ∙ (key_parts b c q).0
          ∙ server_rows-server o ps t c mc)))

IsCandidate-perm :
    (tier : Bool) (ps qs : List ScopedPolicy) (e : Entity) (k : String) (c : Candidate)
    → Permᴰ ps qs
    → IsCandidate tier ps e k c
    → IsCandidate tier qs e k c
IsCandidate-perm tier ps qs e k c p (q, t, m, s, o, h, g, r) = (q, t, perm-mem p m, s, o, h, g, r)

IsDesired-perm :
    (ps qs : List ScopedPolicy) (graph : EntityGraph) (row : DesiredRow)
    → Permᴰ ps qs
    → IsDesired ps graph row
    → IsDesired qs graph row
IsDesired-perm ps qs graph row p (desired tier e m d cands l w out en) =
    desired tier e m d cands
      (λ c. (
        λ k. IsCandidate-perm tier ps qs e row.capability c p ((l c).0 k),
        λ k. (l c).1 (IsCandidate-perm tier qs ps e row.capability c (perm_sym p) k),
      ))
      w out en

flatten-IsSorted :
    (render : Reason → String) (o : MapOrder) (ps : List ScopedPolicy) (graph : EntityGraph)
    → IsSorted row_key (flatten render o ps graph).0
unfolding flatten
flatten-IsSorted render o ps graph = sort-IsSorted row_key _

-- Where the graph has each server once, and no server's database has the empty name, the same rows
-- come out in the same order, whatever the order of the policies and of the maps.
pub flatten_deterministic :
    (render : Reason → String) (o u : MapOrder) (ps qs : List ScopedPolicy) (graph : EntityGraph)
    → Permᴰ ps qs
    → IsMap graph
    → HasNames graph
    → (flatten render o ps graph).0 ≡ (flatten render u qs graph).0
flatten_deterministic render o u ps qs graph p map names =
    IsSorted-unique row_key _ _ (flatten-IsSorted render o ps graph)
      (flatten-IsSorted render u qs graph) (flatten-Distinct render o ps graph map names)
      (flatten-Distinct render u qs graph map names)
      (λ row.
        let f = flatten-rows render o ps graph row in
        let g = flatten-rows render u qs graph row in
        (
          λ m. g.1 (IsDesired-perm ps qs graph row p (f.0 m)),
          λ m. f.1 (IsDesired-perm qs ps graph row (perm_sym p) (g.0 m)),
        ))
