-- ===== src/PolicyResolve/Rows.antt =====
-- internal/policyresolve/flatten.go (`Flatten`): which rows and which conflicts come out.
use mathlib.Core.List.Memᴰ
use lynceus.Prelude.{
  String, Bool, true, false, ◌≡◌, ◌↔◌, refl, sym, ◌∙◌, ap, subst, some, List, [], ◌∷◌, flat_map,
  flat_map-mem, mem-flat_map, Memᴰ, inl, inr, string_eq,
}
use lynceus.Prelude.Order.{list_order}
use lynceus.Prelude.Text.{string_order}
use lynceus.Prelude.Sort.{sort-perm, perm-mem, perm_sym}
use lynceus.Prelude.Dict.{mem-get, get-mem}
use lynceus.PolicyResolve.{
  ScopedPolicy, Entity, EntityGraph, DesiredRow, Reason, Candidate, Cands, Verdict, winner, refused,
  resolve_precedence, row_of, MapOrder, server_rows, row_key, flatten,
}
use lynceus.PolicyResolve.Precedence.{
  Outcome, agreed, split, resolve_precedence-Outcome, Outcome-unique, Outcome-same,
}
use lynceus.PolicyResolve.Selected.{IsCandidate, candidates_iff}
use lynceus.PolicyResolve.Group.{candidates_for, non_empty, tier_map, get-tier_map, tier_map-IsMap}

-- The database name that a tier's rows are stored under.
abbrev pub stored_name : Bool → Entity → String
stored_name false e = ""
stored_name true e = e.current_database

-- A list that has exactly the candidates of the capability for the server, of a kind of tier.
abbrev pub AreCandidates : Bool → List ScopedPolicy → Entity → String → List Candidate → Type 0
AreCandidates tier ps e cap cands = (c : Candidate) → Memᴰ c cands ↔ IsCandidate tier ps e cap c

-- A row that the policies ask for: its server is in the graph, and the candidates of its kind of
-- tier for its capability agree on its value.
pub data IsDesired (ps : List ScopedPolicy) (graph : EntityGraph) (row : DesiredRow) : Type 0 where
  desired :
      (tier : Bool) (e : Entity)
      → Memᴰ (row.server_id, e) graph
      → row.database_name ≡ stored_name tier e
      → (cands : List Candidate) → AreCandidates tier ps e row.capability cands
      → (w : Candidate) → Outcome cands (winner w)
      → row.enabled ≡ w.enabled
      → IsDesired ps graph row

-- The outcome of any such list is that of the code's.
pub Outcome-listed :
    (tier : Bool) (ps : List ScopedPolicy) (e : Entity) (cap : String) (cands : List Candidate)
    {v : Verdict}
    → AreCandidates tier ps e cap cands
    → Outcome cands v
    → Outcome (candidates_for tier ps e cap) v
Outcome-listed tier ps e cap cands h o =
    Outcome-same
      (λ x. (
        λ m. (candidates_iff tier ps e cap x).1 ((h x).0 m),
        λ m. (h x).1 ((candidates_iff tier ps e cap x).0 m),
      ))
      o

non_empty_injective :
    (xs : List Candidate) (c : Candidate) (cs : List Candidate)
    → non_empty xs ≡ some (c, cs)
    → xs ≡ c ∷ cs
non_empty_injective [] c cs h = cc
non_empty_injective (x ∷ xs) c cs h = cc

-- An entry of a server's map is a capability with its candidates.
pub entry_candidates :
    (o : MapOrder) (tier : Bool) (ps : List ScopedPolicy) (e : Entity) (k : String) (v : Cands)
    → Memᴰ (k, v) (o.capabilities (tier_map tier ps e))
    → candidates_for tier ps e k ≡ v.0 ∷ v.1
entry_candidates o tier ps e k v m = non_empty_injective (candidates_for tier ps e k) v.0 v.1 (
    sym (get-tier_map tier ps e k)
    ∙ mem-get (tier_map tier ps e) (tier_map-IsMap tier ps e)
        (perm-mem (o.capabilities_perm (tier_map tier ps e)) m))

pub candidates_entry :
    (o : MapOrder) (tier : Bool) (ps : List ScopedPolicy) (e : Entity) (k : String) (c : Candidate)
    (cs : List Candidate)
    → candidates_for tier ps e k ≡ c ∷ cs
    → Memᴰ (k, (c, cs)) (o.capabilities (tier_map tier ps e))
candidates_entry o tier ps e k c cs h =
    perm-mem (perm_sym (o.capabilities_perm (tier_map tier ps e)))
      (get-mem k (tier_map tier ps e) (get-tier_map tier ps e k ∙ ap non_empty h))

-- The rows of one tier of a server.
tier_rows : MapOrder → List ScopedPolicy → String → Entity → Bool → List DesiredRow
tier_rows o ps sid e tier =
    flat_map (row_of sid (stored_name tier e)) (o.capabilities (tier_map tier ps e))

row_of-IsDesired :
    (ps : List ScopedPolicy) (graph : EntityGraph) (tier : Bool) (sid : String) (e : Entity)
    (k : String) (v : Cands) (row : DesiredRow)
    → Memᴰ (sid, e) graph
    → candidates_for tier ps e k ≡ v.0 ∷ v.1
    → Memᴰ row (row_of sid (stored_name tier e) (k, v))
    → IsDesired ps graph row
row_of-IsDesired ps graph tier sid e k v row m h r =
    go (resolve_precedence v.0 v.1) (resolve_precedence-Outcome v.0 v.1) r
  where
    go :
        (u : Verdict)
        → Outcome (v.0 ∷ v.1) u
        → Memᴰ row (elim u [
          | winner w ↦
              record {
                server_id = sid;
                database_name = stored_name tier e;
                capability = k;
                enabled = w.enabled;
              }
              ∷ []
          | refused x ↦ []
        ])
        → IsDesired ps graph row
    go (refused x) o q = absurd (Memᴰ.not-nil q)
    go (winner w) o q =
        let p = Memᴰ.eq_of_singleton q in
        desired tier e
          (subst (λ s. Memᴰ (s, e) graph) (sym (ap (λ (r : DesiredRow). r.server_id) p)) m)
          (ap (λ (r : DesiredRow). r.database_name) p) (candidates_for tier ps e row.capability)
          (candidates_iff tier ps e row.capability) w
          (subst (λ c. Outcome (candidates_for tier ps e c) (winner w))
            (sym (ap (λ (r : DesiredRow). r.capability) p))
            (subst (λ xs. Outcome xs (winner w)) (sym h) o))
          (ap (λ (r : DesiredRow). r.enabled) p)

pub Outcome-cons :
    (xs : List Candidate) {v : Verdict}
    → Outcome xs v
    → (c : Candidate) × (cs : List Candidate) × (xs ≡ c ∷ cs)
Outcome-cons [] (agreed w m t h e) = absurd (Memᴰ.not-nil m)
Outcome-cons [] (split w x m t mx l n e) = absurd (Memᴰ.not-nil m)
Outcome-cons (c ∷ cs) o = (c, cs, refl)

-- The loops give any described outcome.
pub resolve_precedence_of :
    (xs : List Candidate) (c : Candidate) (cs : List Candidate) {v : Verdict}
    → xs ≡ c ∷ cs
    → Outcome xs v
    → resolve_precedence c cs ≡ v
resolve_precedence_of xs c cs {v = v} h o =
    Outcome-unique (λ x. (λ m. m, λ m. m)) (resolve_precedence-Outcome c cs)
      (subst (λ ys. Outcome ys v) h o)

IsDesired-tier_rows :
    (o : MapOrder) (ps : List ScopedPolicy) (tier : Bool) (e : Entity) (w : Candidate)
    (row : DesiredRow)
    → row.database_name ≡ stored_name tier e
    → Outcome (candidates_for tier ps e row.capability) (winner w)
    → row.enabled ≡ w.enabled
    → Memᴰ row (tier_rows o ps row.server_id e tier)
unfolding tier_rows
IsDesired-tier_rows o ps tier e w row d out en =
    let (c, cs, h) = Outcome-cons _ out in
    flat_map-mem (row_of row.server_id (stored_name tier e))
      (candidates_entry o tier ps e row.capability c cs h)
      (rw (resolve_precedence_of _ c cs h out, row_of)
        (Memᴰ.head (λ i. record {
          server_id = row.server_id;
          database_name = d i;
          capability = row.capability;
          enabled = en i;
        })))

tier_rows-IsDesired :
    (o : MapOrder) (ps : List ScopedPolicy) (graph : EntityGraph) (tier : Bool) (sid : String)
    (e : Entity) (row : DesiredRow)
    → Memᴰ (sid, e) graph
    → Memᴰ row (tier_rows o ps sid e tier)
    → IsDesired ps graph row
unfolding tier_rows
tier_rows-IsDesired o ps graph tier sid e row m h =
    let ((k, v), he, hr) =
      mem-flat_map (row_of sid (stored_name tier e)) (o.capabilities (tier_map tier ps e)) h in
    row_of-IsDesired ps graph tier sid e k v row m (entry_candidates o tier ps e k v he) hr

-- The rows that come out are exactly the desired ones: for a server of the graph, its database or, for
-- policies of the other tiers, none, and a capability, those whose value the strongest candidates
-- agree on. The candidates are the toggles of the policies whose labels the server has, which for a
-- database policy are those of its database; a narrower tier is stronger, then a higher priority.
pub flatten-rows :
    (render : Reason → String) (o : MapOrder) (ps : List ScopedPolicy) (graph : EntityGraph)
    (row : DesiredRow)
    → Memᴰ row (flatten render o ps graph).0 ↔ IsDesired ps graph row
unfolding flatten server_rows tier_rows
flatten-rows render o ps graph row = (sound, complete)
  where
    sound : Memᴰ row (flatten render o ps graph).0 → IsDesired ps graph row
    sound m =
        let ((sid, e), hs, hr) =
          mem-flat_map (server_rows o ps) (o.servers graph) (perm-mem (sort-perm row_key _) m) in
        let hg = perm-mem (o.servers_perm graph) hs in
        elim (Memᴰ.append_cases (tier_rows o ps sid e false) hr) [
          | inl h ↦ tier_rows-IsDesired o ps graph false sid e row hg h
          | inr h ↦ tier_rows-IsDesired o ps graph true sid e row hg h
        ]

    complete : IsDesired ps graph row → Memᴰ row (flatten render o ps graph).0
    complete (desired tier e m d cands l w listed en) =
        let out = Outcome-listed tier ps e row.capability cands l listed in
        perm-mem (perm_sym (sort-perm row_key _)) (
          flat_map-mem (server_rows o ps) (perm-mem (perm_sym (o.servers_perm graph)) m)
            (side tier (IsDesired-tier_rows o ps tier e w row d out en)))
      where
        side :
            (tier : Bool)
            → Memᴰ row (tier_rows o ps row.server_id e tier)
            → Memᴰ row (server_rows o ps (row.server_id, e))
        side false h = Memᴰ.append_left (tier_rows o ps row.server_id e true) h
        side true h = Memᴰ.append_right (tier_rows o ps row.server_id e false) h
