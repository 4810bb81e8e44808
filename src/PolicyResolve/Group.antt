-- ===== src/PolicyResolve/Group.antt =====
-- internal/policyresolve/flatten.go (`Flatten`, the loop over the policies): the map entry of a
-- capability is the list of the candidates addressed to it.
use lynceus.Prelude.{
  String, Bool, true, false, ◌&&◌, ◌≡◌, refl, sym, ◌∙◌, ap, Option, none, some, List, [], ◌∷◌, ◌++◌,
  append_assoc, append-nil, map, filter, flat_map, arith, eq_iff, ◌==◌, string_eq, bool_eq,
  if◌then◌else◌, Bool-cases, inl, inr,
}
use lynceus.Prelude.Int.{ℤ}
use lynceus.Prelude.Dict.{Dict, get, put, get-put, IsMap, put-IsMap}
use lynceus.PolicyResolve.{
  Scope, CapabilityToggle, ScopedPolicy, Entity, Candidate, Cands, is_database, matches,
  add_candidate, add_toggles, split_tiers,
}

abbrev pub candidate : Scope → ℤ → CapabilityToggle → Candidate
candidate s pr t = record { scope = s; priority = pr; enabled = t.enabled }

-- The candidates of one policy for a capability.
abbrev pub toggle_candidates : Scope → ℤ → String → List CapabilityToggle → List Candidate
toggle_candidates s pr cap ts = map (candidate s pr) (filter (λ t. t.capability == cap) ts)

-- The candidates of every policy that matches the server, of the database tier or of the others.
unfoldable pub candidates_for : Bool → List ScopedPolicy → Entity → String → List Candidate
candidates_for tier ps e cap =
    flat_map
      (λ p.
        if matches p e && (is_database p.scope == tier)
        then toggle_candidates p.scope p.priority cap p.capabilities
        else [])
      ps

abbrev pub non_empty : List Candidate → Option Cands
non_empty [] = none
non_empty (c ∷ cs) = some (c, cs)

abbrev append_to : Option Cands → List Candidate → Option Cands
append_to none cs = non_empty cs
append_to (some (d, ds)) cs = some (d, ds ++ cs)

append_to-nil : (o : Option Cands) → append_to o [] ≡ o
append_to-nil none = refl
append_to-nil (some (d, ds)) = rw append-nil

append_to-append :
    (o : Option Cands) (xs ys : List Candidate)
    → append_to (append_to o xs) ys ≡ append_to o (xs ++ ys)
append_to-append none [] ys = refl
append_to-append none (x ∷ xs) ys = refl
append_to-append (some (d, ds)) xs ys = rw append_assoc

get-add_candidate :
    (k cap : String) (c : Candidate) (m : Dict String Cands)
    → get k (add_candidate cap c m) ≡ append_to (get k m) (if cap == k then c ∷ [] else [])
unfolding add_candidate
get-add_candidate k cap c m = go (get cap m) refl
  where
    go :
        (o : Option Cands)
        → get cap m ≡ o
        → get k (elim o [ none ↦ put cap (c, []) m | some (d, ds) ↦ put cap (d, ds ++ c ∷ []) m ])
          ≡ append_to (get k m) (if cap == k then c ∷ [] else [])
    go none q = get-put cap k (c, []) m ∙ ground (arith, eq_iff cap k, append_to-nil (get k m))
    go (some (d, ds)) q =
        get-put cap k (d, ds ++ c ∷ []) m ∙ ground (arith, eq_iff cap k, append_to-nil (get k m))

add_candidate-IsMap :
    (cap : String) (c : Candidate) (m : Dict String Cands) → IsMap m → IsMap (add_candidate cap c m)
unfolding add_candidate
add_candidate-IsMap cap c m h =
    elim (get cap m)
      as (λ o.
        IsMap (elim o [ none ↦ put cap (c, []) m | some (d, ds) ↦ put cap (d, ds ++ c ∷ []) m ])) [
          | none ↦ put-IsMap cap (c, []) m h
          | some (d, ds) ↦ put-IsMap cap (d, ds ++ c ∷ []) m h
        ]

get-add_toggles :
    (s : Scope) (pr : ℤ) (k : String) (ts : List CapabilityToggle) (m : Dict String Cands)
    → get k (add_toggles s pr ts m) ≡ append_to (get k m) (toggle_candidates s pr k ts)
unfolding add_toggles
get-add_toggles s pr k [] m = sym (append_to-nil (get k m))
get-add_toggles s pr k (t ∷ ts) m =
    get-add_toggles s pr k ts (add_candidate t.capability (candidate s pr t) m)
    ∙ ap (λ o. append_to o (toggle_candidates s pr k ts))
        (get-add_candidate k t.capability (candidate s pr t) m)
    ∙ append_to-append (get k m) _ (toggle_candidates s pr k ts)
    ∙ elim (Bool-cases (t.capability == k)) [ inl e ↦ rw e | inr e ↦ rw e ]

add_toggles-IsMap :
    (s : Scope) (pr : ℤ) (ts : List CapabilityToggle) (m : Dict String Cands)
    → IsMap m
    → IsMap (add_toggles s pr ts m)
unfolding add_toggles
add_toggles-IsMap s pr [] m h = h
add_toggles-IsMap s pr (t ∷ ts) m h =
    add_toggles-IsMap s pr ts (add_candidate t.capability (candidate s pr t) m)
      (add_candidate-IsMap t.capability (candidate s pr t) m h)

abbrev Maps : Type 0
Maps = Dict String Cands × Dict String Cands

-- Both maps of a server, at every capability.
get-split_tiers :
    (k : String) (ps : List ScopedPolicy) (e : Entity) (m : Maps)
    → (get k (split_tiers ps e m).0 ≡ append_to (get k m.0) (candidates_for false ps e k))
      × (get k (split_tiers ps e m).1 ≡ append_to (get k m.1) (candidates_for true ps e k))
unfolding split_tiers candidates_for
get-split_tiers k [] e m = (sym (append_to-nil (get k m.0)), sym (append_to-nil (get k m.1)))
get-split_tiers k (p ∷ ps) e m = elim (Bool-cases (matches p e)) [
  | inr q ↦ rw (q, split_tiers, candidates_for) (get-split_tiers k ps e m)
  | inl q ↦
      rw (q, split_tiers, candidates_for)
        (elim (Bool-cases (is_database p.scope)) [
          | inl d ↦
              rw (d, split_tiers, candidates_for)
                (let r =
                    get-split_tiers k ps e
                      (m.0, add_toggles p.scope p.priority p.capabilities m.1) in
                  (
                    r.0,
                    r.1
                        ∙ ap (λ o. append_to o (candidates_for true ps e k))
                            (get-add_toggles p.scope p.priority k p.capabilities m.1)
                        ∙ append_to-append (get k m.1) _ _,
                  ))
          | inr d ↦
              rw (d, split_tiers, candidates_for)
                (let r =
                    get-split_tiers k ps e
                      (add_toggles p.scope p.priority p.capabilities m.0, m.1) in
                  (
                    r.0
                        ∙ ap (λ o. append_to o (candidates_for false ps e k))
                            (get-add_toggles p.scope p.priority k p.capabilities m.0)
                        ∙ append_to-append (get k m.0) _ _,
                    r.1,
                  ))
        ])
]

split_tiers-IsMap :
    (ps : List ScopedPolicy) (e : Entity) (m : Maps)
    → IsMap m.0
    → IsMap m.1
    → IsMap (split_tiers ps e m).0 × IsMap (split_tiers ps e m).1
unfolding split_tiers
split_tiers-IsMap [] e m h k = (h, k)
split_tiers-IsMap (p ∷ ps) e m h k = elim (Bool-cases (matches p e)) [
  | inr q ↦ rw (q, split_tiers) (split_tiers-IsMap ps e m h k)
  | inl q ↦
      rw (q, split_tiers)
        (elim (Bool-cases (is_database p.scope)) [
          | inl d ↦
              rw (d, split_tiers)
                (split_tiers-IsMap ps e _ h
                  (add_toggles-IsMap p.scope p.priority p.capabilities m.1 k))
          | inr d ↦
              rw (d, split_tiers)
                (split_tiers-IsMap ps e _
                  (add_toggles-IsMap p.scope p.priority p.capabilities m.0 h) k)
        ])
]

-- The map of one kind of tier for a server.
abbrev pub tier_map : Bool → List ScopedPolicy → Entity → Dict String Cands
tier_map false ps e = (split_tiers ps e ([], [])).0
tier_map true ps e = (split_tiers ps e ([], [])).1

pub get-tier_map :
    (tier : Bool) (ps : List ScopedPolicy) (e : Entity) (k : String)
    → get k (tier_map tier ps e) ≡ non_empty (candidates_for tier ps e k)
unfolding get
get-tier_map false ps e k = (get-split_tiers k ps e ([], [])).0
get-tier_map true ps e k = (get-split_tiers k ps e ([], [])).1

pub tier_map-IsMap :
    (tier : Bool) (ps : List ScopedPolicy) (e : Entity) → IsMap (tier_map tier ps e)
tier_map-IsMap false ps e = (split_tiers-IsMap ps e ([], []) tt tt).0
tier_map-IsMap true ps e = (split_tiers-IsMap ps e ([], []) tt tt).1
