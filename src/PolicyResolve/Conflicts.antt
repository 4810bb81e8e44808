-- ===== src/PolicyResolve/Conflicts.antt =====
-- internal/policyresolve/flatten.go (`Flatten`, `deadRowConflicts`): which conflicts are raised.
use mathlib.Core.Bool.{false≢true}
use mathlib.Core.List.Memᴰ
use lynceus.Prelude.{
  String, Bool, true, false, not, ◌≡◌, ◌↔◌, refl, sym, ◌∙◌, ap, subst, List, [], ◌∷◌, map, any,
  any-true, any-false, flat_map, flat_map-mem, mem-flat_map, Memᴰ, if◌then◌else◌, Bool-cases, inl,
  inr, string_eq,
}
use lynceus.Prelude.Order.{list_order}
use lynceus.Prelude.Text.{string_order}
use lynceus.Prelude.Sort.{sort-perm, perm-mem, perm_sym}
use lynceus.PolicyResolve.{
  database, Candidate, ScopedPolicy, CapabilityToggle, Entity, EntityGraph, Conflict, Reason,
  dead_row, Cands, Verdict, winner, refused, is_database, serves, resolve_precedence, conflict_of,
  MapOrder, server_conflicts, dead_row_conflicts, conflict_key, flatten,
}
use lynceus.PolicyResolve.Precedence.{Outcome, resolve_precedence-Outcome}
use lynceus.PolicyResolve.Selected.{IsServed, database_iff, serves_iff, candidates_iff}
use lynceus.PolicyResolve.Group.{candidates_for, tier_map}
use lynceus.PolicyResolve.Rows.{
  AreCandidates, Outcome-listed, entry_candidates, candidates_entry, Outcome-cons,
  resolve_precedence_of,
}

-- The warning about one capability of a policy.
abbrev pub dead_conflict : (Reason → String) → ScopedPolicy → CapabilityToggle → Conflict
dead_conflict render p t = record {
  capability = t.capability;
  server_id = "";
  reason = render (dead_row p.name p.database_name);
}

-- A disagreement at the winning level of a server's capability, or a database policy that no
-- server of the graph serves.
pub data IsRaised (render : Reason → String) (ps : List ScopedPolicy) (graph : EntityGraph)
    (c : Conflict) : Type 0 where
  refusal :
      (tier : Bool) (e : Entity)
      → Memᴰ (c.server_id, e) graph
      → (cands : List Candidate) → AreCandidates tier ps e c.capability cands
      → (r : Reason) → Outcome cands (refused r)
      → c.reason ≡ render r
      → IsRaised render ps graph c
  dead :
      (p : ScopedPolicy)
      → Memᴰ p ps
      → p.scope ≡ database
      → ((s : String × Entity) → Memᴰ s graph → ¬ IsServed p s.1)
      → (t : CapabilityToggle) → Memᴰ t p.capabilities
      → c ≡ dead_conflict render p t
      → IsRaised render ps graph c

module _ (render : Reason → String) (ps : List ScopedPolicy) (graph : EntityGraph) where
  abbrev dead_of : ScopedPolicy → List Conflict
  dead_of p =
      if not (is_database p.scope)
      then []
      else if any (serves p) graph
      then []
      else map (dead_conflict render p) p.capabilities

  dead_of-IsRaised :
      (p : ScopedPolicy) (c : Conflict)
      → Memᴰ p ps
      → Memᴰ c (dead_of p)
      → IsRaised render ps graph c
  dead_of-IsRaised p c m h = elim (Bool-cases (is_database p.scope)) [
    | inr d ↦ absurd (Memᴰ.not-nil (rw d at h))
    | inl d ↦ elim (Bool-cases (any (serves p) graph)) [
      | inl s ↦ absurd (Memᴰ.not-nil (rw (d, s) at h))
      | inr s ↦
          let (t, ht, ht') = Memᴰ.of_map (dead_conflict render p) p.capabilities (rw (d, s) at h) in
          dead p m ((database_iff p.scope).0 d)
            (λ x hx k. false≢true (sym (any-false (serves p) graph s hx) ∙ (serves_iff p x).1 k)) t
            ht (sym ht')
    ]
  ]

  -- The conflicts of one tier of a server.
  tier_conflicts : MapOrder → String → Entity → Bool → List Conflict
  tier_conflicts o sid e tier =
      flat_map (conflict_of render sid) (o.capabilities (tier_map tier ps e))

  conflict_of-IsRaised :
      (tier : Bool) (sid : String) (e : Entity) (k : String) (v : Cands) (c : Conflict)
      → Memᴰ (sid, e) graph
      → candidates_for tier ps e k ≡ v.0 ∷ v.1
      → Memᴰ c (conflict_of render sid (k, v))
      → IsRaised render ps graph c
  conflict_of-IsRaised tier sid e k v c m h r =
      go (resolve_precedence v.0 v.1) (resolve_precedence-Outcome v.0 v.1) r
    where
      go :
          (u : Verdict)
          → Outcome (v.0 ∷ v.1) u
          → Memᴰ c (elim u [
            | winner w ↦ []
            | refused x ↦ record { capability = k; server_id = sid; reason = render x } ∷ []
          ])
          → IsRaised render ps graph c
      go (winner w) o q = absurd (Memᴰ.not-nil q)
      go (refused x) o q =
          let p = Memᴰ.eq_of_singleton q in
          refusal tier e
            (subst (λ s. Memᴰ (s, e) graph) (sym (ap (λ (r : Conflict). r.server_id) p)) m)
            (candidates_for tier ps e c.capability) (candidates_iff tier ps e c.capability) x
            (subst (λ s. Outcome (candidates_for tier ps e s) (refused x))
              (sym (ap (λ (r : Conflict). r.capability) p))
              (subst (λ xs. Outcome xs (refused x)) (sym h) o))
            (ap (λ (r : Conflict). r.reason) p)

  tier_conflicts-IsRaised :
      (o : MapOrder) (tier : Bool) (sid : String) (e : Entity) (c : Conflict)
      → Memᴰ (sid, e) graph
      → Memᴰ c (tier_conflicts o sid e tier)
      → IsRaised render ps graph c
  unfolding tier_conflicts
  tier_conflicts-IsRaised o tier sid e c m h =
      let ((k, v), he, hr) =
        mem-flat_map (conflict_of render sid) (o.capabilities (tier_map tier ps e)) h in
      conflict_of-IsRaised tier sid e k v c m (entry_candidates o tier ps e k v he) hr

  IsRaised-tier_conflicts :
      (o : MapOrder) (tier : Bool) (e : Entity) (r : Reason) (c : Conflict)
      → Outcome (candidates_for tier ps e c.capability) (refused r)
      → c.reason ≡ render r
      → Memᴰ c (tier_conflicts o c.server_id e tier)
  unfolding tier_conflicts
  IsRaised-tier_conflicts o tier e r c out q =
      let (d, ds, h) = Outcome-cons _ out in
      flat_map-mem (conflict_of render c.server_id)
        (candidates_entry o tier ps e c.capability d ds h)
        (rw (resolve_precedence_of _ d ds h out, conflict_of)
          (Memᴰ.head
            (λ i. record { capability = c.capability; server_id = c.server_id; reason = q i })))

-- The conflicts that come out are exactly those raised: a capability of a server of the graph whose
-- strongest candidates differ, with their tier and priority, and each capability of a database policy
-- whose labels and database no server of the graph has.
pub flatten-conflicts :
    (render : Reason → String) (o : MapOrder) (ps : List ScopedPolicy) (graph : EntityGraph)
    (c : Conflict)
    → Memᴰ c (flatten render o ps graph).1 ↔ IsRaised render ps graph c
unfolding flatten server_conflicts tier_conflicts dead_row_conflicts
flatten-conflicts render o ps graph c = (sound, complete)
  where
    per_server : String × Entity → List Conflict
    per_server = server_conflicts render o ps

    sound : Memᴰ c (flatten render o ps graph).1 → IsRaised render ps graph c
    sound m =
        elim (Memᴰ.append_cases (dead_row_conflicts render ps graph)
          (perm-mem (sort-perm conflict_key _) m)) [
            | inl h ↦
                let (p, hp, hc) = mem-flat_map (dead_of render ps graph) ps h in
                dead_of-IsRaised render ps graph p c hp hc
            | inr h ↦
                let ((sid, e), hs, hr) = mem-flat_map per_server (o.servers graph) h in
                let hg = perm-mem (o.servers_perm graph) hs in
                elim (Memᴰ.append_cases (tier_conflicts render ps graph o sid e false) hr) [
                  | inl k ↦ tier_conflicts-IsRaised render ps graph o false sid e c hg k
                  | inr k ↦ tier_conflicts-IsRaised render ps graph o true sid e c hg k
                ]
          ]

    side :
        (tier : Bool) (e : Entity)
        → Memᴰ c (tier_conflicts render ps graph o c.server_id e tier)
        → Memᴰ c (per_server (c.server_id, e))
    side false e h = Memᴰ.append_left (tier_conflicts render ps graph o c.server_id e true) h
    side true e h = Memᴰ.append_right (tier_conflicts render ps graph o c.server_id e false) h

    complete : IsRaised render ps graph c → Memᴰ c (flatten render o ps graph).1
    complete (refusal tier e m cands l r listed q) =
        let out = Outcome-listed tier ps e c.capability cands l listed in
        perm-mem (perm_sym (sort-perm conflict_key _)) (
          Memᴰ.append_right (dead_row_conflicts render ps graph) (
            flat_map-mem per_server (perm-mem (perm_sym (o.servers_perm graph)) m)
              (side tier e (IsRaised-tier_conflicts render ps graph o tier e r c out q))))
    complete (dead p m d s t ht q) = perm-mem (perm_sym (sort-perm conflict_key _)) (
        Memᴰ.append_left (flat_map per_server (o.servers graph)) (
          flat_map-mem (dead_of render ps graph) m (
            rw ((database_iff p.scope).1 d, none_serves (any (serves p) graph) refl)
              (Memᴰ.cast q (Memᴰ.map (dead_conflict render p) ht)))))
      where
        none_serves : (b : Bool) → any (serves p) graph ≡ b → any (serves p) graph ≡ false
        none_serves false h = h
        none_serves true h =
            let (x, hx, k) = any-true (serves p) graph h in absurd (s x hx ((serves_iff p x).0 k))
