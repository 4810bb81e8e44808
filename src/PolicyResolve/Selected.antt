-- ===== src/PolicyResolve/Selected.antt =====
-- internal/policyresolve/flatten.go: which policies address a server, and with which candidates,
-- described apart from the code.
use mathlib.Core.List.Memᴰ
use mathlib.Core.Bool.{false≢true}
use lynceus.Prelude.{
  String, Bool, true, false, ◌&&◌, ◌≡◌, ◌≢◌, ◌↔◌, ◌⊎◌, refl, sym, ap, ◌∙◌, inl, inr, Option, none,
  some, List, [], ◌∷◌, all, filter, mem-filter, filter-mem, flat_map-mem, mem-flat_map, Memᴰ,
  Bool-cases, if◌then◌else◌, arith, eq_iff, &&_iff, string_eq, bool_eq, ◌==◌,
}
use lynceus.Prelude.Dict.{get}
use lynceus.PolicyResolve.{
  Scope, database, CapabilityToggle, Labels, ScopedPolicy, Entity, Candidate, is_database, label_of,
  labels_subset, matches, serves,
}
use lynceus.PolicyResolve.Group.{candidate, toggle_candidates, candidates_for}

-- A label that is missing is as one with the empty value.
abbrev pub Reads : Labels → String → String → Type 0
Reads have k v = (get k have ≡ some v) ⊎ ((get k have ≡ none) × (v ≡ ""))

abbrev pub HasLabels : Labels → Labels → Type 0
HasLabels want have = (kv : String × String) → Memᴰ kv want → Reads have kv.0 kv.1

-- The policy's selector has the server's labels, and a database policy has its database.
abbrev pub IsServed : ScopedPolicy → Entity → Type 0
IsServed p e = HasLabels p.selector e.labels × (p.database_name ≡ e.current_database)

abbrev pub IsSelected : ScopedPolicy → Entity → Type 0
IsSelected p e =
    HasLabels p.selector e.labels × ((p.scope ≢ database) ⊎ (p.database_name ≡ e.current_database))

-- The tier of database policies, or that of the others.
abbrev pub IsOfTier : Bool → Scope → Type 0
IsOfTier true s = s ≡ database
IsOfTier false s = s ≢ database

-- A toggle of the capability in a policy of the tier that addresses the server.
abbrev pub IsCandidate : Bool → List ScopedPolicy → Entity → String → Candidate → Type 0
IsCandidate tier ps e cap c =
    (p : ScopedPolicy) × (t : CapabilityToggle) × Memᴰ p ps
    × IsSelected p e
    × IsOfTier tier p.scope
    × Memᴰ t p.capabilities
    × (t.capability ≡ cap)
    × (c ≡ record { scope = p.scope; priority = p.priority; enabled = t.enabled })

all_iff :
    {A : Type 0} (p : A → Bool) (xs : List A)
    → (all p xs ≡ true) ↔ ((x : A) → Memᴰ x xs → p x ≡ true)
all_iff p [] = (λ h x m. absurd (Memᴰ.not-nil m), λ h. refl)
all_iff p (x ∷ xs) =
    let rec = all_iff p xs in
    (
      λ h y m.
          let k = (&&_iff _ _).0 h in
          elim (Memᴰ.cases_cons m) [ inl e ↦ rw e k.0 | inr t ↦ rec.0 k.1 y t ],
      λ h. (&&_iff _ _).1 (h x (Memᴰ.head refl), rec.1 (λ y m. h y (Memᴰ.tail m))),
    )

Reads-iff : (have : Labels) (k v : String) → ((label_of have k == v) ≡ true) ↔ Reads have k v
Reads-iff have k v = go (get k have)
  where
    go :
        (o : Option String)
        → (((elim o [ none ↦ "" | some w ↦ w ]) == v) ≡ true)
          ↔ ((o ≡ some v) ⊎ ((o ≡ none) × (v ≡ "")))
    go none = (
      λ h. inr (refl, sym ((eq_iff "" v).0 h)),
      λ h. elim h [ inl e ↦ absurd (cc) | inr e ↦ (eq_iff "" v).1 (sym e.1) ],
    )
    go (some w) = (
      λ h. inl (ap some ((eq_iff w v).0 h)),
      λ h. elim h [ inl e ↦ (eq_iff w v).1 (ground arith) | inr e ↦ absurd (cc) ],
    )

labels_iff : (want have : Labels) → (labels_subset want have ≡ true) ↔ HasLabels want have
unfolding labels_subset
labels_iff want have =
    let a = all_iff (λ (kv : String × String). label_of have kv.0 == kv.1) want in
    (
      λ h kv m. (Reads-iff have kv.0 kv.1).0 (a.0 h kv m),
      λ h. a.1 (λ kv m. (Reads-iff have kv.0 kv.1).1 (h kv m)),
    )

pub database_iff : (s : Scope) → (is_database s ≡ true) ↔ (s ≡ database)
database_iff s = ground arith

pub serves_iff : (p : ScopedPolicy) (s : String × Entity) → (serves p s ≡ true) ↔ IsServed p s.1
serves_iff p (sid, e) = (
  λ h.
      let k = (&&_iff _ _).0 h in
      ((labels_iff p.selector e.labels).0 k.0, (eq_iff p.database_name e.current_database).0 k.1),
  λ h.
      (&&_iff _ _).1
        ((labels_iff p.selector e.labels).1 h.0, (eq_iff p.database_name e.current_database).1 h.1),
)

IsSelected-iff : (p : ScopedPolicy) (e : Entity) → (matches p e ≡ true) ↔ IsSelected p e
unfolding matches
IsSelected-iff p e = elim (Bool-cases (labels_subset p.selector e.labels)) [
  | inr q ↦ (
    λ h. absurd (false≢true (rw (matches, q) at h)),
    λ h. absurd (false≢true (sym q ∙ (labels_iff p.selector e.labels).1 h.0)),
  )
  | inl q ↦ elim (Bool-cases (is_database p.scope)) [
    | inr d ↦ (
      λ h. (
        (labels_iff p.selector e.labels).0 q,
        inl (λ f. false≢true (sym d ∙ (database_iff p.scope).1 f)),
      ),
      λ h. rw (matches, q, d) refl,
    )
    | inl d ↦ (
      λ h. (
        (labels_iff p.selector e.labels).0 q,
        inr ((eq_iff p.database_name e.current_database).0 (rw (matches, q, d) at h)),
      ),
      λ h. elim h.1 [
        | inl n ↦ absurd (n ((database_iff p.scope).0 d))
        | inr f ↦ rw (matches, q, d) ((eq_iff p.database_name e.current_database).1 f)
      ],
    )
  ]
]

IsOfTier-iff : (tier : Bool) (s : Scope) → ((is_database s == tier) ≡ true) ↔ IsOfTier tier s
IsOfTier-iff true s = ground (arith, database_iff s)
IsOfTier-iff false s = ground (arith, database_iff s)

-- The code's list of candidates has exactly those.
pub candidates_iff :
    (tier : Bool) (ps : List ScopedPolicy) (e : Entity) (cap : String) (c : Candidate)
    → Memᴰ c (candidates_for tier ps e cap) ↔ IsCandidate tier ps e cap c
unfolding candidates_for
candidates_iff tier ps e cap c = (sound, complete)
  where
    own : ScopedPolicy → List Candidate
    own p =
        if matches p e && (is_database p.scope == tier)
        then toggle_candidates p.scope p.priority cap p.capabilities
        else []

    sound : Memᴰ c (candidates_for tier ps e cap) → IsCandidate tier ps e cap c
    sound m =
        let (p, hp, hc) = mem-flat_map own ps m in
        elim (Bool-cases (matches p e && (is_database p.scope == tier))) [
          | inr q ↦ absurd (Memᴰ.not-nil (rw (own, q) at hc))
          | inl q ↦
              let k = (&&_iff _ _).0 q in
              let (t, ht, he) =
                Memᴰ.of_map (candidate p.scope p.priority)
                  (filter (λ t. t.capability == cap) p.capabilities) (rw (own, q) at hc) in
              let f =
                mem-filter (λ (t : CapabilityToggle). t.capability == cap) p.capabilities ht in
              (
                p,
                t,
                hp,
                (IsSelected-iff p e).0 k.0,
                (IsOfTier-iff tier p.scope).0 k.1,
                f.0,
                (eq_iff t.capability cap).0 f.1,
                sym he,
              )
        ]

    complete : IsCandidate tier ps e cap c → Memᴰ c (candidates_for tier ps e cap)
    complete (p, t, hp, sel, tr, ht, k, q) =
        let both : (matches p e && (is_database p.scope == tier)) ≡ true =
          (&&_iff _ _).1 ((IsSelected-iff p e).1 sel, (IsOfTier-iff tier p.scope).1 tr) in
        flat_map-mem own hp (
          rw (own, both)
            (Memᴰ.cast q (
              Memᴰ.map (candidate p.scope p.priority) (
                filter-mem (λ (t : CapabilityToggle). t.capability == cap)
                  ((eq_iff t.capability cap).1 k) ht))))
