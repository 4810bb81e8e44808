-- ===== src/PolicyResolve/Precedence.antt =====
-- internal/policyresolve/flatten.go (`resolvePrecedence`): an independent description of the
-- outcome, which speaks of the candidates as a set.
use mathlib.Core.Bool.{false≢true}
use mathlib.Core.List.Memᴰ
use lynceus.Prelude.{
  ◌⊎◌, ◌↔◌, ◌<◌, true, false, ◌≡◌, ◌≢◌, refl, sym, ap, ◌∙◌, List, [], ◌∷◌, any, any-true, any-false,
  ap₂, Permᴰ, Memᴰ, arith, Bool-cases, inl, inr,
}
use lynceus.Prelude.Sort.{perm-mem, perm_sym}
use lynceus.Prelude.Int.{eqz_iff, ◌<ℤ◌}
use lynceus.PolicyResolve.{
  Scope, database, instance_tier, group, fleet, Candidate, Verdict, winner, refused, disagreement,
  beats, disagrees, best_of, resolve_precedence, tier_rank,
}

-- The tiers from the narrowest: database, instance, group, fleet.
abbrev pub IsNarrower : Scope → Scope → Type 0
IsNarrower s t =
    ((s ≡ database) × (t ≢ database))
    ⊎ ((s ≡ instance_tier) × ((t ≡ group) ⊎ (t ≡ fleet)))
    ⊎ ((s ≡ group) × (t ≡ fleet))

-- A narrower tier, or the same tier and a higher priority.
abbrev pub Outranks : Candidate → Candidate → Type 0
Outranks x c = IsNarrower x.scope c.scope ⊎ ((x.scope ≡ c.scope) × (c.priority <ℤ x.priority))

abbrev pub IsTop : List Candidate → Candidate → Type 0
IsTop cands c = (x : Candidate) → Memᴰ x cands → ¬ Outranks x c

abbrev pub SameLevel : Candidate → Candidate → Type 0
SameLevel x c = (x.scope ≡ c.scope) × (x.priority ≡ c.priority)

-- What the candidates, as a set, decide.
pub data Outcome (cands : List Candidate) (v : Verdict) : Type 0 where
  agreed :
      (w : Candidate)
      → Memᴰ w cands
      → IsTop cands w
      → ((x : Candidate) → Memᴰ x cands → SameLevel x w → x.enabled ≡ w.enabled)
      → v ≡ winner w
      → Outcome cands v
  split :
      (w x : Candidate)
      → Memᴰ w cands
      → IsTop cands w
      → Memᴰ x cands
      → SameLevel x w
      → x.enabled ≢ w.enabled
      → v ≡ refused (disagreement w.scope w.priority)
      → Outcome cands v

rank_injective : (s t : Scope) → tier_rank s ≡ tier_rank t → s ≡ t
rank_injective s t h = ground arith

IsNarrower-iff : (s t : Scope) → (tier_rank t < tier_rank s) ↔ IsNarrower s t
IsNarrower-iff s t = ground arith

ranked_iff :
    (x c : Candidate)
    → (beats x c ≡ true) ↔ (
        (tier_rank c.scope < tier_rank x.scope)
        ⊎ ((x.scope ≡ c.scope) × (c.priority <ℤ x.priority)))
ranked_iff x c = ground (arith, rank_injective x.scope c.scope)

beats_iff : (x c : Candidate) → (beats x c ≡ true) ↔ Outranks x c
beats_iff x c =
    let r = ranked_iff x c in
    let n = IsNarrower-iff x.scope c.scope in
    (
      λ h. elim (r.0 h) [ inl k ↦ inl (n.0 k) | inr k ↦ inr k ],
      λ h. elim h [ inl k ↦ r.1 (inl (n.1 k)) | inr k ↦ r.1 (inr k) ],
    )

disagrees_iff :
    (w x : Candidate) → (disagrees w x ≡ true) ↔ (SameLevel x w × (x.enabled ≢ w.enabled))
disagrees_iff w x = ground (arith, rank_injective x.scope w.scope, eqz_iff x.priority w.priority)

beats_trans : (a b c : Candidate) → beats a b ≡ false → beats b c ≡ false → beats a c ≡ false
beats_trans a b c h k = ground arith

beats_irrefl : (a : Candidate) → beats a a ≡ false
beats_irrefl a = ground arith

beats_asym : (a b : Candidate) → beats a b ≡ true → beats b a ≡ false
beats_asym a b h = ground arith

best_of-mem : (c : Candidate) (cs : List Candidate) → Memᴰ (best_of c cs) (c ∷ cs)
unfolding best_of
best_of-mem c [] = Memᴰ.head refl
best_of-mem c (d ∷ ds) = elim (Bool-cases (beats d c)) [
  | inl e ↦ rw (e, best_of) (Memᴰ.tail (best_of-mem d ds))
  | inr e ↦
      rw (e, best_of)
        (elim (Memᴰ.cases_cons (best_of-mem c ds)) [
          | inl h ↦ Memᴰ.head h
          | inr t ↦ Memᴰ.tail (Memᴰ.tail t)
        ])
]

best_of-ge : (c : Candidate) (cs : List Candidate) → beats c (best_of c cs) ≡ false
unfolding best_of
best_of-ge c [] = beats_irrefl c
best_of-ge c (d ∷ ds) = elim (Bool-cases (beats d c)) [
  | inl e ↦ rw (e, best_of) (beats_trans c d (best_of d ds) (beats_asym d c e) (best_of-ge d ds))
  | inr e ↦ rw (e, best_of) (best_of-ge c ds)
]

best_of-top :
    (c : Candidate) (cs : List Candidate) (x : Candidate)
    → Memᴰ x (c ∷ cs)
    → beats x (best_of c cs) ≡ false
unfolding best_of
best_of-top c cs x (Memᴰ.head q) = rw q (best_of-ge c cs)
best_of-top c [] x (Memᴰ.tail t) = elim t [ ]
best_of-top c (d ∷ ds) x (Memᴰ.tail t) = elim (Bool-cases (beats d c)) [
  | inl e ↦ rw (e, best_of) (best_of-top d ds x t)
  | inr e ↦
      rw (e, best_of)
        (elim (Memᴰ.cases_cons t) [
          | inl q ↦ rw q (beats_trans d c (best_of c ds) e (best_of-ge c ds))
          | inr u ↦ best_of-top c ds x (Memᴰ.tail u)
        ])
]

best_of-IsTop : (c : Candidate) (cs : List Candidate) → IsTop (c ∷ cs) (best_of c cs)
best_of-IsTop c cs x m h =
    false≢true (sym (best_of-top c cs x m) ∙ (beats_iff x (best_of c cs)).1 h)

agree_of_test : (w x : Candidate) → SameLevel x w → disagrees w x ≡ false → x.enabled ≡ w.enabled
agree_of_test w x s h = ground (arith, s.0, s.1, eqz_iff x.priority w.priority)

unbeaten : (x w : Candidate) → ¬ Outranks x w → beats x w ≡ false
unbeaten x w h = elim (Bool-cases (beats x w)) [
  | inl e ↦ absurd (h ((beats_iff x w).0 e))
  | inr e ↦ e
]

level_of_tests : (w x : Candidate) → beats x w ≡ false → beats w x ≡ false → SameLevel x w
level_of_tests w x h k =
    ground (arith, rank_injective x.scope w.scope, eqz_iff x.priority w.priority)

cand_path : (z w : Candidate) → SameLevel z w → z.enabled ≡ w.enabled → z ≡ w
cand_path z w s e = λ i. record { scope = s.0 i; priority = s.1 i; enabled = e i }

-- The loops reach the described outcome.
pub resolve_precedence-Outcome :
    (c : Candidate) (cs : List Candidate) → Outcome (c ∷ cs) (resolve_precedence c cs)
unfolding resolve_precedence
resolve_precedence-Outcome c cs =
    let best : Candidate = best_of c cs in
    elim (Bool-cases (any (disagrees best) (c ∷ cs))) [
      | inl e ↦
          let (x, m, h) = any-true (disagrees best) (c ∷ cs) e in
          let k = (disagrees_iff best x).0 h in
          split best x (best_of-mem c cs) (best_of-IsTop c cs) m k.0 k.1 (rw e)
      | inr e ↦
          agreed best (best_of-mem c cs) (best_of-IsTop c cs)
            (λ x m s. agree_of_test best x s (any-false (disagrees best) (c ∷ cs) e m)) (rw e)
    ]

-- Candidates that none outranks stand at one level.
tops_level :
    {xs : List Candidate} {w x : Candidate}
    → IsTop xs w
    → IsTop xs x
    → Memᴰ w xs
    → Memᴰ x xs
    → SameLevel x w
tops_level {w = w} {x = x} tw tx mw mx =
    level_of_tests w x (unbeaten x w (tw x mx)) (unbeaten w x (tx w mw))

IsTop-same :
    {xs ys : List Candidate} (w : Candidate)
    → ((x : Candidate) → Memᴰ x xs ↔ Memᴰ x ys)
    → IsTop ys w
    → IsTop xs w
IsTop-same w same t x m = t x ((same x).0 m)

-- The outcome depends on which candidates there are, not on their order or number.
pub Outcome-unique :
    {xs ys : List Candidate} {v u : Verdict}
    → ((x : Candidate) → Memᴰ x xs ↔ Memᴰ x ys)
    → Outcome xs v
    → Outcome ys u
    → v ≡ u
Outcome-unique same (agreed w mw tw hw e) (agreed z mz tz hz f) =
    let mz' = (same z).1 mz in
    let lev = tops_level tw (IsTop-same z same tz) mw mz' in
    e ∙ ap winner (sym (cand_path z w lev (hw z mz' lev))) ∙ sym f
Outcome-unique same (agreed w mw tw hw e) (split z y mz tz my lv ne f) =
    let mz' = (same z).1 mz in
    let lev = tops_level tw (IsTop-same z same tz) mw mz' in
    absurd (ne (hw y ((same y).1 my) (lv.0 ∙ lev.0, lv.1 ∙ lev.1) ∙ sym (hw z mz' lev)))
Outcome-unique same (split w x mw tw mx lv ne e) (agreed z mz tz hz f) =
    let mz' = (same z).1 mz in
    let lev = tops_level (IsTop-same z same tz) tw mz' mw in
    absurd (ne (hz x ((same x).0 mx) (lv.0 ∙ lev.0, lv.1 ∙ lev.1) ∙ sym (hz w ((same w).0 mw) lev)))
Outcome-unique same (split w x mw tw mx lv ne e) (split z y mz tz my lz nz f) =
    let mz' = (same z).1 mz in
    let lev = tops_level tw (IsTop-same z same tz) mw mz' in
    e ∙ ap refused (ap₂ disagreement (sym lev.0) (sym lev.1)) ∙ sym f

pub Outcome-same :
    {xs ys : List Candidate} {v : Verdict}
    → ((x : Candidate) → Memᴰ x xs ↔ Memᴰ x ys)
    → Outcome xs v
    → Outcome ys v
Outcome-same same (agreed w m t h e) =
    agreed w ((same w).0 m) (λ x k. t x ((same x).1 k)) (λ x k. h x ((same x).1 k)) e
Outcome-same same (split w x m t mx l n e) =
    split w x ((same w).0 m) (λ y k. t y ((same y).1 k)) ((same x).0 mx) l n e

-- Two orders of the same candidates resolve alike, conflict text included.
pub resolve_precedence-perm :
    (c : Candidate) (cs : List Candidate) (d : Candidate) (ds : List Candidate)
    → Permᴰ (c ∷ cs) (d ∷ ds)
    → resolve_precedence c cs ≡ resolve_precedence d ds
resolve_precedence-perm c cs d ds p =
    Outcome-unique (λ x. (perm-mem p, perm-mem (perm_sym p))) (resolve_precedence-Outcome c cs)
      (resolve_precedence-Outcome d ds)
