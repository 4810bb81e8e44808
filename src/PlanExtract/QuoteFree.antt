-- ===== src/PlanExtract/QuoteFree.antt =====
-- internal/planextract: no single quote leaves the collector in a plan's conditions.
use mathlib.Core.Bool.{false≢true}
use lynceus.Prelude.{
  ℕ, ◌≡◌, refl, sym, ◌∙◌, ap₂, ◌⊎◌, subst, ap, String, Bool, true, false, inl, inr, eqb,
  if◌then◌else◌, Option, none, some, List, [], ◌∷◌, ◌++◌, any, All, Bool-cases, arith, bytes_eq,
  ◌==◌,
}
use lynceus.Prelude.Int.{ℤ}
use lynceus.Prelude.Numerals.{trim_space}
use lynceus.Prelude.Result.{Result, ok, err}
use lynceus.Collector.Reader.{Tier, normalized, blocked, unknown}
use lynceus.PlanExtract.{
  Text, quote, has_quote, RawFields, RawNode, raw_node, RawNodes, no_raw, and_raw, PlanNode,
  plan_node, PlanNodes, no_plans, and_plan, QueryPlan, normalize_condition, normalize_conds,
  join_and, and_text, parts_of, of_normalized, normalize, tier_of, unwrapped, checked, cut_prefix,
  cond_wrap_prefix, convert, convert_all, of_decoded, decode_envelope, unsupported, extract,
}

-- A part of a condition: what pg_query makes of a text behind the wrapping prefix, without the prefix
-- and trimmed.
abbrev pub IsNormalized : (Text → Result Text) → Text → Type 0
IsNormalized pg part =
    (c : Text) × (pred : Text) × (pg (cond_wrap_prefix ++ c) ≡ ok (cond_wrap_prefix ++ pred))
    × (part ≡ trim_space pred)

-- A condition without a single quote, of such parts with " AND " between them.
abbrev pub IsClean : (Text → Result Text) → Text → Type 0
IsClean pg cond =
    (has_quote cond ≡ false)
    × ((parts : List Text) × All (IsNormalized pg) parts × (cond ≡ join_and parts))

-- Every condition in the tree is clean.
abbrev mutual
  pub IsQuoteFree : (Text → Result Text) → PlanNode → Type 0
  IsQuoteFree pg (plan_node f children) =
      IsClean pg f.normalized_condition × AreQuoteFree pg children

  pub AreQuoteFree : (Text → Result Text) → PlanNodes → Type 0
  AreQuoteFree pg no_plans = Unit
  AreQuoteFree pg (and_plan n ns) = IsQuoteFree pg n × AreQuoteFree pg ns

cut_prefix-some : (p s : Text) {r : Text} → cut_prefix p s ≡ some r → s ≡ p ++ r
cut_prefix-some [] s h = text_of h
  where
    text_or : Option Text → Text
    text_or none = s
    text_or (some t) = t

    text_of : {r : Text} → some s ≡ some r → s ≡ r
    text_of h = ap text_or h
cut_prefix-some (p ∷ ps) [] h = cc
cut_prefix-some (p ∷ ps) (c ∷ cs) h = elim (Bool-cases (eqb p c)) [
  | inr q ↦ absurd (no_prefix (rw q at h))
  | inl q ↦
      let same : c ≡ p = ground arith in
      ap₂ (λ x xs. x ∷ xs) same (cut_prefix-some ps cs (rw q at h))
]
  where
    no_prefix : {r : Text} → none ≡ some r → ⊥
    no_prefix h = cc

any-append :
    (p : ℕ → Bool) (xs ys : Text) → any p xs ≡ false → any p ys ≡ false → any p (xs ++ ys) ≡ false
any-append p [] ys h k = k
any-append p (x ∷ xs) ys h k = let r = any-append p xs ys in ground arith

module _ (pg : Text → Result Text) where
  checked-clean : (s : Text) → has_quote (checked s) ≡ false
  checked-clean s = elim (Bool-cases (has_quote s)) [ inl q ↦ rw q refl | inr q ↦ rw q q ]

  of_normalized-clean : (o : Text × Tier) → has_quote (of_normalized o) ≡ false
  of_normalized-clean (t, unknown) = refl
  of_normalized-clean (t, blocked) = refl
  of_normalized-clean (t, normalized) = go (cut_prefix cond_wrap_prefix t)
    where
      go : (o : Option Text) → has_quote (unwrapped o) ≡ false
      go none = refl
      go (some p) = checked-clean (trim_space p)

  normalize_condition-clean : (cond : Text) → has_quote (normalize_condition pg cond) ≡ false
  unfolding normalize_condition
  normalize_condition-clean cond = go (trim_space cond == [])
    where
      go :
          (b : Bool)
          → has_quote
              (if b then [] else of_normalized (normalize pg (cond_wrap_prefix ++ trim_space cond)))
            ≡ false
      go true = refl
      go false = of_normalized-clean (normalize pg (cond_wrap_prefix ++ trim_space cond))

  parts_of-clean : (cs : List Text) → All (λ p. has_quote p ≡ false) (parts_of pg cs)
  parts_of-clean [] = tt
  parts_of-clean (c ∷ cs) = go (normalize_condition pg c == []) (parts_of-clean cs)
    where
      go :
          (b : Bool)
          → All (λ p. has_quote p ≡ false) (parts_of pg cs)
          → All
              (λ p. has_quote p ≡ false)
              (if b then parts_of pg cs else normalize_condition pg c ∷ parts_of pg cs)
      go true h = h
      go false h = (normalize_condition-clean c, h)

  -- A part is empty, and left out, or made by pg_query.
  abbrev IsMade : Text → Type 0
  IsMade t = (t ≡ []) ⊎ IsNormalized pg t

  checked-IsMade : (s : Text) → IsNormalized pg s → IsMade (checked s)
  checked-IsMade s h = elim (Bool-cases (has_quote s)) [
    | inl q ↦ inl (rw q refl)
    | inr q ↦ rw q (inr h)
  ]

  unwrapped-IsMade :
      (c out : Text) (o : Option Text)
      → pg (cond_wrap_prefix ++ c) ≡ ok out
      → cut_prefix cond_wrap_prefix out ≡ o
      → IsMade (unwrapped o)
  unwrapped-IsMade c out none h e = inl refl
  unwrapped-IsMade c out (some pred) h e =
      checked-IsMade (trim_space pred)
        (c, pred, h ∙ ap ok (cut_prefix-some cond_wrap_prefix out e), refl)

  of_answer-IsMade :
      (c : Text) (a : Result Text)
      → pg (cond_wrap_prefix ++ c) ≡ a
      → IsMade (of_normalized (tier_of a))
  of_answer-IsMade c (err x) h = inl refl
  of_answer-IsMade c (ok out) h = unwrapped-IsMade c out (cut_prefix cond_wrap_prefix out) h refl

  normalize_condition-IsMade : (cond : Text) → IsMade (normalize_condition pg cond)
  unfolding normalize_condition
  normalize_condition-IsMade cond = go (trim_space cond == [])
    where
      go :
          (b : Bool)
          → IsMade
              (if b then [] else of_normalized (normalize pg (cond_wrap_prefix ++ trim_space cond)))
      go true = inl refl
      go false = of_answer-IsMade (trim_space cond) (pg (cond_wrap_prefix ++ trim_space cond)) refl

  parts_of-AreNormalized : (cs : List Text) → All (IsNormalized pg) (parts_of pg cs)
  parts_of-AreNormalized [] = tt
  parts_of-AreNormalized (c ∷ cs) = elim (Bool-cases (normalize_condition pg c == [])) [
    | inl q ↦ rw q (parts_of-AreNormalized cs)
    | inr q ↦ rw q (made q (normalize_condition-IsMade c), parts_of-AreNormalized cs)
  ]
    where
      made : {t : Text} → (t == []) ≡ false → IsMade t → IsNormalized pg t
      made {t} q (inl e) = absurd (false≢true (sym q ∙ (bytes_eq.beq_iff t []).1 e))
      made q (inr h) = h

  join_and-clean :
      (ps : List Text) → All (λ p. has_quote p ≡ false) ps → has_quote (join_and ps) ≡ false
  join_and-clean [] h = refl
  join_and-clean (p ∷ []) h = h.0
  join_and-clean (p ∷ q ∷ ps) h =
      any-append (λ c. eqb c quote) p (and_text ++ join_and (q ∷ ps)) h.0
        (any-append (λ c. eqb c quote) (and_text) (join_and (q ∷ ps)) refl
          (join_and-clean (q ∷ ps) h.1))

  normalize_conds-IsClean : (r : RawFields) → IsClean pg (normalize_conds pg r)
  unfolding normalize_conds
  normalize_conds-IsClean r =
      let conds = r.filter ∷ r.index_cond ∷ r.hash_cond ∷ r.join_filter ∷ r.recheck_cond ∷ [] in
      (
        join_and-clean _ (parts_of-clean conds),
        (parts_of pg conds, parts_of-AreNormalized conds, refl),
      )

  mutual
    convert-IsQuoteFree : (n : RawNode) → IsQuoteFree pg (convert pg n)
    convert-IsQuoteFree (raw_node r ns) = (normalize_conds-IsClean r, convert_all-AreQuoteFree ns)

    convert_all-AreQuoteFree : (ns : RawNodes) → AreQuoteFree pg (convert_all pg ns)
    convert_all-AreQuoteFree no_raw = tt
    convert_all-AreQuoteFree (and_raw n ns) = (convert-IsQuoteFree n, convert_all-AreQuoteFree ns)

  answer-IsQuoteFree :
      (fp : String) (at : ℤ) (o : Option (Option RawNode)) (q : QueryPlan)
      → of_decoded pg fp at o ≡ ok q
      → IsQuoteFree pg q.root
  answer-IsQuoteFree fp at none q h = cc
  answer-IsQuoteFree fp at (some none) q h = cc
  answer-IsQuoteFree fp at (some (some n)) q h =
      subst (IsQuoteFree pg) (ap root_of h) (convert-IsQuoteFree n)
    where
      root_of : Result QueryPlan → PlanNode
      root_of (ok p) = p.root
      root_of (err e) = convert pg n

  -- Whatever the log holds and whatever pg_query answers, where a plan is extracted from it no
  -- condition of any node of the plan has a single quote, and each is made of pg_query's answers.
  pub extract-IsQuoteFree :
      (as_array : Text → Option (List (Option RawNode)))
      (as_object : Text → Option (Option RawNode)) (body : Text) (fp : String) (at : ℤ)
      (q : QueryPlan)
      → extract pg as_array as_object body fp at ≡ ok q
      → IsQuoteFree pg q.root
  unfolding extract
  extract-IsQuoteFree as_array as_object body fp at q h = go (trim_space body == []) h
    where
      go :
          (b : Bool)
          → (if b
              then err unsupported
              else of_decoded pg fp at (decode_envelope as_array as_object body))
            ≡ ok q
          → IsQuoteFree pg q.root
      go true h = cc
      go false h = answer-IsQuoteFree fp at (decode_envelope as_array as_object body) q h
