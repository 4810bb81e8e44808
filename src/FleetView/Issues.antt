-- ===== src/FleetView/Issues.antt =====
-- internal/fleetview/issues.go: `ScopeIssues` and `WorstSeverity`.
use lynceus.Prelude.{
  ℕ, ◌≡◌, ◌⊎◌, refl, String, Bool, true, inl, inr, ◌&&◌, ◌||◌, if◌then◌else◌, All, List, [], ◌∷◌,
  ◌++◌, map, filter, Option, none, some, ltb, subst, leb, eqb, ◌==◌, string_eq, arith,
}
use lynceus.Prelude.Int.{ℤ, pos_part}
use lynceus.Prelude.Order.{Order}
use lynceus.Prelude.Sort.{sort, IsSorted, sort-IsSorted}
use lynceus.Prelude.Result.{Result, ok, ◌>>=◌}
use lynceus.FleetView.Holding.{any-Holds, Holds-ok}
use lynceus.FleetView.{
  LatestCheck, TopInsight, StatsStore, Sev, crit, warn, info, sev_rank, is_open_check,
}

-- An insight's id is "kind · fingerprint".
pub data IssueId : Type 0 where
  check_id : String → IssueId
  kind_fingerprint : String → String → IssueId

pub record ScopeIssue : Type 0 where
  pub kind : String
  pub severity : Sev
  pub id : IssueId
  pub detail : String
  pub server : String
  pub ref : String
  pub age_min : ℕ

-- The worse severity first, and in one severity the younger first.
pub record IssuePlace : Type 0 where
  pub rank : ℕ
  pub age : ℕ

abbrev pub le_issue : IssuePlace → IssuePlace → Bool
le_issue p q = ltb p.rank q.rank || (eqb p.rank q.rank && leb p.age q.age)

pub issue_total : (p q : IssuePlace) → (le_issue p q ≡ true) ⊎ (le_issue q p ≡ true)
issue_total p q = ground arith

pub issue_trans :
    (p q r : IssuePlace) → le_issue p q ≡ true → le_issue q r ≡ true → le_issue p r ≡ true
issue_trans p q r h k = ground arith

pub issue_antisym : (p q : IssuePlace) → le_issue p q ≡ true → le_issue q p ≡ true → p ≡ q
issue_antisym p q h k = ground arith

instance abbrev pub issue_order : Order IssuePlace
issue_order = record {
  le = le_issue;
  le_total = issue_total;
  le_trans = issue_trans;
  le_antisym = issue_antisym;
}

abbrev pub issue_place : ScopeIssue → IssuePlace
issue_place x = record { rank = sev_rank x.severity; age = x.age_min }

-- `lower` is `strings.ToLower`.
abbrev pub normalize_severity : (lower : String → String) → String → Sev
normalize_severity lower s =
    let low = lower s in
    if (low == "high") || (low == "critical") || (low == "crit")
    then crit
    else if (low == "medium") || (low == "warning") || (low == "warn")
    then warn
    else info

-- `minutes` is the whole minutes between two times, cut towards zero.
abbrev pub age_minutes : (minutes : ℤ → ℤ → ℤ) → (until t : ℤ) → ℕ
age_minutes minutes until t = pos_part (minutes until t)

module _ (lower : String → String) (minutes : ℤ → ℤ → ℤ) (until : ℤ) where
  abbrev pub check_issue : String → LatestCheck → ScopeIssue
  check_issue sid c = record {
    kind = "check";
    severity = normalize_severity lower c.severity;
    id = check_id c.check_id;
    detail = c.detail;
    server = sid;
    ref = c.check_id;
    age_min = age_minutes minutes until c.evaluated_at;
  }

  abbrev pub insight_issue : TopInsight → ScopeIssue
  insight_issue x = record {
    kind = "insight";
    severity = normalize_severity lower x.severity;
    id = kind_fingerprint x.kind x.fingerprint;
    detail = x.detail;
    server = x.server_id;
    ref = x.fingerprint;
    age_min = age_minutes minutes until x.captured_at;
  }

  abbrev pub check_issues : {F : Type 0} → StatsStore F → List String → Result (List ScopeIssue)
  check_issues stats [] = ok []
  check_issues stats (sid ∷ sids) = stats.latest_checks_results sid >>= λ checks.
      check_issues stats sids >>= λ rest.
      ok (map (check_issue sid) (filter is_open_check checks) ++ rest)

  unfoldable pub scope_issues : {F : Type 0} → StatsStore F → List String → Result (List ScopeIssue)
  scope_issues stats sids = check_issues stats sids >>= λ checks.
      stats.top_insights_for_servers sids 50 >>= λ insights.
      ok (sort issue_place (checks ++ map insight_issue insights))

abbrev pub or_info : Option Sev → Option Sev
or_info none = some info
or_info (some s) = some s

abbrev pub worst_from : Option Sev → List ScopeIssue → Option Sev
worst_from worst [] = worst
worst_from worst (x ∷ xs) = elim x.severity [
  | crit ↦ some crit
  | warn ↦ worst_from (some warn) xs
  | info ↦ worst_from (or_info worst) xs
]

-- The empty text is `none`.
abbrev pub worst_severity : List ScopeIssue → Option Sev
worst_severity = worst_from none

abbrev pub first_severity : List ScopeIssue → Option Sev
first_severity [] = none
first_severity (x ∷ xs) = some x.severity

Sev-cases : (s : Sev) → (s ≡ crit) ⊎ (s ≡ warn) ⊎ (s ≡ info)
Sev-cases crit = inl refl
Sev-cases warn = inr (inl refl)
Sev-cases info = inr (inr refl)

-- After a warning nothing worse comes in a sorted list, and after an advice only advice.
warn_stays :
    (xs : List ScopeIssue)
    → All (λ x. leb 1 (sev_rank x.severity) ≡ true) xs
    → worst_from (some warn) xs ≡ some warn
warn_stays [] h = refl
warn_stays (x ∷ xs) h = elim (Sev-cases x.severity) [
  | inl e ↦ ground (arith, e, h.0)
  | inr (inl e) ↦ rw e (warn_stays xs h.1)
  | inr (inr e) ↦ rw e (warn_stays xs h.1)
]

info_stays :
    (xs : List ScopeIssue)
    → All (λ x. leb 2 (sev_rank x.severity) ≡ true) xs
    → worst_from (some info) xs ≡ some info
info_stays [] h = refl
info_stays (x ∷ xs) h = elim (Sev-cases x.severity) [
  | inl e ↦ ground (arith, e, h.0)
  | inr (inl e) ↦ ground (arith, e, h.0)
  | inr (inr e) ↦ rw e (info_stays xs h.1)
]

below :
    (x : ScopeIssue) (s : Sev) (xs : List ScopeIssue)
    → x.severity ≡ s
    → All (λ y. le_issue (issue_place x) (issue_place y) ≡ true) xs
    → All (λ y. leb (sev_rank s) (sev_rank y.severity) ≡ true) xs
below x s [] e h = tt
below x s (y ∷ ys) e h = (
  subst (λ r. leb (sev_rank r) (sev_rank y.severity) ≡ true) e (ground (arith, h.0)),
  below x s ys e h.1,
)

worst_severity-sorted :
    (xs : List ScopeIssue) → IsSorted issue_place xs → worst_severity xs ≡ first_severity xs
worst_severity-sorted [] h = refl
worst_severity-sorted (x ∷ xs) h = elim (Sev-cases x.severity) [
  | inl e ↦ rw e refl
  | inr (inl e) ↦ rw e (warn_stays xs (below x warn xs e h.0))
  | inr (inr e) ↦ rw e (info_stays xs (below x info xs e h.0))
]

-- Where the issues of a scope are read, the worst severity among them is that of the first one.
worst_severity-scope_issues :
    {F : Type 0} (lower : String → String) (minutes : ℤ → ℤ → ℤ) (until : ℤ) (stats : StatsStore F)
    (sids : List String) (xs : List ScopeIssue)
    → scope_issues lower minutes until stats sids ≡ ok xs
    → worst_severity xs ≡ first_severity xs
unfolding scope_issues
worst_severity-scope_issues lower minutes until stats sids xs e = worst_severity-sorted xs (
    Holds-ok (IsSorted issue_place) (scope_issues lower minutes until stats sids)
      (any-Holds (IsSorted issue_place) (check_issues lower minutes until stats sids) _ (λ checks.
        any-Holds (IsSorted issue_place) (stats.top_insights_for_servers sids 50) _ (λ insights.
          sort-IsSorted issue_place (checks ++ map (insight_issue lower minutes until) insights))))
      e)
