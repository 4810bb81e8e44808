-- ===== src/LogPipeline/QuoteFree.antt =====
-- internal/collector/log_pipeline.go: no single quote leaves in a plan's conditions, and every record that
-- parses is shipped as one event.
use lynceus.Prelude.{
  ◌≡◌, refl, subst, Bool, true, false, if◌then◌else◌, Option, none, some, List, [], ◌∷◌, ◌++◌,
  append-All, All,
}
use lynceus.Prelude.Result.{Error, Result, ok, err}
use lynceus.Checks.Vacuum.{Float64}
use lynceus.LogTail.{Answer, gives, fails, Os, FileTail, read}
use lynceus.PlanExtract.{QueryPlan, extract}
use lynceus.PlanExtract.QuoteFree.{IsQuoteFree, extract-IsQuoteFree}
use lynceus.LogParse.{Text, LogEvent, LogPayload}
use lynceus.LogParse.Stream.{Environment, Parsed, parse_stream}
use lynceus.LogPipeline.{
  PlanLibrary, is_plan, kept_plan, plan_of_body, plan_body, plan_fingerprint, unix_of,
  extract_plans, DrainResult, Drained, drained, read_failed, parse_failed, LogPipeline, outcome,
  after_source, drain,
}

abbrev pub AreFree : PlanLibrary → List QueryPlan → Type 0
AreFree lib = All (λ q. IsQuoteFree lib.pg_normalize q.root)

module _ (lib : PlanLibrary) where
  plan_of_body-AreFree :
      (e : LogEvent) (p : LogPayload) (body : Text) → AreFree lib (plan_of_body lib e p body)
  plan_of_body-AreFree e p [] = tt
  plan_of_body-AreFree e p (c ∷ cs) =
      go
        (extract lib.pg_normalize lib.plans_in_array lib.plan_in_object (c ∷ cs)
          (plan_fingerprint lib p (c ∷ cs)) (unix_of e.occurred_at))
        (λ q h.
          extract-IsQuoteFree lib.pg_normalize lib.plans_in_array lib.plan_in_object (c ∷ cs)
            (plan_fingerprint lib p (c ∷ cs)) (unix_of e.occurred_at) q h)
    where
      go :
          (r : Result QueryPlan)
          → ((q : QueryPlan) → r ≡ ok q → IsQuoteFree lib.pg_normalize q.root)
          → AreFree lib (kept_plan lib r)
      go (err x) h = tt
      go (ok q) h = (h q refl, tt)

  extract_plans-AreFree :
      (es : List LogEvent) (ps : List LogPayload) → AreFree lib (extract_plans lib es ps)
  unfolding extract_plans
  extract_plans-AreFree [] ps = tt
  extract_plans-AreFree (e ∷ es) [] = tt
  extract_plans-AreFree (e ∷ es) (p ∷ ps) = go (is_plan e.event_type) (extract_plans-AreFree es ps)
    where
      go :
          (b : Bool)
          → AreFree lib (extract_plans lib es ps)
          → AreFree lib (
              if b
              then plan_of_body lib e p (plan_body lib p) ++ extract_plans lib es ps
              else extract_plans lib es ps)
      go true h =
          append-All (λ q. IsQuoteFree lib.pg_normalize q.root)
            (plan_of_body lib e p (plan_body lib p)) (extract_plans lib es ps)
            (plan_of_body-AreFree e p (plan_body lib p)) h
      go false h = h

abbrev ShipsFree : PlanLibrary → {F : Type 0} → Drained F → Type 0
ShipsFree lib (drained res) = AreFree lib res.query_plans
ShipsFree lib (read_failed e) = Unit
ShipsFree lib (parse_failed e) = Unit

outcome-ShipsFree :
    (f64 : Float64) (lib : PlanLibrary) (env : Environment) (p : LogPipeline)
    (r : Parsed × Option Error)
    → ShipsFree lib (outcome f64 lib env p r)
outcome-ShipsFree f64 lib env p (parsed, some e) = tt
outcome-ShipsFree f64 lib env p ((events, payloads), none) =
    extract_plans-AreFree lib events payloads

after_source-ShipsFree :
    (f64 : Float64) (lib : PlanLibrary) (env : Environment) (p : LogPipeline)
    (a : FileTail × Answer Text)
    → ShipsFree lib (after_source f64 lib env p a).1
after_source-ShipsFree f64 lib env p (t, fails e) = tt
after_source-ShipsFree f64 lib env p (t, gives chunk) =
    outcome-ShipsFree f64 lib env p
      (parse_stream env p.opts (record { content = chunk; failure = none }))

module _ (f64 : Float64) (lib : PlanLibrary) (env : Environment) where
  -- Whatever the log holds and the libraries answer, where a drain succeeds no condition of a plan
  -- that it ships has a single quote, and each is made of parts, with " AND " between them, that are
  -- what pg_query's normalisation answers for a text wrapped in the prefix, less the prefix and
  -- trimmed. That the answer has no literal quoted otherwise is left to pg_query.
  pub drain-IsQuoteFree :
      (os : Os) (p : LogPipeline) (res : DrainResult f64.F)
      → (drain f64 lib env os p).1 ≡ drained res
      → AreFree lib res.query_plans
  unfolding drain
  drain-IsQuoteFree os p res h =
      subst (ShipsFree lib) h (after_source-ShipsFree f64 lib env p (read os p.src))
