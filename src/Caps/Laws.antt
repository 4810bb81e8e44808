-- ===== src/Caps/Laws.antt =====
-- internal/caps: the result set of a discovery has every declared capability.
use lynceus.Prelude.{
  ◌≡◌, refl, ◌∙◌, Option, none, some, List, [], ◌∷◌, arith, eq_iff, ◌==◌, string_eq, if◌then◌else◌,
  any,
}
use lynceus.Prelude.Dict.{get, put, get-put}
use lynceus.Prelude.Result.{ok}
use lynceus.Caps.{Capability, declared, is_declared_capability}
use lynceus.Caps.Discover.{CapabilitySet, Status, unrecorded, complete, run_probes, discover}

fill : Capability → CapabilitySet → CapabilitySet
fill c out = elim (get c out) [ none ↦ put c unrecorded out | some _ ↦ out ]

abbrev pub or_unrecorded : Option Status → Option Status
or_unrecorded none = some unrecorded
or_unrecorded (some s) = some s

get-fill :
    (c k : Capability) (out : CapabilitySet)
    → get k (fill c out) ≡ (if c == k then or_unrecorded (get k out) else get k out)
unfolding fill
get-fill c k out = ground (arith, get-put c k unrecorded out, eq_iff c k)

get-complete :
    (cs : List Capability) (k : Capability) (out : CapabilitySet)
    → get k (complete cs out)
      ≡ (if any (λ c. c == k) cs then or_unrecorded (get k out) else get k out)
unfolding complete fill
get-complete [] k out = refl
get-complete (c ∷ cs) k out =
    get-complete cs k (fill c out) ∙ ground (arith, get-fill c k out, eq_iff c k)

-- A discovery that reaches the pool succeeds; its set has every declared capability, keeps each
-- verdict of the probes, and reports a declared capability without one as unavailable with the
-- internal code.
pub discover_complete :
    (probes : List (CapabilitySet → CapabilitySet))
    → (out : CapabilitySet) × (discover none none probes ≡ ok out)
      × ((k : Capability)
          → get k out ≡ (
              if is_declared_capability k
              then or_unrecorded (get k (run_probes probes []))
              else get k (run_probes probes [])))
unfolding discover is_declared_capability
discover_complete probes = (
  complete declared (run_probes probes []),
  refl,
  λ k. get-complete declared k (run_probes probes []),
)
