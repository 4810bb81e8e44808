-- ===== src/Caps/Tests.antt =====
-- internal/caps: a discovery with two probes, and the gate's two defaults.
use lynceus.Prelude.{true, false, ◌≡◌, refl, none, List, [], ◌∷◌, if◌then◌else◌, string_eq}
use lynceus.Prelude.Dict.{get, put}
use lynceus.Prelude.Result.{ok}
use lynceus.Caps.{Capability, pg_stat_statements, query_text_t2, is_declared_capability}
use lynceus.Caps.Gate
use lynceus.Caps.Discover.{CapabilitySet, Status, installed, probe_error, run_probes, discover}
use lynceus.Caps.Laws.{or_unrecorded, discover_complete}

abbrev found : Status
found = record { available = true; reason = installed; detail = "1.10" }

abbrev failed : Status
failed = record { available = false; reason = probe_error; detail = "timeout" }

abbrev probes : List (CapabilitySet → CapabilitySet)
probes = (λ s. put pg_stat_statements found s) ∷ (λ s. put "auto_explain" failed s) ∷ []

discover_complete_example :
    (out : CapabilitySet) × (discover none none probes ≡ ok out)
    × ((k : Capability)
        → get k out ≡ (
            if is_declared_capability k
            then or_unrecorded (get k (run_probes probes []))
            else get k (run_probes probes [])))
discover_complete_example = discover_complete probes

gate_defaults :
    (Gate.allowed Gate.new_gate "app" pg_stat_statements ≡ true)
    × (Gate.allowed_strict Gate.new_gate "app" query_text_t2 ≡ false)
unfolding Gate.allowed Gate.allowed_strict get Gate.new_gate
gate_defaults = (refl, refl)
