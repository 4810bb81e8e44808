-- ===== src/Caps/Discover.antt =====
-- internal/caps/caps.go: `Discover`. The probes are arguments: each writes its verdicts into the
-- result set.
use lynceus.Prelude.{String, Bool, false, List, [], ◌∷◌, Option, none, some}
use lynceus.Prelude.Dict.{Dict, get, put}
use lynceus.Prelude.Result.{Error, Result, ok, err}
use lynceus.Prelude.{string_eq}
use lynceus.Caps.{Capability, declared}

pub data ReasonCode : Type 0 where
  probe_error not_installed installed parse_error version_below_baseline version_ok : ReasonCode
  not_preloaded disabled no_role role_ok log_reachable log_unreachable internal : ReasonCode

pub record Status : Type 0 where
  pub available : Bool
  pub reason : ReasonCode
  pub detail : String

abbrev pub CapabilitySet : Type 0
CapabilitySet = Dict Capability Status

-- Every driver error becomes one code, and its text is dropped.
unfoldable pub err_to_code : Error → ReasonCode
err_to_code e = probe_error

abbrev pub unrecorded : Status
unrecorded = record {
  available = false;
  reason = internal;
  detail = "probe did not record a result (bug)";
}

-- The completeness loop: a key that no probe wrote is filled in.
unfoldable pub complete : List Capability → CapabilitySet → CapabilitySet
complete [] out = out
complete (c ∷ cs) out =
    complete cs (elim (get c out) [ none ↦ put c unrecorded out | some _ ↦ out ])

unfoldable pub run_probes : List (CapabilitySet → CapabilitySet) → CapabilitySet → CapabilitySet
run_probes [] out = out
run_probes (p ∷ ps) out = run_probes ps (p out)

-- `context` and `acquire` are what `ctx.Err()` and `pool.Acquire` return.
unfoldable pub discover :
    Option Error → Option Error → List (CapabilitySet → CapabilitySet) → Result CapabilitySet
unfolding run_probes complete
discover (some e) acquire probes = err e
discover none (some e) probes = err e
discover none none probes = ok (complete declared (run_probes probes []))
