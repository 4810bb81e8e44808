-- ===== src/PolicyWrite/Tests.antt =====
-- internal/store/capability_policy.go (`SetCapabilityPolicy`): a change of an empty table.
use mathlib.Core.List.Memᴰ
use lynceus.Prelude.{false, ◌≡◌, refl, none, [], ◌∷◌}
use lynceus.Prelude.Text.{codes}
use lynceus.Prelude.Result.{ok, msg}
use lynceus.Policy.{scan_row, IsTable, CapabilityPolicy}
use lynceus.Audit.Canonical.{yes, Codec, canonical_json}
use lynceus.Audit.Log.{no_faults, canonical_detail, append_audit_tx, append_audit_returning}
use lynceus.T2Read.{Render}
use lynceus.PolicyWrite.{SetCapabilityPolicyInput, ConfigState, set_entry, set_capability_policy}
use lynceus.PolicyWrite.Batch.{
  CapabilityPolicyKey, BatchFaults, delete_capability_policy, apply_capability_policies_batch,
}
use lynceus.PolicyWrite.Atomic.{IsAtomic}
use lynceus.PolicyWrite.Atomic.Apply.{IsApplied, apply_batch-IsAtomic}
use lynceus.PolicyWrite.Atomic.Delete.{IsRemoved, delete_capability_policy-IsAtomic}
use lynceus.PolicyWrite.Set.{
  IsStored, set_capability_policy-IsTable, set_capability_policy-IsStored,
}

abbrev codec : Codec
codec = record {
  sha256 = λ b. [];
  marshal = λ v. ok [];
  decode = λ b. ok yes;
  quote = λ b. b;
  jsonb_text = λ b. b;
}

abbrev render : Render
render = record { utf8 = codes; rfc3339 = λ t. []; decimal = λ n. [] }

abbrev change : SetCapabilityPolicyInput
change = record {
  server_id = "s1";
  database_name = "app";
  capability = "settings";
  enabled = false;
  set_by = "ann";
  reason = "review";
}

abbrev empty : ConfigState
empty = record { policies = []; log = record { rows = []; last_value = 0 } }

empty-IsTable : IsTable (empty.policies)
empty-IsTable = record {
  unique = λ a b m n s d c. absurd (Memᴰ.not-nil m);
  named = λ a m q. absurd (Memᴰ.not-nil m);
}

abbrev set_policy : CapabilityPolicy
set_policy = record {
  server_id = "s1";
  database_name = "app";
  capability = "settings";
  enabled = false;
  set_by = "ann";
  set_at = 9;
  reason = "review";
  audit_chain_id = 1;
}

change_ok : (set_capability_policy codec no_faults none render 9 change empty).0 ≡ ok set_policy
unfolding set_capability_policy append_audit_returning append_audit_tx canonical_detail
    canonical_json set_entry scan_row
change_ok = refl

set_capability_policy-IsStored_example :
    IsStored render 9 change set_policy empty
      (set_capability_policy codec no_faults none render 9 change empty).1
set_capability_policy-IsStored_example =
    set_capability_policy-IsStored codec no_faults none render 9 change empty empty-IsTable
      set_policy change_ok

abbrev key : CapabilityPolicyKey
key = record { server_id = "s1"; database_name = "app"; capability = "settings" }

abbrev no_batch_faults : BatchFaults
no_batch_faults = record {
  upsert_fault = none;
  delete_fault = none;
  twice = msg "row a second time";
}

apply_batch-IsAtomic_example :
    IsAtomic (codes "ann") (IsApplied 9 (change ∷ []) (key ∷ []) []) empty (
      apply_capability_policies_batch codec no_faults no_batch_faults render [] 9
        (change ∷ [])
        (key ∷ [])
        "ann"
        empty)
apply_batch-IsAtomic_example =
    apply_batch-IsAtomic codec no_faults no_batch_faults render [] 9 (change ∷ []) (key ∷ []) "ann"
      empty empty-IsTable

abbrev changed : ConfigState
changed = (set_capability_policy codec no_faults none render 9 change empty).1

delete_capability_policy-IsAtomic_example :
    IsAtomic
      (codes "ann")
      (IsRemoved key changed.policies)
      changed
      (delete_capability_policy codec no_faults none render 10 key "ann" "review" changed)
delete_capability_policy-IsAtomic_example =
    delete_capability_policy-IsAtomic codec no_faults none render 10 key "ann" "review" changed
      (set_capability_policy-IsTable codec no_faults none render 9 change empty empty-IsTable)
