-- ===== src/PolicyWrite/Set.antt =====
-- internal/store/capability_policy.go (`SetCapabilityPolicy`): the table stays a table, and what was
-- set is what is read.
use lynceus.Prelude.{
  List, ℕ, Bool, true, false, ◌≡◌, refl, sym, ap, ◌∙◌, Option, none, some, ◌∷◌, ◌==◌, string_eq,
  if◌then◌else◌,
}
use lynceus.Prelude.Result.{Error, Result, ok, err}
use lynceus.Audit.Canonical.{Codec}
use lynceus.Audit.Log.{AuditRecord, AuditLog, Faults, stored_row, append_audit_returning}
use lynceus.T2Read.{Render}
use lynceus.T2Read.Audited.{append_ok}
use lynceus.Policy.{PolicyRow, CapabilityPolicy, IsTable, scan_row, get_capability_policy}
use lynceus.PolicyWrite.{
  ConfigState, set_entry, upsert_policy, set_capability_policy, SetCapabilityPolicyInput, upserted,
  new_row,
}
use lynceus.PolicyWrite.Upsert.{upsert-IsTable, get-upsert, upserted-new, named_or_empty}

-- The policy that a change asks for, with its time and its audit row's id.
abbrev pub asked_for : SetCapabilityPolicyInput → ℕ → ℕ → CapabilityPolicy
asked_for x now id = record {
  server_id = x.server_id;
  database_name = x.database_name;
  capability = x.capability;
  enabled = x.enabled;
  set_by = x.set_by;
  set_at = now;
  reason = x.reason;
  audit_chain_id = id;
}

-- The table and the log after a change that succeeds: what was asked for comes back and is read
-- back, and its audit row is the latest of the log.
abbrev pub IsStored :
    Render → ℕ → SetCapabilityPolicyInput → CapabilityPolicy → ConfigState → ConfigState → Type 0
IsStored r now x out old new =
    (rec : AuditRecord) × (out ≡ asked_for x now rec.id)
    × (get_capability_policy new.policies x.server_id x.database_name x.capability ≡ some out)
    × (new.log.rows ≡ stored_row rec ∷ old.log.rows)
    × (rec.actor ≡ r.utf8 x.set_by)
    × (rec.action ≡ r.utf8 "capability_policy.set")
    × (rec.server_id ≡ r.utf8 x.server_id)
    × (rec.data_tier ≡ 0)

-- The stored row is read as what was asked for.
scan_row-asked_for :
    (x : SetCapabilityPolicyInput) (now id : ℕ) (rows : List PolicyRow)
    → scan_row (upserted (new_row x now id) rows) ≡ asked_for x now id
unfolding scan_row
scan_row-asked_for x now id rows =
    ap scan_row (upserted-new (new_row x now id) rows)
    ∙ (λ i. record (asked_for x now id) { database_name = named_or_empty x.database_name i })

abbrev value_or : CapabilityPolicy → Result CapabilityPolicy → CapabilityPolicy
value_or d (ok v) = v
value_or d (err e) = d

module _ (c : Codec) (f : Faults) (fault : Option Error) (r : Render) (now : ℕ)
    (x : SetCapabilityPolicyInput) (s : ConfigState) where
  upsert_policy-IsStored :
      (p : Result AuditRecord × AuditLog) (out : CapabilityPolicy)
      → append_audit_returning c f s.log (set_entry r x) now ≡ p
      → (upsert_policy fault x now s.policies p).0 ≡ ok out
      → IsStored r now x out s (upsert_policy fault x now s.policies p).1
  unfolding set_entry scan_row
  upsert_policy-IsStored (err e, log) out q h = cc
  upsert_policy-IsStored (ok rec, log) out q h = go fault h
    where
      go :
          (o : Option Error)
          → (upsert_policy o x now s.policies (ok rec, log)).0 ≡ ok out
          → IsStored r now x out s (upsert_policy o x now s.policies (ok rec, log)).1
      go (some e) h = cc
      go none h =
          let e : scan_row (upserted (new_row x now rec.id) s.policies) ≡ out =
            ap (value_or out) h in
          let a = append_ok c f s.log (set_entry r x) now rec (ap (λ p. p.0) q) in
          (
            rec,
            sym e ∙ scan_row-asked_for x now rec.id s.policies,
            get-upsert x now rec.id s.policies ∙ ap some e,
            ap (λ (p : Result AuditRecord × AuditLog). p.1.rows) (sym q) ∙ a.0,
            a.1,
            a.2,
            a.3,
            a.4,
          )

  upsert_policy-IsTable :
      (p : Result AuditRecord × AuditLog)
      → IsTable s.policies
      → IsTable (upsert_policy fault x now s.policies p).1.policies
  upsert_policy-IsTable (err e, log) t = t
  upsert_policy-IsTable (ok rec, log) t = go fault
    where
      go : (o : Option Error) → IsTable (upsert_policy o x now s.policies (ok rec, log)).1.policies
      go (some e) = t
      go none = upsert-IsTable x now rec.id s.policies t

  -- What the theorem below says of a result.
  abbrev IsGood : Result CapabilityPolicy × ConfigState → Type 0
  IsGood p =
      IsTable p.1.policies × ((out : CapabilityPolicy) → p.0 ≡ ok out → IsStored r now x out s p.1)

  guarded :
      (b : Bool) (p q : Result CapabilityPolicy × ConfigState)
      → IsGood p
      → IsGood q
      → IsGood (if b then p else q)
  guarded true p q h k = h
  guarded false p q h k = k

  change_IsGood : IsTable s.policies → IsGood (set_capability_policy c f fault r now x s)
  unfolding set_capability_policy
  change_IsGood t =
      guarded (x.server_id == "") _ _ (t, λ out h. cc)
        (guarded (x.capability == "") _ _ (t, λ out h. cc)
          (guarded (x.set_by == "") _ _ (t, λ out h. cc)
            (
              upsert_policy-IsTable (append_audit_returning c f s.log (set_entry r x) now) t,
              λ out.
                  upsert_policy-IsStored (append_audit_returning c f s.log (set_entry r x) now) out
                    refl,
            )))

  -- A change of policy of a table with its constraint keeps the constraint, whether the change
  -- succeeds or not.
  pub set_capability_policy-IsTable :
      IsTable s.policies → IsTable (set_capability_policy c f fault r now x s).1.policies
  set_capability_policy-IsTable t = (change_IsGood t).0

  -- Where a change of policy of a table with its constraint succeeds, it returns the policy that was
  -- asked for: its server, database, capability and value, who set it and why, the time, and the id of
  -- its audit row. Reading the table at its key gives the same, and the log's latest row is the
  -- change's, with its actor, its server, tier 0 and the id that the policy carries.
  pub set_capability_policy-IsStored :
      IsTable s.policies
      → (out : CapabilityPolicy) → (set_capability_policy c f fault r now x s).0 ≡ ok out
      → IsStored r now x out s (set_capability_policy c f fault r now x s).1
  set_capability_policy-IsStored t out h = (change_IsGood t).1 out h
