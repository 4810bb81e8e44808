-- ===== src/PolicyWrite/Atomic/Delete.antt =====
-- internal/store/capability_policy.go (`DeleteCapabilityPolicy`): what a deletion does.
use lynceus.Prelude.{
  ℕ, ◌≡◌, subst, ap, ◌⊎◌, inl, inr, String, true, false, not, Option, none, some, List, filter,
  Memᴰ, All, All-mem-all, mem-filter, filter-mem, Bool-cases, string_eq, ◌==◌,
}
use lynceus.Prelude.Result.{Error, ok}
use lynceus.Policy.{PolicyRow, IsTable}
use lynceus.Audit.Canonical.{Codec}
use lynceus.Audit.Log.{AuditRecord, Faults}
use lynceus.T2Read.{Render}
use lynceus.PolicyWrite.{ConfigState}
use lynceus.PolicyWrite.Batch.{
  CapabilityPolicyKey, matches_key, delete_entry, delete_row, delete_capability_policy,
}
use lynceus.PolicyWrite.Atomic.{
  IsAtomic, transaction-IsAtomic, guarded, filter-IsTable, rows_or, not-true,
}

-- What a deletion makes of a table: exactly the rows that do not have the key.
abbrev pub IsRemoved : CapabilityPolicyKey → List PolicyRow → ℕ → List PolicyRow → Type 0
IsRemoved k old id rows =
    IsTable rows
    × All (λ a. (matches_key k a ≡ false) × Memᴰ a old) rows
    × All (λ a. (matches_key k a ≡ true) ⊎ Memᴰ a rows) old

kept-IsRemoved :
    (k : CapabilityPolicyKey) (old : List PolicyRow) (id : ℕ)
    → IsTable old
    → IsRemoved k old id (filter (λ r. not (matches_key k r)) old)
kept-IsRemoved k old id t = (
  filter-IsTable _ old t,
  All-mem-all _ _
      (λ a m. let (j, q) = mem-filter (λ r. not (matches_key k r)) old m in (not-true _ q, j)),
  All-mem-all _ old (λ a m. elim (Bool-cases (matches_key k a)) [
    | inl q ↦ inl q
    | inr q ↦ inr (filter-mem (λ r. not (matches_key k r)) (ap not q) m)
  ]),
)

module _ (c : Codec) (f : Faults) (fault : Option Error) (r : Render) (now : ℕ)
    (k : CapabilityPolicyKey) (actor reason : String) (s : ConfigState) where
  deleted-holds :
      IsTable s.policies
      → (o : Option Error) (rec : AuditRecord) (rows : List PolicyRow)
      → delete_row o k s.policies ≡ ok rows
      → IsRemoved k s.policies rec.id rows
  deleted-holds t (some x) rec rows h = cc
  deleted-holds t none rec rows h =
      subst (IsRemoved k s.policies rec.id) (ap (rows_or rows) h)
        (kept-IsRemoved k s.policies rec.id t)

  -- The deletion of a policy of a table with its constraint either fails and leaves the policies and
  -- the log's rows as they were, or adds to the log one row, which names the actor, and leaves a
  -- table with its constraint and exactly the old rows that do not have the key.
  pub delete_capability_policy-IsAtomic :
      IsTable s.policies
      → IsAtomic
          (r.utf8 actor)
          (IsRemoved k s.policies)
          s
          (delete_capability_policy c f fault r now k actor reason s)
  unfolding delete_capability_policy delete_entry
  delete_capability_policy-IsAtomic t = guarded _ _ s (k.server_id == "") _ _ (
      guarded _ _ s (k.capability == "") _ _ (
        guarded _ _ s (actor == "") _ _ (
          transaction-IsAtomic c f s (delete_entry r k actor reason) now _ (IsRemoved k s.policies)
            (deleted-holds t fault))))
